-- ===== src/Prelude/Lists.antt =====
-- Lists as database tables: the first row that passes a test, the rows that pass, a row rewritten.
use Prim.Native.Nat.{ℕ, suc}
use mathlib.Core.Path.{◌≡◌, refl}
use mathlib.Core.Logic.{◌⊎◌, inl, inr}
use mathlib.Core.Bool.{Bool, true, false, ◌&&◌, ◌||◌}
use mathlib.Core.Option.{Option, none, some}
use mathlib.Core.List.{List, [], ◌∷◌, ◌++◌}
use native.Mathlib.Omega.{arith}
use sgdy_pa_backend.Prelude.Tests.{if◌then◌else◌, Bool-cases}

module _ {ℓ} {A : Type ℓ} where
  abbrev pub length : List A → ℕ
  length [] = 0
  length (x ∷ xs) = suc (length xs)

  -- A predicate on every element, by recursion.
  abbrev pub All {κ} : (A → Type κ) → List A → Type κ
  All P [] = Unit
  All P (x ∷ xs) = P x × All P xs

  -- `any(p(x) for x in xs)`
  abbrev pub any : (A → Bool) → List A → Bool
  any p [] = false
  any p (x ∷ xs) = p x || any p xs

  -- `all(p(x) for x in xs)`
  abbrev pub all : (A → Bool) → List A → Bool
  all p [] = true
  all p (x ∷ xs) = p x && all p xs

  -- `objects.filter(p).first()`
  abbrev pub find : (A → Bool) → List A → Option A
  find p [] = none
  find p (x ∷ xs) = if p x then some x else find p xs

  -- `[x for x in xs if p(x)]`
  abbrev pub select : (A → Bool) → List A → List A
  select p [] = []
  select p (x ∷ xs) = if p x then x ∷ select p xs else select p xs

  -- `save(...)` on the rows that pass the test.
  abbrev pub update_where : (A → Bool) → (A → A) → List A → List A
  update_where p f [] = []
  update_where p f (x ∷ xs) = (if p x then f x else x) ∷ update_where p f xs

  pub All-append {κ} : (P : A → Type κ) (xs ys : List A) → All P xs → All P ys → All P (xs ++ ys)
  All-append P [] ys hx hy = hy
  All-append P (x ∷ xs) ys hx hy = (hx.0, All-append P xs ys hx.1 hy)

  pub All-map {κ μ} :
      (P : A → Type κ) (Q : A → Type μ) (f : (x : A) → P x → Q x) (xs : List A)
      → All P xs
      → All Q xs
  All-map P Q f [] h = tt
  All-map P Q f (x ∷ xs) h = (f x h.0, All-map P Q f xs h.1)

  pub All-find {κ} :
      (P : A → Type κ) (p : A → Bool) (xs : List A) {x : A} → All P xs → find p xs ≡ some x → P x
  All-find P p [] h e = cc
  All-find P p (y ∷ xs) {x} h e = ground (arith, All-find P p xs {x = x} h.1)

  pub find-holds : (p : A → Bool) (xs : List A) {x : A} → find p xs ≡ some x → p x ≡ true
  find-holds p [] e = cc
  find-holds p (y ∷ xs) {x} e = ground (arith, find-holds p xs {x = x})

module _ {A : Type 0} where
  -- `x` is one of the rows.
  abbrev pub In : A → List A → Type 0
  In x [] = ⊥
  In x (y ∷ ys) = (x ≡ y) ⊎ In x ys

  pub any-holds : (p : A → Bool) (xs : List A) → any p xs ≡ true → (x : A) × In x xs × (p x ≡ true)
  any-holds p [] e = cc
  any-holds p (x ∷ xs) e = elim (Bool-cases (p x)) [
    | inl here ↦ (x, inl refl, here)
    | inr other ↦ let (y, m, h) = any-holds p xs (rw other at e) in (y, inr m, h)
  ]

  pub any_of_in : (p : A → Bool) (xs : List A) (x : A) → In x xs → p x ≡ true → any p xs ≡ true
  any_of_in p [] x m h = absurd m
  any_of_in p (y ∷ xs) x (inl e) h = ground arith
  any_of_in p (y ∷ xs) x (inr m) h = ground (arith, any_of_in p xs x m h)

  pub in-select : (p : A → Bool) (xs : List A) (x : A) → In x (select p xs) → In x xs × (p x ≡ true)
  in-select p [] x m = absurd m
  in-select p (y ∷ xs) x m = ground (arith, in-select p xs x)

  pub in-select_of_in :
      (p : A → Bool) (xs : List A) (x : A) → In x xs → p x ≡ true → In x (select p xs)
  in-select_of_in p [] x m h = absurd m
  in-select_of_in p (y ∷ xs) x m h = ground (arith, in-select_of_in p xs x)

  pub in-find : (p : A → Bool) (xs : List A) (x : A) → find p xs ≡ some x → In x xs
  in-find p [] x e = cc
  in-find p (y ∷ xs) x e = ground (arith, in-find p xs x)

  pub in-update_where :
      (p : A → Bool) (f : A → A) (xs : List A) (x : A)
      → In x (update_where p f xs)
      → (y : A) × In y xs × (x ≡ (if p y then f y else y))
  in-update_where p f [] x m = absurd m
  in-update_where p f (y ∷ xs) x (inl e) = (y, inl refl, e)
  in-update_where p f (y ∷ xs) x (inr m) =
      let (z, h, e) = in-update_where p f xs x m in (z, inr h, e)

  pub in-update_where_of_in :
      (p : A → Bool) (f : A → A) (xs : List A) (x : A)
      → In x xs
      → p x ≡ false
      → In x (update_where p f xs)
  in-update_where_of_in p f [] x m h = absurd m
  in-update_where_of_in p f (y ∷ xs) x m h = ground (arith, in-update_where_of_in p f xs x)

  pub find_of_in :
      (p : A → Bool) (xs : List A) (x : A) → In x xs → p x ≡ true → (y : A) × (find p xs ≡ some y)
  find_of_in p [] x m h = absurd m
  find_of_in p (y ∷ xs) x m h = elim (Bool-cases (p y)) [
    | inl here ↦ (y, rw here refl)
    | inr other ↦ let (z, e) = find_of_in p xs x (ground arith) h in (z, rw other e)
  ]

  pub any-update_where :
      (p q : A → Bool) (f : A → A) (xs : List A)
      → ((x : A) → p (f x) ≡ p x)
      → any p (update_where q f xs) ≡ any p xs
  any-update_where p q f [] h = refl
  any-update_where p q f (x ∷ xs) h = ground (arith, h x, any-update_where p q f xs h)

  pub update_where-id :
      (p : A → Bool) (f : A → A) (xs : List A)
      → ((x : A) → In x xs → p x ≡ true → f x ≡ x)
      → update_where p f xs ≡ xs
  update_where-id p f [] h = refl
  update_where-id p f (x ∷ xs) h =
      ground (arith, h x (inl refl), update_where-id p f xs (λ y m. h y (inr m)))

  pub update_where-agree :
      (p q : A → Bool) (f : A → A) (xs : List A)
      → ((x : A) → In x xs → p x ≡ q x)
      → update_where p f xs ≡ update_where q f xs
  update_where-agree p q f [] h = refl
  update_where-agree p q f (x ∷ xs) h =
      ground (arith, h x (inl refl), update_where-agree p q f xs (λ y m. h y (inr m)))

  pub find-update_where :
      (p q : A → Bool) (f : A → A) (xs : List A)
      → ((x : A) → p (f x) ≡ p x)
      → find p (update_where q f xs)
        ≡ (elim (find p xs) [ none ↦ none | some x ↦ some (if q x then f x else x) ])
  find-update_where p q f [] h = refl
  find-update_where p q f (x ∷ xs) h = ground (arith, h x, find-update_where p q f xs h)

  pub any-false : (p : A → Bool) (xs : List A) (x : A) → any p xs ≡ false → In x xs → p x ≡ false
  any-false p [] x e m = absurd m
  any-false p (y ∷ xs) x e m = ground (arith, any-false p xs x)

  pub find-none : (p : A → Bool) (xs : List A) (x : A) → find p xs ≡ none → In x xs → p x ≡ false
  find-none p [] x e m = absurd m
  find-none p (y ∷ xs) x e m = ground (arith, find-none p xs x)
