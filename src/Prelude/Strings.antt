-- ===== src/Prelude/Strings.antt =====
-- The methods of Python's `str` that the program calls.
use sgdy_pa_backend.Prelude.Tests.{◌==◌, leb, if◌then◌else◌}
use sgdy_pa_backend.Prelude.Text.{Text, truthy}
use Prim.Native.Nat.{ℕ, ◌+◌, ◌-◌}
use mathlib.Core.Bool.{Bool, true, false, not, ◌&&◌, ◌||◌}
use mathlib.Core.List.{List, [], ◌∷◌, ◌++◌, map}

abbrev between : ℕ → ℕ → ℕ → Bool
between a b c = leb a c && leb c b

-- `c.isspace()`
unfoldable pub is_space : ℕ → Bool
is_space c =
    between 9 13 c
    || between 28 32 c
    || c == 0x85
    || c == 0xA0
    || c == 0x1680
    || between 0x2000 0x200A c
    || between 0x2028 0x2029 c
    || c == 0x202F
    || c == 0x205F
    || c == 0x3000

-- `s.lstrip(...)`, for the characters that pass the test.
unfoldable pub lstrip : (ℕ → Bool) → Text → Text
lstrip p [] = []
lstrip p (c ∷ s) = if p c then lstrip p s else c ∷ s

-- `s.rstrip(...)`
unfoldable pub rstrip : (ℕ → Bool) → Text → Text
rstrip p [] = []
rstrip p (c ∷ s) = let rest = rstrip p s in if p c && not (truthy rest) then [] else c ∷ rest

-- `s.strip()`
unfoldable pub strip : Text → Text
unfolding lstrip rstrip is_space
strip s = rstrip is_space (lstrip is_space s)

-- `s.strip(...)`, for the characters that pass the test.
unfoldable pub strip_of : (ℕ → Bool) → Text → Text
unfolding lstrip rstrip
strip_of p s = rstrip p (lstrip p s)

-- `s.upper()` and `s.lower()`, on the letters of ASCII. The program compares their results with the
-- words CREATE, UPDATE, DELETE, bearer and sha256, and no other character has an image that is made
-- of the letters of those words alone.
unfoldable pub upper : Text → Text
upper = map (λ c. if between b'a' b'z' c then c - 32 else c)

unfoldable pub lower : Text → Text
lower = map (λ c. if between b'A' b'Z' c then c + 32 else c)

-- `s.startswith(p)`
unfoldable pub starts_with : Text → Text → Bool
starts_with s [] = true
starts_with [] (d ∷ p) = false
starts_with (c ∷ s) (d ∷ p) = (c == d) && starts_with s p

-- `" ".join(parts)`
unfoldable pub join_space : List Text → Text
join_space [] = []
join_space (s ∷ []) = s
join_space (s ∷ t ∷ r) = s ++ b' ' ∷ join_space (t ∷ r)

abbrev cons_head : ℕ → List Text → List Text
cons_head c [] = (c ∷ []) ∷ []
cons_head c (s ∷ r) = (c ∷ s) ∷ r

-- `s.split(sep)`, for a separator of one character.
unfoldable pub split : ℕ → Text → List Text
split sep [] = [] ∷ []
split sep (c ∷ s) = if c == sep then [] ∷ split sep s else cons_head c (split sep s)
