-- ===== src/Trail/Encoding.antt =====
-- A serialisation with the property that apps/trail/services.py relies on, for concrete runs.
use sgdy_pa_backend.Prelude.{ℕ, ◌≡◌, refl, Bool, true, false, [], ◌∷◌}
use sgdy_pa_backend.Prelude.Text.{Text}
use sgdy_pa_backend.Prelude.Json.{
  Json, null, boolean, num, str, arr, obj, Items, nil, cons, Fields, end, field,
}
use sgdy_pa_backend.Trail.Canonical.{sort_keys}

-- Every text begins with a tag, and `r` follows it.
abbrev encode_text : Text → Text → Text
encode_text [] r = 0 ∷ r
encode_text (c ∷ s) r = 1 ∷ c ∷ encode_text s r

abbrev encode_bool : Bool → ℕ
encode_bool true = 1
encode_bool false = 0

unfoldable mutual
  pub encode : Json → Text → Text
  encode null r = 0 ∷ r
  encode (boolean b) r = 1 ∷ encode_bool b ∷ r
  encode (num n) r = 2 ∷ n ∷ r
  encode (str s) r = 3 ∷ encode_text s r
  encode (arr i) r = 4 ∷ encode_items i r
  encode (obj d) r = 5 ∷ encode_fields d r

  pub encode_items : Items → Text → Text
  encode_items nil r = 0 ∷ r
  encode_items (cons v i) r = 1 ∷ encode v (encode_items i r)

  pub encode_fields : Fields → Text → Text
  encode_fields end r = 0 ∷ r
  encode_fields (field k v d) r = 1 ∷ encode_text k (encode v (encode_fields d r))

encode_text-inj : (s t r q : Text) → encode_text s r ≡ encode_text t q → (s ≡ t) × (r ≡ q)
encode_text-inj [] [] r q e = (refl, cc)
encode_text-inj [] (c ∷ t) r q e = cc
encode_text-inj (c ∷ s) [] r q e = cc
encode_text-inj (c ∷ s) (d ∷ t) r q e =
    let (same, rest) = encode_text-inj s t r q cc in (cc (same, e), rest)

mutual
  unfolding encode encode_items encode_fields

  encode-inj : (v w : Json) (r q : Text) → encode v r ≡ encode w q → (v ≡ w) × (r ≡ q)
  encode-inj null null r q e = (refl, cc)
  encode-inj (boolean true) (boolean true) r q e = (refl, cc)
  encode-inj (boolean false) (boolean false) r q e = (refl, cc)
  encode-inj (num n) (num m) r q e = (cc, cc)
  encode-inj (str s) (str t) r q e =
      let (same, rest) = encode_text-inj s t r q cc in (cc same, rest)
  encode-inj (arr i) (arr j) r q e =
      let (same, rest) = encode_items-inj i j r q cc in (cc same, rest)
  encode-inj (obj c) (obj d) r q e =
      let (same, rest) = encode_fields-inj c d r q cc in (cc same, rest)
  encode-inj _ _ r q e = cc

  encode_items-inj :
      (i j : Items) (r q : Text) → encode_items i r ≡ encode_items j q → (i ≡ j) × (r ≡ q)
  encode_items-inj nil nil r q e = (refl, cc)
  encode_items-inj (cons v i) (cons w j) r q e =
      let (head, tail) = encode-inj v w (encode_items i r) (encode_items j q) cc in
      let (same, rest) = encode_items-inj i j r q tail in (cc (head, same), rest)
  encode_items-inj _ _ r q e = cc

  encode_fields-inj :
      (c d : Fields) (r q : Text) → encode_fields c r ≡ encode_fields d q → (c ≡ d) × (r ≡ q)
  encode_fields-inj end end r q e = (refl, cc)
  encode_fields-inj (field k v c) (field l w d) r q e =
      let (key, more) =
        encode_text-inj k l (encode v (encode_fields c r)) (encode w (encode_fields d q)) cc in
      let (head, tail) = encode-inj v w (encode_fields c r) (encode_fields d q) more in
      let (same, rest) = encode_fields-inj c d r q tail in (cc (key, head, same), rest)
  encode_fields-inj _ _ r q e = cc

abbrev pub dump_sorted : Json → Text
dump_sorted v = encode (sort_keys v) []

pub dump_sorted-inj : (v w : Json) → dump_sorted v ≡ dump_sorted w → sort_keys v ≡ sort_keys w
dump_sorted-inj v w e = (encode-inj (sort_keys v) (sort_keys w) [] [] e).0
