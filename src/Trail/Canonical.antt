-- ===== src/Trail/Canonical.antt =====
-- JSON values up to the order of their keys, which `json.dumps(..., sort_keys=True)` of
-- apps/trail/services.py forgets.
use sgdy_pa_backend.Prelude.{◌==◌, leb, Bool, true, false, [], ◌∷◌, if◌then◌else◌}
use sgdy_pa_backend.Prelude.Text.{Text}
use sgdy_pa_backend.Prelude.Json.{
  Json, null, boolean, num, str, arr, obj, Items, nil, cons, Fields, end, field,
}

-- The order of texts by their code points.
unfoldable pub text_leb : Text → Text → Bool
text_leb [] t = true
text_leb (a ∷ s) [] = false
text_leb (a ∷ s) (b ∷ t) = if a == b then text_leb s t else leb a b

unfoldable pub insert_field : Text → Json → Fields → Fields
unfolding text_leb
insert_field k v end = field k v end
insert_field k v (field j w d) =
    if text_leb k j then field k v (field j w d) else field j w (insert_field k v d)

unfoldable mutual
  unfolding insert_field

  -- The value with the keys of every object in order.
  pub sort_keys : Json → Json
  sort_keys (arr i) = arr (sort_items i)
  sort_keys (obj d) = obj (sort_fields d)
  sort_keys null = null
  sort_keys (boolean b) = boolean b
  sort_keys (num n) = num n
  sort_keys (str s) = str s

  pub sort_items : Items → Items
  sort_items nil = nil
  sort_items (cons v i) = cons (sort_keys v) (sort_items i)

  pub sort_fields : Fields → Fields
  sort_fields end = end
  sort_fields (field k v d) = insert_field k (sort_keys v) (sort_fields d)
