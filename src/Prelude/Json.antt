-- ===== src/Prelude/Json.antt =====
-- JSON values, as `json.loads` returns them. An object is its items in insertion order. Of the
-- numbers only the natural ones are there: negative numbers and fractions are not modelled.
use Prim.Native.Nat.{ℕ}
use mathlib.Core.Bool.{Bool}
use mathlib.Core.Option.{Option, none, some}
use sgdy_pa_backend.Prelude.Tests.{if◌then◌else◌}
use sgdy_pa_backend.Prelude.Text.{Text, text_eq}

mutual
  pub data Json : Type 0 where
    null : Json
    boolean : Bool → Json
    num : ℕ → Json
    str : Text → Json
    arr : Items → Json
    obj : Fields → Json

  pub data Items : Type 0 where
    nil : Items
    cons : Json → Items → Items

  pub data Fields : Type 0 where
    end : Fields
    field : Text → Json → Fields → Fields

-- `d.get(key)`, `none` for a missing key.
unfoldable pub get : Text → Fields → Option Json
get k end = none
get k (field j v d) = if text_eq j k then some v else get k d
