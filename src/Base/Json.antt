-- ===== src/Base/Json.antt =====
-- The values of `json`: what a `dict[str, Any]` from a language model may hold.
use Prim.Native.Nat.{ℕ}
use Prim.Native.String.{String}
use mathlib.Core.Bool.{Bool, true, false, not}
use mathlib.Core.Option.{Option, none, some}
use food_order_system.Base.Tests.{string_eq, if◌then◌else◌, ◌==◌}
use food_order_system.Base.Text.{is_blank}
use food_order_system.Base.Int.{ℤ, is_truthy}

-- `decimal n k` is n / 10^k.
mutual
  pub data Json : Type 0 where
    null : Json
    boolean : Bool → Json
    int : ℤ → Json
    decimal : ℤ → ℕ → Json
    str : String → Json
    arr : Items → Json
    obj : Fields → Json

  pub data Items : Type 0 where
    nil : Items
    cons : Json → Items → Items

  pub data Fields : Type 0 where
    end : Fields
    field : String → Json → Fields → Fields

-- `bool(v)`
unfoldable pub truthy : Json → Bool
unfolding is_truthy is_blank
truthy null = false
truthy (boolean b) = b
truthy (int n) = is_truthy n
truthy (decimal n k) = is_truthy n
truthy (str s) = not (is_blank s)
truthy (arr nil) = false
truthy (arr (cons x xs)) = true
truthy (obj end) = false
truthy (obj (field k v fs)) = true

-- `d.get(key)`
unfoldable pub get_field : Fields → String → Option Json
get_field end key = none
get_field (field k v fs) key = if k == key then some v else get_field fs key
