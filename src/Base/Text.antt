-- ===== src/Base/Text.antt =====
-- Python's `str.strip`, `in` and `startswith` on texts.
use Prim.Native.Nat.{ℕ}
use Prim.Native.Char.{code}
use Prim.Native.String.{String, ◌++◌ as append}
use mathlib.Core.List.{List, [], ◌∷◌}
use mathlib.Core.Bool.{Bool, true, false, ◌&&◌, ◌||◌}
use text.Mathlib.Text.{starts_with}
use food_order_system.Base.Tests.{if◌then◌else◌, leb, nat_beq}

-- The characters that `str.isspace` accepts.
unfoldable pub is_space : ℕ → Bool
is_space c =
    (leb 9 c && leb c 13)
    || (leb 28 c && leb c 32)
    || nat_beq c 0x85
    || nat_beq c 0xa0
    || nat_beq c 0x1680
    || (leb 0x2000 c && leb c 0x200a)
    || (leb 0x2028 c && leb c 0x2029)
    || nat_beq c 0x202f
    || nat_beq c 0x205f
    || nat_beq c 0x3000

unfoldable pub lstrip : String → String
unfolding is_space
lstrip String.[] = String.[]
lstrip (String.◌∷◌ c s) = let rest = lstrip s in if is_space (code c) then rest else String.◌∷◌ c s

unfoldable pub is_blank : String → Bool
is_blank String.[] = true
is_blank (String.◌∷◌ c s) = false

unfoldable pub rstrip : String → String
unfolding is_space is_blank
rstrip String.[] = String.[]
rstrip (String.◌∷◌ c s) =
    let rest = rstrip s in
    if is_space (code c) && is_blank rest then String.[] else String.◌∷◌ c rest

-- `s.strip()`
unfoldable pub strip : String → String
unfolding lstrip rstrip
strip s = rstrip (lstrip s)

-- `part in whole`
unfoldable pub has_part : String → String → Bool
has_part part String.[] = is_blank part
has_part part (String.◌∷◌ c s) = starts_with (String.◌∷◌ c s) part || has_part part s

-- `separator.join(parts)`
unfoldable pub join : String → List String → String
join separator [] = ""
join separator (s ∷ []) = s
join separator (s ∷ t ∷ rest) = append s (append separator (join separator (t ∷ rest)))
