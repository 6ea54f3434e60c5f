-- ===== src/Prelude/Texts.antt =====
-- A JavaScript string as the list of its UTF-16 code units.
use Prim.Native.Nat.{ℕ, ◌+◌}
use Prim.Native.Char.{code}
use Prim.Native.String.{String}
use mathlib.Core.Path.{◌≡◌, refl}
use mathlib.Core.Logic.{◌≢◌, ◌↔◌}
use mathlib.Core.Bool.{Bool, true, false, ◌&&◌, ◌||◌}
use mathlib.Core.List.{List, [], ◌∷◌, map}
use native.Mathlib.Omega.{arith}
use ship_yard.Prelude.Tests.{leb, ◌==◌, if◌then◌else◌}
use ship_yard.Prelude.Lists.{All, OneOf, length}

abbrev pub Text : Type 0
Text = List ℕ

-- A literal of the source, whose characters are ASCII: one code unit each.
unfoldable pub codes : String → Text
codes String.[] = []
codes (String.◌∷◌ c s) = code c ∷ codes s

-- `===` on strings
unfoldable pub text_eq : Text → Text → Bool
text_eq [] [] = true
text_eq (a ∷ s) (b ∷ t) = (a == b) && text_eq s t
text_eq _ _ = false

pub text_eq_iff : (s t : Text) → (text_eq s t ≡ true) ↔ (s ≡ t)
unfolding text_eq
text_eq_iff [] [] = ((λ _. refl), (λ _. refl))
text_eq_iff [] (b ∷ t) = ((λ h. cc), (λ h. cc))
text_eq_iff (a ∷ s) [] = ((λ h. cc), (λ h. cc))
text_eq_iff (a ∷ s) (b ∷ t) = ground (arith, text_eq_iff s t)

-- `keys.includes(key)`
unfoldable pub includes : List Text → Text → Bool
includes [] key = false
includes (k ∷ ks) key = text_eq k key || includes ks key

pub includes_iff : (ks : List Text) (key : Text) → (includes ks key ≡ true) ↔ OneOf key ks
unfolding includes
includes_iff [] key = ((λ h. cc), (λ h. elim h [ ]))
includes_iff (k ∷ ks) key = ground (arith, text_eq_iff k key, includes_iff ks key)

pub includes-false : (ks : List Text) (key : Text) → includes ks key ≡ false → All (λ k. k ≢ key) ks
unfolding includes
includes-false [] key h = tt
includes-false (k ∷ ks) key h =
    ((λ e. ground (arith, text_eq_iff k key)), includes-false ks key (ground arith))

-- `toLowerCase()` on one code unit, over the ASCII letters.
abbrev pub lower_unit : ℕ → ℕ
lower_unit c = if leb b'A' c && leb c b'Z' then c + 32 else c

unfoldable pub to_lower : Text → Text
to_lower = map lower_unit

-- `a.toLowerCase() === b.toLowerCase()`
unfoldable pub same_folded : Text → Text → Bool
same_folded a b = text_eq (to_lower a) (to_lower b)

-- `/^p$/` for a class of units: every unit is in it.
abbrev pub all_units : (ℕ → Bool) → Text → Bool
all_units p [] = true
all_units p (c ∷ s) = p c && all_units p s

abbrev pub is_hex_unit : ℕ → Bool
is_hex_unit c =
    (leb b'0' c && leb c b'9') || (leb b'a' c && leb c b'f') || (leb b'A' c && leb c b'F')

abbrev pub hex_tail : ℕ → Text → Bool
hex_tail n (z ∷ x ∷ s) = (z == b'0') && (x == b'x') && (length s == n) && all_units is_hex_unit s
hex_tail n _ = false

-- /^0x[a-fA-F0-9]{n}$/
unfoldable pub is_hex : ℕ → Text → Bool
is_hex n s = hex_tail n s

-- The units that `trim` removes: white space and line ends.
abbrev pub is_space : ℕ → Bool
is_space c =
    (leb 9 c && leb c 13)
    || c == 0x20
    || c == 0xa0
    || c == 0x1680
    || (leb 0x2000 c && leb c 0x200a)
    || c == 0x2028
    || c == 0x2029
    || c == 0x202f
    || c == 0x205f
    || c == 0x3000
    || c == 0xfeff

-- `value.trim().length === 0`
unfoldable pub is_blank : Text → Bool
is_blank s = all_units is_space s

pub same_folded_iff : (a b : Text) → (same_folded a b ≡ true) ↔ (to_lower a ≡ to_lower b)
unfolding same_folded
same_folded_iff a b = text_eq_iff (to_lower a) (to_lower b)
