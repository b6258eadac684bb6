-- ===== src/Prelude/Text.antt =====
-- `strings.TrimSpace` of Go's standard library, on the code points of a text.
use Prim.Native.Char.{Char, code}
use ofm_registration_saga_se.Prelude.Outcome.{ltb, if◌then◌else◌}
use Prim.Native.Nat.{ℕ, compare, Ordering}
use Prim.Native.String.{String}
use mathlib.Core.Path.{◌≡◌, refl}
use mathlib.Core.Bool.{Bool, true, false, not, ◌&&◌, ◌||◌}
use text.Mathlib.Text.{◌==◌}

abbrev pub is_code : ℕ → ℕ → Bool
is_code a b = elim (compare a b) [ Ordering.eq ↦ true | _ ↦ false ]

abbrev pub in_range : ℕ → ℕ → ℕ → Bool
in_range lo hi c = not (ltb c lo) && not (ltb hi c)

-- unicode.IsSpace
is_space : Char → Bool
is_space ch =
    let c = code ch in
    in_range 9 13 c
    || is_code c 32
    || is_code c 0x85
    || is_code c 0xa0
    || is_code c 0x1680
    || in_range 0x2000 0x200a c
    || in_range 0x2028 0x2029 c
    || is_code c 0x202f
    || is_code c 0x205f
    || is_code c 0x3000

trim_left : String → String
trim_left String.[] = String.[]
trim_left (String.◌∷◌ c s) = let rest = trim_left s in if is_space c then rest else String.◌∷◌ c s

trim_right : String → String
trim_right String.[] = String.[]
trim_right (String.◌∷◌ c s) =
    let rest = trim_right s in if is_space c && rest == "" then "" else String.◌∷◌ c rest

unfoldable pub trim_space : String → String
unfolding is_space trim_left trim_right
trim_space s = trim_right (trim_left s)

trim_space_test : trim_space "  a b\n" ≡ "a b"
unfolding trim_space
trim_space_test = refl
