-- ===== src/Text.antt =====
-- The string functions of Go's standard library that the program uses: strings.TrimSpace,
-- hex.DecodeString, strconv.Itoa, strconv.Atoi and the byte length of a string.
pub mod Decimal
pub mod Number
pub mod Base64
pub mod Hex
pub mod Path
pub mod Clean
pub mod Json
use Prim.Native.String
use hwcontrol.Base.{
  ℕ, ◌+◌, ◌≤◌, String, ◌≡◌, refl, Bool, true, false, ◌&&◌, ◌||◌, arith, leb, ◌==◌, if◌then◌else◌,
  str_eq, eq_iff, Bool-cases, inl, inr,
}
use Prim.Native.Char.{code}

-- unicode.IsSpace
unfoldable pub is_space : ℕ → Bool
is_space c =
    (leb 9 c && leb c 13)
    || c == 32
    || c == 0x85
    || c == 0xA0
    || c == 0x1680
    || (leb 0x2000 c && leb c 0x200A)
    || c == 0x2028
    || c == 0x2029
    || c == 0x202F
    || c == 0x205F
    || c == 0x3000

unfoldable pub trim_left : String → String
unfolding is_space
trim_left String.[] = String.[]
trim_left (String.◌∷◌ c s) =
    let rest = trim_left s in if is_space (code c) then rest else String.◌∷◌ c s

unfoldable pub trim_right : String → String
unfolding is_space
trim_right String.[] = String.[]
trim_right (String.◌∷◌ c s) =
    let rest = trim_right s in
    if is_space (code c) && str_eq rest "" then String.[] else String.◌∷◌ c rest

-- strings.TrimSpace
unfoldable pub trim_space : String → String
unfolding trim_left trim_right
trim_space s = trim_right (trim_left s)

trim_test : trim_space " \u{a0}a b\t " ≡ "a b"
unfolding trim_space
trim_test = refl
