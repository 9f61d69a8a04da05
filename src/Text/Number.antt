-- ===== src/Text/Number.antt =====
-- Reading decimal numerals: strconv.ParseUint and strconv.Atoi, in base 10 with 64 bits.
use Prim.Native.Char.{code}
use hwcontrol.Base.{
  ℕ, ◌+◌, ◌-◌, ◌*◌, ◌^◌, String, ◌≡◌, refl, ◌&&◌, ◌==◌, Option, none, some, ltb, leb, if◌then◌else◌,
  str_eq,
}
use hwcontrol.Int.{ℤ, pos, negsuc}

-- strconv.ParseUint in base 10 with 64 bits: digits only, at least one, and in range.
read_digits : ℕ → String → Option ℕ
read_digits n String.[] = some n
read_digits n (String.◌∷◌ c s) =
    let rest = read_digits (n * 10 + (code c - 48)) s in
    if leb 48 (code c) && leb (code c) 57 then rest else none

abbrev in_range : Option ℕ → Option ℕ
in_range none = none
in_range (some n) = if ltb n (2 ^ 64) then some n else none

unfoldable pub parse_uint : String → Option ℕ
unfolding read_digits
parse_uint s = if str_eq s "" then none else in_range (read_digits 0 s)

-- A sign and digits; the largest value is 2^63 - 1 and the smallest is -2^63.
abbrev negated : Option ℕ → Option ℤ
negated none = none
negated (some n) =
    if n == 0 then some (pos 0) else if leb n (2 ^ 63) then some (negsuc (n - 1)) else none

abbrev unsigned : Option ℕ → Option ℤ
unsigned none = none
unsigned (some n) = if ltb n (2 ^ 63) then some (pos n) else none

abbrev digits_only : String → Option ℕ
digits_only s = if str_eq s "" then none else read_digits 0 s

unfoldable pub atoi : String → Option ℤ
unfolding read_digits
atoi String.[] = none
atoi (String.◌∷◌ c s) =
    if code c == b'-'
    then negated (digits_only s)
    else if code c == b'+'
    then unsigned (digits_only s)
    else unsigned (digits_only (String.◌∷◌ c s))

atoi_tests :
    (atoi "-17" ≡ some (negsuc 16))
    × (atoi "+4" ≡ some (pos 4))
    × (atoi "1 " ≡ none)
    × (atoi "-" ≡ none)
    × (atoi "9223372036854775808" ≡ none)
unfolding atoi
atoi_tests = (refl, refl, refl, refl, refl)
