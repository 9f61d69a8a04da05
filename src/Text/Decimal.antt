-- ===== src/Text/Decimal.antt =====
-- Decimal numerals, as strconv.Itoa, strconv.FormatInt and fmt's %d print them.
pub mod Laws
pub mod Words
use Prim.Native.Char.{Char, code}
use Prim.Native.String
use hwcontrol.Base.{
  ℕ, zero, suc, ◌+◌, ◌-◌, ◌*◌, ◌/◌, ◌%◌, ◌<◌, String, ◌≡◌, Bool, true, false, ◌&&◌, arith, leb,
  ◌==◌, if◌then◌else◌,
}
use hwcontrol.Int.{ℤ, pos, negsuc}

unfoldable pub digit : ℕ → Char
digit n =
    if n == 0
    then "0"
    else if n == 1
    then "1"
    else if n == 2
    then "2"
    else if n == 3
    then "3"
    else if n == 4
    then "4"
    else if n == 5
    then "5"
    else if n == 6
    then "6"
    else if n == 7
    then "7"
    else if n == 8
    then "8"
    else "9"

-- `fuel` bounds the digits; `decimal` gives more than enough.
unfoldable pub digits : ℕ → ℕ → String → String
unfolding digit
digits zero n acc = acc
digits (suc fuel) n acc =
    let acc' = String.◌∷◌ (digit (n % 10)) acc in
    let rest = digits fuel (n / 10) acc' in if n / 10 == 0 then acc' else rest

unfoldable pub decimal : ℕ → String
unfolding digits
decimal n = digits (n + 1) n ""

-- strconv.FormatInt
unfoldable pub format_int : ℤ → String
unfolding decimal
format_int (pos n) = decimal n
format_int (negsuc n) = String.◌++◌ "-" (decimal (n + 1))
