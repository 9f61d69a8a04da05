-- ===== src/Float/Format.antt =====
-- strconv.FormatFloat(x, 'f', prec, 64), and strconv.ParseFloat of what it prints.
use Prim.Native.String
use hwcontrol.Base.{ℕ, zero, suc, ◌*◌, ◌/◌, ◌%◌, ◌^◌, String, ◌≡◌, refl, Bool, true, false}
use hwcontrol.Float.{Float64, nan, inf, finite, one, lit}
use hwcontrol.Float.Round.{near, round_ratio}
use hwcontrol.Float.Arith.{round, div}
use hwcontrol.Text.Decimal.{decimal}

-- The printed magnitude, in units of 10^-prec: rounded exactly, ties to even.
unfoldable pub fixed_units : ℕ → ℕ → ℕ
fixed_units prec m = near (m * 10 ^ prec) one

-- The last `width` digits of `n`, with leading zeros.
unfoldable pub padded : ℕ → ℕ → String
unfolding decimal
padded zero n = ""
padded (suc width) n = String.◌++◌ (padded width (n / 10)) (decimal (n % 10))

sign_text : Bool → String
sign_text true = "-"
sign_text false = ""

unfoldable pub format_fixed : ℕ → Float64 → String
unfolding fixed_units padded sign_text near
format_fixed prec nan = "NaN"
format_fixed prec (inf true) = "-Inf"
format_fixed prec (inf false) = "+Inf"
format_fixed prec (finite s m) =
    let u = fixed_units prec m in
    String.◌++◌ (sign_text s)
      (String.◌++◌ (decimal (u / 10 ^ prec)) (String.◌++◌ "." (padded prec u)))

-- ParseFloat (FormatFloat x): the float64 nearest to the printed decimal.
unfoldable pub reparse_fixed : ℕ → Float64 → Float64
reparse_fixed prec nan = nan
reparse_fixed prec (inf s) = inf s
reparse_fixed prec (finite s m) = round s (fixed_units prec m * one) (10 ^ prec)

format_test : format_fixed 6 (div (lit 1) (lit 8)) ≡ "0.125000"
unfolding format_fixed div round round_ratio one
format_test = refl
