-- ===== src/Text/Decimal/Words.antt =====
-- Words without a separator, joined by it and split again; a decimal numeral is such a word.
use Prim.Native.Char.{Char, code}
use Prim.Native.String
use Prim.Native.String.append
use hwcontrol.Base.{
  ℕ, zero, suc, ◌+◌, ◌/◌, ◌%◌, ◌<◌, String, ◌≡◌, refl, ap, sym, ◌∙◌, Bool, true, not, ◌&&◌, ◌==◌,
  [], ◌∷◌, arith, Bool-cases, inl, inr, ==_iff, both,
}
use hwcontrol.Text.Clean.{split}
use hwcontrol.Text.Decimal.{digit, digits, decimal}
use hwcontrol.Text.Decimal.Laws.{value, value-digits, code-digit}

-- No character of the text has this code.
abbrev pub lacks : ℕ → String → Bool
lacks d String.[] = true
lacks d (String.◌∷◌ c s) = not (code c == d) && lacks d s

lacks-digits :
    (fuel n d : ℕ) (s : String) → d < 48 → lacks d s ≡ true → lacks d (digits fuel n s) ≡ true
unfolding digits
lacks-digits zero n d s l h = h
lacks-digits (suc fuel) n d s l h =
    let e = code-digit (n % 10) (omega arith) in
    let first : lacks d (String.◌∷◌ (digit (n % 10)) s) ≡ true = rw (e, h) (ground arith) in
    elim (Bool-cases (n / 10 == 0)) [
      | inl last ↦ rw last first
      | inr more ↦ rw more (lacks-digits fuel (n / 10) d (String.◌∷◌ (digit (n % 10)) s) l first)
    ]

pub lacks-decimal : (n d : ℕ) → d < 48 → lacks d (decimal n) ≡ true
unfolding decimal
lacks-decimal n d l = lacks-digits (n + 1) n d "" l refl

value_of_decimal : (n : ℕ) → value 0 (decimal n) ≡ (n, "")
unfolding decimal value
value_of_decimal n = value-digits (n + 1) n "" (omega arith)

pub decimal_injective : (n m : ℕ) → decimal n ≡ decimal m → n ≡ m
decimal_injective n m h =
    ap (λ (p : ℕ × String). p.0) (sym (value_of_decimal n) ∙ ap (value 0) h ∙ value_of_decimal m)

pub split_word : (d : ℕ) (s : String) → lacks d s ≡ true → split d s ≡ s ∷ []
unfolding split
split_word d String.[] h = refl
split_word d (String.◌∷◌ c s) h =
    let (n, r) = both (not (code c == d)) (lacks d s) h in rw (split_word d s r) (ground arith)

pub split_append :
    (d : ℕ) (sep : Char) (s rest : String)
    → code sep ≡ d
    → lacks d s ≡ true
    → split d (String.◌++◌ s (String.◌∷◌ sep rest)) ≡ s ∷ split d rest
unfolding split
split_append d sep String.[] rest e h =
    rw (append.nil (String.◌∷◌ sep rest)) (rw ((==_iff (code sep) d).1 e) refl)
split_append d sep (String.◌∷◌ c s) rest e h =
    let (n, r) = both (not (code c == d)) (lacks d s) h in
    rw (append.cons c s (String.◌∷◌ sep rest), split_append d sep s rest e r) (ground arith)
