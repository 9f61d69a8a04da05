-- ===== src/Text/Decimal/Laws.antt =====
-- Decimal numerals read back.
use Prim.Native.Char.{code, len_utf8}
use Prim.Native.String
use Prim.Native.String.len
use Prim.Native.String.append
use text.Mathlib.TextLemmas.{head-eq_of_cons-eq, tail-eq_of_cons-eq}
use text.Mathlib.TextPositions.{len_utf8-pos}
use mathlib.Core.Path.{ap₂}
use hwcontrol.Base.{
  ℕ, zero, suc, ◌+◌, ◌-◌, ◌*◌, ◌/◌, ◌%◌, ◌<◌, String, ◌≡◌, refl, ap, sym, ◌∙◌, ◌&&◌, arith, leb,
  ◌==◌, if◌then◌else◌, Bool-cases, inl, inr, le→leb, ==_iff,
}
use hwcontrol.Text.Decimal.{digit, digits, decimal}

-- The number that the leading digits of a text stand for, and the rest of the text.
unfoldable pub value : ℕ → String → ℕ × String
value acc String.[] = (acc, String.[])
value acc (String.◌∷◌ c s) =
    let rest = value (acc * 10 + (code c - 48)) s in
    if leb 48 (code c) && leb (code c) 57 then rest else (acc, String.◌∷◌ c s)

pub code-digit : (n : ℕ) → n < 10 → code (digit n) ≡ 48 + n
unfolding digit
code-digit zero h = refl
code-digit (suc zero) h = refl
code-digit (suc (suc zero)) h = refl
code-digit (suc (suc (suc zero))) h = refl
code-digit (suc (suc (suc (suc zero)))) h = refl
code-digit (suc (suc (suc (suc (suc zero))))) h = refl
code-digit (suc (suc (suc (suc (suc (suc zero)))))) h = refl
code-digit (suc (suc (suc (suc (suc (suc (suc zero))))))) h = refl
code-digit (suc (suc (suc (suc (suc (suc (suc (suc zero)))))))) h = refl
code-digit (suc (suc (suc (suc (suc (suc (suc (suc (suc zero))))))))) h = refl
code-digit (suc (suc (suc (suc (suc (suc (suc (suc (suc (suc n)))))))))) h = absurd (omega arith)

value-cons :
    (acc n : ℕ) (s : String) → n < 10 → value acc (String.◌∷◌ (digit n) s) ≡ value (acc * 10 + n) s
unfolding value
value-cons acc n s h = rw (code-digit n h) (
    rw (le→leb 48 (48 + n) (omega arith), le→leb (48 + n) 57 (omega arith))
      (ap (λ k. value (acc * 10 + k) s) (omega arith)))

pub value-digits : (fuel n : ℕ) (s : String) → n < fuel → value 0 (digits fuel n s) ≡ value n s
unfolding digits
value-digits zero n s h = absurd (omega arith)
value-digits (suc fuel) n s h = elim (Bool-cases (n / 10 == 0)) [
  | inl last ↦ rw last (
      value-cons 0 (n % 10) s (omega arith)
      ∙ ap (λ k. value k s) (omega (arith, (==_iff (n / 10) 0).0 last)))
  | inr more ↦ rw more (
      value-digits fuel (n / 10) (String.◌∷◌ (digit (n % 10)) s) (ground arith)
      ∙ value-cons (n / 10) (n % 10) s (omega arith)
      ∙ ap (λ k. value k s) (omega arith))
]

digits-append :
    (fuel n : ℕ) (s t : String) → String.◌++◌ (digits fuel n s) t ≡ digits fuel n (String.◌++◌ s t)
unfolding digits
digits-append zero n s t = refl
digits-append (suc fuel) n s t = elim (Bool-cases (n / 10 == 0)) [
  | inl last ↦ rw last (append.cons (digit (n % 10)) s t)
  | inr more ↦ rw more (
      digits-append fuel (n / 10) (String.◌∷◌ (digit (n % 10)) s) t
      ∙ ap (digits fuel (n / 10)) (append.cons (digit (n % 10)) s t))
]

colon-append : (s : String) → String.◌++◌ ":" s ≡ String.◌∷◌ ":" s
colon-append s = append.cons ":" "" s ∙ ap (String.◌∷◌ ":") (append.nil s)

value-colon : (n : ℕ) (s : String) → value n (String.◌++◌ ":" s) ≡ (n, String.◌++◌ ":" s)
unfolding value
value-colon n s = ap (value n) (colon-append s) ∙ ap (λ (t : String). (n, t)) (sym (colon-append s))

-- The text goes on with something that is no digit.
value-decimal :
    (n : ℕ) (s : String)
    → value 0 (String.◌++◌ (decimal n) (String.◌++◌ ":" s)) ≡ (n, String.◌++◌ ":" s)
unfolding decimal
value-decimal n s =
    ap (value 0) (digits-append (n + 1) n "" (String.◌++◌ ":" s))
    ∙ value-digits (n + 1) n (String.◌++◌ "" (String.◌++◌ ":" s)) (omega arith)
    ∙ ap (value n) (append.nil (String.◌++◌ ":" s))
    ∙ value-colon n s

-- A numeral, a colon and a text determine the number and the text.
pub decimal_then_text :
    (n m : ℕ) (s t : String)
    → String.◌++◌ (decimal n) (String.◌++◌ ":" s) ≡ String.◌++◌ (decimal m) (String.◌++◌ ":" t)
    → (n ≡ m) × (s ≡ t)
decimal_then_text n m s t h =
    let e : (n, String.◌++◌ ":" s) ≡ (m, String.◌++◌ ":" t) =
      sym (value-decimal n s) ∙ ap (value 0) h ∙ value-decimal m t in
    (
      ap (λ (p : ℕ × String). p.0) e,
      tail-eq_of_cons-eq (sym (colon-append s) ∙ ap (λ (p : ℕ × String). p.1) e ∙ colon-append t),
    )

-- Two equal texts, cut after the same number of bytes, have equal parts.
pub cut_by_length :
    (a b r t : String)
    → String.len a ≡ String.len b
    → String.◌++◌ a r ≡ String.◌++◌ b t
    → (a ≡ b) × (r ≡ t)
cut_by_length String.[] String.[] r t l h = (refl, sym (append.nil r) ∙ h ∙ append.nil t)
cut_by_length String.[] (String.◌∷◌ d b) r t l h =
    absurd (omega (arith, len.nil, len.cons d b, l, (len_utf8-pos d).1))
cut_by_length (String.◌∷◌ c a) String.[] r t l h =
    absurd (omega (arith, len.nil, len.cons c a, l, (len_utf8-pos c).1))
cut_by_length (String.◌∷◌ c a) (String.◌∷◌ d b) r t l h =
    let h' : String.◌∷◌ c (String.◌++◌ a r) ≡ String.◌∷◌ d (String.◌++◌ b t) =
      sym (append.cons c a r) ∙ h ∙ append.cons d b t in
    let e : c ≡ d = head-eq_of_cons-eq h' in
    let ls : String.len a ≡ String.len b =
      omega (arith, len.cons c a, len.cons d b, l, ap len_utf8 e) in
    let rest = cut_by_length a b r t ls (tail-eq_of_cons-eq h') in (ap₂ String.◌∷◌ e rest.0, rest.1)
