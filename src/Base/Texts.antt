-- ===== src/Base/Texts.antt =====
-- The order of texts, as Go compares strings: character by character, by code.
use Prim.Native.Nat.{ℕ, Ordering, compare as compare_ℕ}
use Prim.Native.Char.{code}
use Prim.Native.String.compare
use Prim.Native.String.{String, compare, then}
use mathlib.Core.Path.{◌≡◌, refl, sym, ap, ◌∙◌}
use mathlib.Core.Bool.{Bool, true, false, false≢true}
use native.Mathlib.Omega.{arith}
use text.Mathlib.TextPositions.{compare_refl}
use text.Mathlib.TextEquality.{path_by_compare}

abbrev pub at_most : Ordering → Bool
at_most Ordering.gt = false
at_most o = true

-- not s > t
abbrev pub text_le : String → String → Bool
text_le s t = at_most (compare s t)

abbrev swapped : Ordering → Ordering
swapped Ordering.lt = Ordering.gt
swapped Ordering.eq = Ordering.eq
swapped Ordering.gt = Ordering.lt

then-swapped :
    (a b : ℕ) (o : Ordering) → then (compare_ℕ b a) (swapped o) ≡ swapped (then (compare_ℕ a b) o)
then-swapped a b o = ground arith

pub compare-swapped : (s t : String) → compare t s ≡ swapped (compare s t)
compare-swapped String.[] String.[] = refl
compare-swapped String.[] (String.◌∷◌ d t) =
    compare.cons-nil d t ∙ sym (ap swapped (compare.nil-cons d t))
compare-swapped (String.◌∷◌ c s) String.[] =
    compare.nil-cons c s ∙ sym (ap swapped (compare.cons-nil c s))
compare-swapped (String.◌∷◌ c s) (String.◌∷◌ d t) =
    rw (compare.cons-cons c d s t, compare.cons-cons d c t s, compare-swapped s t)
      (then-swapped (code c) (code d) (compare s t))

at_most_both : (o : Ordering) → at_most o ≡ true → at_most (swapped o) ≡ true → o ≡ Ordering.eq
at_most_both Ordering.lt h k = ground arith
at_most_both Ordering.eq h k = refl
at_most_both Ordering.gt h k = ground arith

pub text_le_antisymm : (s t : String) → text_le s t ≡ true → text_le t s ≡ true → s ≡ t
text_le_antisymm s t h k =
    path_by_compare s t (at_most_both (compare s t) h (sym (ap at_most (compare-swapped s t)) ∙ k))

pub text_le_refl : (s : String) → text_le s s ≡ true
text_le_refl s = ap at_most (compare_refl s)

at_most_either : (o : Ordering) → at_most o ≡ false → at_most (swapped o) ≡ true
at_most_either Ordering.gt h = refl
at_most_either Ordering.lt h = ground arith
at_most_either Ordering.eq h = ground arith

pub text_le_total : (s t : String) → text_le s t ≡ false → text_le t s ≡ true
text_le_total s t h = ap at_most (compare-swapped s t) ∙ at_most_either (compare s t) h

then_trans :
    (a b c : ℕ) (o p q : Ordering)
    → (at_most o ≡ true → at_most p ≡ true → at_most q ≡ true)
    → at_most (then (compare_ℕ a b) o) ≡ true
    → at_most (then (compare_ℕ b c) p) ≡ true
    → at_most (then (compare_ℕ a c) q) ≡ true
then_trans a b c o p q f h k = ground arith

pub text_le_trans : (s t u : String) → text_le s t ≡ true → text_le t u ≡ true → text_le s u ≡ true
text_le_trans String.[] String.[] u h k = k
text_le_trans String.[] (String.◌∷◌ d t) String.[] h k = refl
text_le_trans String.[] (String.◌∷◌ d t) (String.◌∷◌ e u) h k = ap at_most (compare.nil-cons e u)
text_le_trans (String.◌∷◌ c s) String.[] u h k =
    absurd (false≢true (sym (ap at_most (compare.cons-nil c s)) ∙ h))
text_le_trans (String.◌∷◌ c s) (String.◌∷◌ d t) String.[] h k =
    absurd (false≢true (sym (ap at_most (compare.cons-nil d t)) ∙ k))
text_le_trans (String.◌∷◌ c s) (String.◌∷◌ d t) (String.◌∷◌ e u) h k =
    ap at_most (compare.cons-cons c e s u)
    ∙ then_trans (code c) (code d) (code e) (compare s t) (compare t u) (compare s u)
        (text_le_trans s t u) (sym (ap at_most (compare.cons-cons c d s t)) ∙ h)
        (sym (ap at_most (compare.cons-cons d e t u)) ∙ k)
