-- ===== src/Base/Distinct.antt =====
-- Lists of distinct texts, and tests on all elements of a list.
use mathlib.Core.Path.{◌≡◌, refl, sym, ap, ap₂, ◌∙◌}
use mathlib.Core.Bool.{Bool, true, false, not, ◌&&◌, ◌||◌, Bool-set, false≢true}
use native.Mathlib.Omega.{arith}
use mathlib.Core.List.{
  List, [], ◌∷◌, map, Mem, Perm, not-mem-nil, mem-cons_self, mem-cons_of_mem, eq-or-mem_of_mem-cons,
}
use mathlib.Core.List.Perm
use mathlib.Core.Logic.{inl, inr}
use mathlib.Core.Logic.Or
use Prim.Native.String.{String}
use text.Mathlib.Text.{◌==◌ as str_eq}
use text.Mathlib.TextEquality.{eq_iff}
use hwcontrol.Base.Tests.{both, Bool-cases}
use hwcontrol.Base.Lists.{all, any}
use hwcontrol.Base.Sorting.{IsKeyed}

pub all_of_mem :
    {A : Type 0} (f : A → Bool) (x : A) (l : List A) → Mem x l → all f l ≡ true → f x ≡ true
all_of_mem f x [] m h = absurd (not-mem-nil m)
all_of_mem f x (y ∷ l) m h =
    Or.elim (Bool-set _ _) (eq-or-mem_of_mem-cons m) (λ e. ap f e ∙ (both (f y) (all f l) h).0)
      (λ m'. all_of_mem f x l m' (both (f y) (all f l) h).1)

pub all_mem :
    {A : Type 0} (f : A → Bool) (l : List A) → ((x : A) → Mem x l → f x ≡ true) → all f l ≡ true
all_mem f [] h = refl
all_mem f (x ∷ l) h = rw (h x mem-cons_self) (all_mem f l (λ y m. h y (mem-cons_of_mem x m)))

pub all_eq : {A : Type 0} (f : A → Bool) (l r : List A) → Perm l r → all f l ≡ all f r
all_eq f l r p = elim (Bool-cases (all f l)) [
  | inl h ↦ h ∙ sym (all_mem f r λ x m. all_of_mem f x l ((Perm.mem_iff p).1 m) h)
  | inr h ↦ elim (Bool-cases (all f r)) [
    | inl k ↦
        absurd (false≢true (sym h ∙ all_mem f l λ x m. all_of_mem f x r ((Perm.mem_iff p).0 m) k))
    | inr k ↦ h ∙ sym k
  ]
]

-- The texts are all different.
abbrev pub distinct : List String → Bool
distinct [] = true
distinct (k ∷ ks) = all (λ k'. not (str_eq k k')) ks && distinct ks

all_of_mem-map :
    {A : Type 0} (f : String → Bool) (key : A → String) (x : A) (l : List A)
    → Mem x l
    → all f (map key l) ≡ true
    → f (key x) ≡ true
all_of_mem-map f key x [] m h = absurd (not-mem-nil m)
all_of_mem-map f key x (y ∷ l) m h =
    let parts = both (f (key y)) (all f (map key l)) h in
    Or.elim (Bool-set _ _) (eq-or-mem_of_mem-cons m) (λ e. ap (λ z. f (key z)) e ∙ parts.0)
      (λ m'. all_of_mem-map f key x l m' parts.1)

-- Elements of one key are equal where the keys are distinct.
module _ {A : Type 0} (key : A → String) (eqb : A → A → Bool)
    (eqb-path : (a b : A) → eqb a b ≡ true → a ≡ b) (eqb_refl : (a : A) → eqb a a ≡ true) where
  differ :
      (x b : A) (l : List A)
      → all (λ k'. not (str_eq (key x) k')) (map key l) ≡ true
      → Mem b l
      → not (str_eq (key x) (key b)) ≡ true
  differ x b l h m = all_of_mem-map (λ k'. not (str_eq (key x) k')) key b l m h

  clash : (k k' : String) → not (str_eq k k') ≡ true → k ≡ k' → ⊥
  clash k k' h e = false≢true (sym (ap not ((eq_iff k k').1 e)) ∙ h)

  eqb_of_distinct :
      (l : List A)
      → distinct (map key l) ≡ true
      → (a b : A) → Mem a l
      → Mem b l
      → key a ≡ key b
      → eqb a b ≡ true
  eqb_of_distinct [] d a b ma mb e = absurd (not-mem-nil ma)
  eqb_of_distinct (x ∷ l) d a b ma mb e =
      let parts = both (all (λ k'. not (str_eq (key x) k')) (map key l)) (distinct (map key l)) d in
      Or.elim (Bool-set _ _) (eq-or-mem_of_mem-cons ma)
        (λ ea.
          Or.elim (Bool-set _ _) (eq-or-mem_of_mem-cons mb) (λ eb. ap₂ eqb ea eb ∙ eqb_refl x)
            (λ mb'.
              absurd (clash (key x) (key b) (differ x b l parts.0 mb') (sym (ap key ea) ∙ e))))
        (λ ma'.
          Or.elim (Bool-set _ _) (eq-or-mem_of_mem-cons mb)
            (λ eb.
              absurd (clash (key x) (key a) (differ x a l parts.0 ma') (sym (ap key eb) ∙ sym e)))
            (λ mb'. eqb_of_distinct l parts.1 a b ma' mb' e))

  pub IsKeyed-of_distinct : (l : List A) → distinct (map key l) ≡ true → IsKeyed key l
  IsKeyed-of_distinct l d a b ma mb e = eqb-path a b (eqb_of_distinct l d a b ma mb e)

-- None of the texts has been seen.
abbrev pub fresh : List String → List String → Bool
fresh seen ps = all (λ p. not (any (str_eq p) seen)) ps

pub fresh_first :
    (q : String) (seen ps : List String)
    → fresh (q ∷ seen) ps ≡ true
    → (fresh seen ps ≡ true) × (all (λ p. not (str_eq q p)) ps ≡ true)
fresh_first q seen [] h = (refl, refl)
fresh_first q seen (p ∷ ps) h = ground (arith, fresh_first q seen ps, eq_iff q p, eq_iff p q)

pub join_distinct :
    (p : String) (seen ps : List String)
    → any (str_eq p) seen ≡ false
    → (fresh (p ∷ seen) ps ≡ true) × (distinct ps ≡ true)
    → (fresh seen (p ∷ ps) ≡ true) × (distinct (p ∷ ps) ≡ true)
join_distinct p seen ps n h =
    let k = fresh_first p seen ps h.0 in (rw (n, k.0) refl, rw (k.1, h.1) refl)

pub second_passes : (w s : Bool) → (not w || s) ≡ false → s ≡ false
second_passes w s h = ground arith
