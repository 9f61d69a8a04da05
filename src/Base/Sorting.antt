-- ===== src/Base/Sorting.antt =====
-- Sorting by a text key, as sort.Slice promises it: an ascending rearrangement, where records with
-- one key come in any order.
use mathlib.Core.Path.{◌≡◌, ap, ap₂, ◌∙◌}
use mathlib.Core.Bool.{true, Bool-set}
use mathlib.Core.List.{
  List, [], ◌∷◌, Mem, mem-cons_self, mem-cons_of_mem, eq-or-mem_of_mem-cons, Perm, Pairwise,
  Pairwise-singleton,
}
use mathlib.Core.List.Pairwise
use mathlib.Core.List.Perm
use mathlib.Core.Logic.{inl, inr}
use mathlib.Core.Logic.Or
use Prim.Native.String.{String}
use hwcontrol.Base.Tests.{if◌then◌else◌, Bool-cases}
use hwcontrol.Base.Texts.{text_le, text_le_refl, text_le_antisymm, text_le_total, text_le_trans}

abbrev pub Ascending : {A : Type 0} → (A → String) → List A → Type 0
Ascending key = Pairwise λ a b. text_le (key a) (key b) ≡ true

-- The key tells the elements of the list apart.
abbrev pub IsKeyed : {A : Type 0} → (A → String) → List A → Type 0
IsKeyed key l = (a b : _) → Mem a l → Mem b l → key a ≡ key b → a ≡ b

pub record SliceSort {A : Type 0} (key : A → String) : Type 0 where
  pub sort : List A → List A
  pub sort-perm : (l : List A) → Perm (sort l) l
  pub sort-Ascending : (l : List A) → Ascending key (sort l)

module _ {A : Type 0} (key : A → String) where
  -- what `Pairwise.cons` asks of a new head
  abbrev IsLeast : A → List A → Type 0
  IsLeast a l = (x : A) → Mem x l → text_le (key a) (key x) ≡ true

  IsLeast-cons :
      (a : A) {b : A} {l : List A}
      → text_le (key a) (key b) ≡ true
      → IsLeast a l
      → IsLeast a (b ∷ l)
  IsLeast-cons a p h x m =
      Or.elim (Bool-set _ _) (eq-or-mem_of_mem-cons m)
        (λ e. ap (λ y. text_le (key a) (key y)) e ∙ p) (h x)

  IsLeast-head :
      (a : A) {b : A} {l : List A}
      → text_le (key a) (key b) ≡ true
      → Ascending key (b ∷ l)
      → IsLeast a (b ∷ l)
  IsLeast-head a {b} p (Pairwise.cons h _) =
      IsLeast-cons a p λ x m. text_le_trans (key a) (key b) (key x) p (h x m)

  IsLeast-perm : (a : A) {l r : List A} → Perm l r → IsLeast a r → IsLeast a l
  IsLeast-perm a p h x m = h x ((Perm.mem_iff p).0 m)

  least_first :
      {a b : A} {l r : List A}
      → Ascending key (a ∷ l)
      → Perm (b ∷ r) (a ∷ l)
      → text_le (key a) (key b) ≡ true
  least_first {a} {b} s p =
      IsLeast-perm a p (IsLeast-head a (text_le_refl (key a)) s) b mem-cons_self

  pub IsKeyed-perm : {l r : List A} → Perm l r → IsKeyed key r → IsKeyed key l
  IsKeyed-perm p k a b ma mb = k a b ((Perm.mem_iff p).0 ma) ((Perm.mem_iff p).0 mb)

  -- Two ascending rearrangements are one list, where the key tells the elements apart.
  pub Ascending-unique :
      {l r : List A} → IsKeyed key l → Ascending key l → Ascending key r → Perm l r → l ≡ r
  Ascending-unique {l = []} k _ _ p = Perm.nil-eq p
  Ascending-unique {l = a ∷ l} {r = []} k _ _ p = Perm.eq-nil p
  Ascending-unique {l = a ∷ l} {r = b ∷ r} k sl sr p =
      let keys =
        text_le_antisymm (key a) (key b) (least_first sl (Perm.symm p)) (least_first sr p) in
      let heads = k a b mem-cons_self ((Perm.mem_iff p).1 mem-cons_self) keys in
      let tails = Perm.cons_inv (Perm.trans p (Perm.symm (Perm.cons' heads Perm.rfl))) in
      ap₂ ◌∷◌ heads (
        Ascending-unique {l = l} (λ x y mx my. k x y (mem-cons_of_mem a mx) (mem-cons_of_mem a my))
          (Pairwise.of_cons sl) (Pairwise.of_cons sr) tails)

  -- Insertion sort keeps the promise.
  unfoldable insert_by_key : A → List A → List A
  insert_by_key x [] = x ∷ []
  insert_by_key x (y ∷ ys) =
      let rest = insert_by_key x ys in if text_le (key y) (key x) then y ∷ rest else x ∷ y ∷ ys

  unfoldable pub insertion_sort : List A → List A
  unfolding insert_by_key
  insertion_sort [] = []
  insertion_sort (x ∷ xs) = insert_by_key x (insertion_sort xs)

  insert_by_key-perm : (x : A) (l : List A) → Perm (insert_by_key x l) (x ∷ l)
  unfolding insert_by_key
  insert_by_key-perm x [] = Perm.rfl
  insert_by_key-perm x (y ∷ ys) = elim (Bool-cases (text_le (key y) (key x))) [
    | inl p ↦ rw p (Perm.trans (Perm.cons y (insert_by_key-perm x ys)) (Perm.swap x y ys))
    | inr p ↦ rw p Perm.rfl
  ]

  insert_by_key-Ascending :
      (x : A) {l : List A} → Ascending key l → Ascending key (insert_by_key x l)
  unfolding insert_by_key
  insert_by_key-Ascending x Pairwise.nil = Pairwise-singleton _ x
  insert_by_key-Ascending x (Pairwise.cons {a = y} {l = ys} below s) =
      elim (Bool-cases (text_le (key y) (key x))) [
        | inl p ↦ rw p (
            Pairwise.cons (IsLeast-perm y (insert_by_key-perm x ys) (IsLeast-cons y p below))
              (insert_by_key-Ascending x s))
        | inr p ↦
            let whole = Pairwise.cons below s in
            rw p (Pairwise.cons (IsLeast-head x (text_le_total (key y) (key x) p) whole) whole)
      ]

  pub insertion_sort-perm : (l : List A) → Perm (insertion_sort l) l
  unfolding insertion_sort
  insertion_sort-perm [] = Perm.rfl
  insertion_sort-perm (x ∷ xs) =
      Perm.trans (insert_by_key-perm x (insertion_sort xs)) (Perm.cons x (insertion_sort-perm xs))

  pub insertion_sort-Ascending : (l : List A) → Ascending key (insertion_sort l)
  unfolding insertion_sort
  insertion_sort-Ascending [] = Pairwise.nil
  insertion_sort-Ascending (x ∷ xs) = insert_by_key-Ascending x (insertion_sort-Ascending xs)
