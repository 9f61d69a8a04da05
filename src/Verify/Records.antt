-- ===== src/Verify/Records.antt =====
-- When two inventories count as equal: verifyRecordsEqual of
-- bridge_service/src/verify_integrity.go.
use mathlib.Core.Path.{subst}
use mathlib.Core.List.{Perm}
use mathlib.Core.List.Perm
use hwcontrol.Base.{
  true, ◌&&◌, List, [], ◌∷◌, ◌≡◌, refl, sym, ◌↔◌, length, arith, ◌==◌, ==_iff, str_eq, eq_iff, both,
}
use hwcontrol.Base.Sorting.{SliceSort, IsKeyed, IsKeyed-perm, Ascending-unique}
use hwcontrol.Int.{ℤ, pos, negsuc, eqb_ℤ, eqb_ℤ-path}
use hwcontrol.Verify.{VerifyFileRecord, path_of, record_eq, same_records, verify_records_equal}

pub eqb_ℤ_refl : (a : ℤ) → eqb_ℤ a a ≡ true
eqb_ℤ_refl (pos n) = ground arith
eqb_ℤ_refl (negsuc n) = ground arith

pub record_eq-path : (r s : VerifyFileRecord) → record_eq r s ≡ true → r ≡ s
record_eq-path r s h = λ i. record {
  path = (eq_iff r.path s.path).0 first_two.0 i;
  size = eqb_ℤ-path r.size s.size first_two.1 i;
  sha256 = (eq_iff r.sha256 s.sha256).0 parts.1 i;
}
  where
    parts :
        ((str_eq r.path s.path && eqb_ℤ r.size s.size) ≡ true) × (str_eq r.sha256 s.sha256 ≡ true)
    parts = both (str_eq r.path s.path && eqb_ℤ r.size s.size) (str_eq r.sha256 s.sha256) h

    first_two : (str_eq r.path s.path ≡ true) × (eqb_ℤ r.size s.size ≡ true)
    first_two = both (str_eq r.path s.path) (eqb_ℤ r.size s.size) parts.0

pub record_eq_refl : (r : VerifyFileRecord) → record_eq r r ≡ true
record_eq_refl r =
    rw ((eq_iff r.path r.path).1 refl, eqb_ℤ_refl r.size) ((eq_iff r.sha256 r.sha256).1 refl)

same_records-path :
    (rs ss : List VerifyFileRecord) → length rs ≡ length ss → same_records rs ss ≡ true → rs ≡ ss
unfolding same_records
same_records-path [] [] h k = refl
same_records-path [] (s ∷ ss) h k = absurd (omega arith)
same_records-path (r ∷ rs) [] h k = absurd (omega arith)
same_records-path (r ∷ rs) (s ∷ ss) h k =
    let heads_tails = both (record_eq r s) (same_records rs ss) k in
    λ i. record_eq-path r s heads_tails.0 i ∷ same_records-path rs ss (omega arith) heads_tails.1 i

same_records_refl : (rs : List VerifyFileRecord) → same_records rs rs ≡ true
unfolding same_records
same_records_refl [] = refl
same_records_refl (r ∷ rs) = rw (record_eq_refl r) (same_records_refl rs)

module _ (sorter : SliceSort path_of) where
  equal_of_sorted :
      (expected actual : List VerifyFileRecord)
      → sorter.sort expected ≡ sorter.sort actual
      → verify_records_equal sorter expected actual ≡ true
  unfolding verify_records_equal
  equal_of_sorted expected actual h =
      rw (h, (==_iff (length (sorter.sort actual)) (length (sorter.sort actual))).1 refl)
        (same_records_refl (sorter.sort actual))

  pub sorted_of_equal :
      (expected actual : List VerifyFileRecord)
      → verify_records_equal sorter expected actual ≡ true
      → sorter.sort expected ≡ sorter.sort actual
  unfolding verify_records_equal
  sorted_of_equal expected actual h =
      let parts = both (length (sorter.sort expected) == length (sorter.sort actual)) _ h in
      same_records-path (sorter.sort expected) (sorter.sort actual) ((==_iff _ _).0 parts.0) parts.1

  pub rearranged_of_equal :
      (expected actual : List VerifyFileRecord)
      → verify_records_equal sorter expected actual ≡ true
      → Perm expected actual
  rearranged_of_equal expected actual h = Perm.trans (Perm.symm (sorter.sort-perm expected)) (
      subst (λ l. Perm l actual) (sym (sorted_of_equal expected actual h))
        (sorter.sort-perm actual))

  -- Two inventories count as equal exactly if one is a rearrangement of the other, where the paths
  -- of the first are distinct.
  pub equal_iff_rearranged :
      (expected actual : List VerifyFileRecord)
      → IsKeyed path_of expected
      → (verify_records_equal sorter expected actual ≡ true) ↔ Perm expected actual
  equal_iff_rearranged expected actual keyed = (
    rearranged_of_equal expected actual,
    λ p. equal_of_sorted expected actual (
        Ascending-unique path_of (IsKeyed-perm path_of (sorter.sort-perm expected) keyed)
          (sorter.sort-Ascending expected) (sorter.sort-Ascending actual)
          (Perm.trans (sorter.sort-perm expected)
            (Perm.trans p (Perm.symm (sorter.sort-perm actual))))),
  )
