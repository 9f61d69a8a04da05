-- ===== src/Verify/Arrival.antt =====
-- The order in which the hash workers finish: collectVerifyInventory of
-- bridge_service/src/verify_integrity.go.
use mathlib.Core.Path.{ap₂}
use mathlib.Core.Bool.{false≢true}
use mathlib.Core.List.{Perm}
use mathlib.Core.List.Perm
use hwcontrol.Base.{
  String, Bool, true, false, List, [], ◌∷◌, ◌≡◌, refl, sym, ap, ◌∙◌, Option, none, some, map,
  length, ◌==◌, if◌then◌else◌, all, both, Bool-cases, inl, inr,
}
use hwcontrol.Base.Result.{Result, ok, err, is_ok, Result-cases}
use hwcontrol.Base.Distinct.{distinct, IsKeyed-of_distinct, all_eq}
use hwcontrol.Base.Sorting.{SliceSort, IsKeyed, IsKeyed-perm, Ascending-unique}
use hwcontrol.Int.{pos}
use hwcontrol.Text.Clean.{rel}
use hwcontrol.Files.{FileView}
use hwcontrol.Verify.Records.{record_eq-path, record_eq_refl}
use hwcontrol.Verify.{
  verify_file_digest, record_eq, VerifyFileRecord, VerifyInventoryResult, Visit, path_of,
  walk_paths, gather, relative_record, conclude_inventory, collect_verify_inventory,
}

-- What a result is worth, its error message aside.
abbrev pub value_of {ℓ} : {A : Type ℓ} → Result A → Option A
value_of (err e) = none
value_of (ok a) = some a

abbrev is_some : Option String → Bool
is_some none = false
is_some (some e) = true

abbrev record_of : Result VerifyFileRecord → VerifyFileRecord
record_of (err e) = record { path = ""; size = pos 0; sha256 = "" }
record_of (ok r) = r

module _ (sorter : SliceSort path_of) (scan : String → Result VerifyFileRecord) where
  abbrev results : List String → List VerifyInventoryResult
  results = map λ path. record { path = path; outcome = scan path }

  abbrev all_good : List String → Bool
  all_good = all λ path. is_ok (scan path)

  -- an error stays the first error
  gather_keeps : (e : String) (paths : List String) → (gather (some e) (results paths)).0 ≡ some e
  unfolding gather
  gather_keeps e [] = refl
  gather_keeps e (p ∷ ps) = elim (Result-cases (scan p)) [
    | inl (d, h) ↦ rw h (gather_keeps e ps)
    | inr (r, h) ↦ rw h (gather_keeps e ps)
  ]

  gather_good :
      (paths : List String)
      → all_good paths ≡ true
      → gather none (results paths) ≡ (none, map (λ p. record_of (scan p)) paths)
  unfolding gather
  gather_good [] h = refl
  gather_good (p ∷ ps) h = elim (Result-cases (scan p)) [
    | inl (d, k) ↦
        absurd (false≢true (ap is_ok (sym k) ∙ (both (is_ok (scan p)) (all_good ps) h).0))
    | inr (r, k) ↦ rw (k, gather_good ps (both (is_ok (scan p)) (all_good ps) h).1) refl
  ]

  gather_bad :
      (paths : List String)
      → all_good paths ≡ false
      → is_some (gather none (results paths)).0 ≡ true
  unfolding gather
  gather_bad [] h = absurd (false≢true (sym h))
  gather_bad (p ∷ ps) h = elim (Result-cases (scan p)) [
    | inl (d, k) ↦ rw k (ap is_some (gather_keeps _ ps))
    | inr (r, k) ↦ rw k (gather_bad ps (rw k at h))
  ]

  failed :
      (g : Option String × List VerifyFileRecord)
      → is_some g.0 ≡ true
      → value_of (conclude_inventory sorter g) ≡ none
  failed (none, rs) k = absurd (false≢true k)
  failed (some d, rs) k = refl

  -- What the loop concludes, as one expression: nothing if a scan failed, else the records sorted.
  conclude_inventory-eq :
      (paths : List String)
      → value_of (conclude_inventory sorter (gather none (results paths))) ≡ (
          if all_good paths then some (sorter.sort (map (λ p. record_of (scan p)) paths)) else none)
  conclude_inventory-eq paths = elim (Bool-cases (all_good paths)) [
    | inl h ↦ rw (gather_good paths h, h) refl
    | inr h ↦ rw h (failed (gather none (results paths)) (gather_bad paths h))
  ]

  -- The order of the paths does not matter where the records' paths tell the records apart.
  pub conclude_inventory-perm :
      (l r : List String)
      → Perm l r
      → (all_good l ≡ true → IsKeyed path_of (map (λ p. record_of (scan p)) l))
      → value_of (conclude_inventory sorter (gather none (results l)))
        ≡ value_of (conclude_inventory sorter (gather none (results r)))
  conclude_inventory-perm l r p keyed = elim (Bool-cases (all_good l)) [
    | inl h ↦
        let same =
          Ascending-unique path_of (IsKeyed-perm path_of (sorter.sort-perm _) (keyed h))
            (sorter.sort-Ascending _) (sorter.sort-Ascending (map (λ p. record_of (scan p)) r))
            (Perm.trans (sorter.sort-perm _) (
              Perm.trans (Perm.map (λ p. record_of (scan p)) p)
                (Perm.symm (sorter.sort-perm _)))) in
        rw
          (
            conclude_inventory-eq l,
            conclude_inventory-eq r,
            h,
            sym (all_eq (λ p. is_ok (scan p)) l r p) ∙ h,
          )
          (ap some same)
    | inr h ↦
        rw
          (
            conclude_inventory-eq l,
            conclude_inventory-eq r,
            h,
            sym (all_eq (λ p. is_ok (scan p)) l r p) ∙ h,
          )
          refl
  ]

abbrev name_of : Result String → String
name_of (err e) = ""
name_of (ok name) = name

abbrev pub relative_name : String → String → String
relative_name root path = name_of (rel root path)

module _ (sha256 : String → String) (fs : String → FileView) (root : String) where
  abbrev scan_of : String → Result VerifyFileRecord
  scan_of = relative_record sha256 fs root

  path_of_scan :
      (p : String)
      → is_ok (scan_of p) ≡ true
      → path_of (record_of (scan_of p)) ≡ relative_name root p
  unfolding relative_record
  path_of_scan p h = elim (Result-cases (verify_file_digest sha256 fs p)) [
    | inl (e, k) ↦ absurd (false≢true (rw k at h))
    | inr (r, k) ↦ elim (Result-cases (rel root p)) [
      | inl (e, l) ↦ absurd (false≢true (rw (k, l) at h))
      | inr (t, l) ↦ rw (k, l) refl
    ]
  ]

  names_of_scans :
      (paths : List String)
      → all (λ p. is_ok (scan_of p)) paths ≡ true
      → map path_of (map (λ p. record_of (scan_of p)) paths) ≡ map (relative_name root) paths
  names_of_scans [] h = refl
  names_of_scans (p ∷ ps) h =
      let parts = both (is_ok (scan_of p)) (all (λ p. is_ok (scan_of p)) ps) h in
      ap₂ ◌∷◌ (path_of_scan p parts.0) (names_of_scans ps parts.1)

-- The inventory that the workers collect is the one of a serial scan, in whatever order their
-- results come: the same records in the same order, or an error where that is an error. The walk
-- is assumed to succeed and to give the visited files distinct paths relative to the root.
pub inventory_any_order :
    (sorter : SliceSort path_of) (sha256 : String → String) (excluded : String → Bool)
    (fs : String → FileView) (arrival : List String → List String) (root : String)
    (visits : List Visit) (paths : List String)
    → walk_paths excluded visits ≡ ok paths
    → distinct (map (relative_name root) paths) ≡ true
    → Perm (arrival paths) paths
    → value_of (collect_verify_inventory sorter sha256 excluded fs arrival root visits)
      ≡ value_of (collect_verify_inventory sorter sha256 excluded fs (λ ps. ps) root visits)
unfolding collect_verify_inventory
inventory_any_order sorter sha256 excluded fs arrival root visits paths w d p =
    elim (Bool-cases (length paths == 0)) [
      | inl h ↦ rw (collect_verify_inventory, w, h) refl
      | inr h ↦
          rw (collect_verify_inventory, w, h)
            (sym (
              conclude_inventory-perm sorter (scan_of sha256 fs root) paths (arrival paths)
                (Perm.symm p)
                λ good.
                  IsKeyed-of_distinct path_of record_eq record_eq-path record_eq_refl _
                    (ap distinct (names_of_scans sha256 fs root paths good) ∙ d)))
    ]
