-- ===== src/Verify/Baseline.antt =====
-- verifyInstallationStateWithKey of bridge_service/src/verify_integrity.go, over its runs.
use mathlib.Core.Path.{ap₂}
use mathlib.Core.List.{Perm, nil≢cons}
use mathlib.Core.List.Perm
use hwcontrol.Base.{
  ℕ, String, Bool, true, false, not, List, [], ◌∷◌, ◌≡◌, refl, sym, ap, ◌∙◌, ◌↔◌, map, length,
  ==_iff, eq_iff,
}
use hwcontrol.Base.Result.{Result, ok, is_ok, fail_if}
use hwcontrol.Base.Sorting.{SliceSort, IsKeyed-perm, Ascending-unique}
use hwcontrol.Base.Distinct.{distinct, IsKeyed-of_distinct}
use hwcontrol.Files.{absent, contents}
use hwcontrol.Command.{Hmac}
use hwcontrol.Text.Hex
use hwcontrol.Text.Hex.Laws.{are_bytes, decode-encode}
use hwcontrol.Verify.{
  VerifyFileRecord, path_of, record_eq, canonical_verify_records, verify_records_equal,
}
use hwcontrol.Verify.Records.{record_eq-path, record_eq_refl, equal_iff_rearranged}
use hwcontrol.Verify.State.{
  VerifyState, slice, appended, Writes, write_steps, is_tag, verify_state_mac, verify_state_payload,
  check_state, baseline, marshal, write_verify_state, verify_installation_state_with_key,
  put_in_place, checked_text,
}

pub is_ok-not : (b : Bool) (message : String) → is_ok (fail_if (not b) message) ≡ b
is_ok-not true message = refl
is_ok-not false message = refl

appended_of_perm :
    (l : List VerifyFileRecord) (r : VerifyFileRecord) (rs : List VerifyFileRecord)
    → Perm l (r ∷ rs)
    → appended l ≡ slice l
appended_of_perm [] r rs p = absurd (nil≢cons (Perm.nil-eq p))
appended_of_perm (x ∷ l) r rs p = refl

module _ (sorter : SliceSort path_of) (hmac : Hmac) where
  canonical_twice :
      (found : List VerifyFileRecord)
      → distinct (map path_of found) ≡ true
      → sorter.sort (sorter.sort found) ≡ sorter.sort found
  canonical_twice found d =
      Ascending-unique path_of
        (IsKeyed-perm path_of (Perm.trans (sorter.sort-perm _) (sorter.sort-perm found))
          (IsKeyed-of_distinct path_of record_eq record_eq-path record_eq_refl found d))
        (sorter.sort-Ascending _) (sorter.sort-Ascending found) (sorter.sort-perm _)

  is_tag-encode :
      (tag : List ℕ) → are_bytes tag ≡ true → length tag ≡ 32 → is_tag (Hex.encode tag) ≡ true
  is_tag-encode tag b h = rw (is_tag, decode-encode tag b) ((==_iff (length tag) 32).1 h)

  is_tag-mac :
      ((key message : String) → are_bytes (hmac.sum key message) ≡ true)
      → (key : String) (state : VerifyState) → is_tag (verify_state_mac hmac key state) ≡ true
  unfolding verify_state_mac
  is_tag-mac bytes key state =
      is_tag-encode _ (bytes key (verify_state_payload state))
        (hmac.length-sum key (verify_state_payload state))

  -- The MAC does not cover itself.
  mac-baseline :
      (key : String) (records : List VerifyFileRecord)
      → verify_state_mac hmac key (baseline hmac key records) ≡ (baseline hmac key records).mac
  unfolding verify_state_mac verify_state_payload baseline
  mac-baseline key records = refl

  -- A baseline under its own key is checked by its inventory alone.
  check_baseline :
      ((key message : String) → are_bytes (hmac.sum key message) ≡ true)
      → (key : String) (records actual : List VerifyFileRecord)
      → is_ok (check_state sorter hmac key (baseline hmac key records) (ok actual))
        ≡ verify_records_equal sorter records actual
  unfolding check_state baseline
  check_baseline bytes key records actual =
      rw ((eq_iff _ _).1 (mac-baseline key records), is_tag-mac bytes key _)
        (is_ok-not (verify_records_equal sorter records actual) _)

  -- A baseline that is persisted is written as it is.
  written_baseline :
      (key : String) (r : VerifyFileRecord) (rs : List VerifyFileRecord) (w : Writes)
      → distinct (map path_of (r ∷ rs)) ≡ true
      → write_steps w ≡ ok tt
      → (write_verify_state sorter w (baseline hmac key (sorter.sort (r ∷ rs))) absent).1
        ≡ contents (marshal true (baseline hmac key (sorter.sort (r ∷ rs))))
  unfolding write_verify_state baseline
  written_baseline key r rs w d h =
      let records = sorter.sort (r ∷ rs) in
      let same : appended (sorter.sort records) ≡ slice records =
        ap appended (canonical_twice (r ∷ rs) d)
        ∙ appended_of_perm records r rs (sorter.sort-perm (r ∷ rs)) in
      ap₂
        (λ o f.
          (put_in_place o (marshal true (record (baseline hmac key records) { files = f }))
            absent).1)
        h same

  module _ (unmarshal : String → Result VerifyState) where
    -- When a baseline of an inventory with distinct paths has been persisted and its text is read
    -- back as it was written, a later check under the same key passes exactly if the files of then
    -- are the files of the baseline: no file added, removed or modified. The inventory has a file,
    -- the writes succeed, and the MAC gives bytes.
    pub baseline_detects_changes :
        ((key message : String) → are_bytes (hmac.sum key message) ≡ true)
        → (key : String) (r : VerifyFileRecord) (rs actual : List VerifyFileRecord)
          (w later : Writes)
        → distinct (map path_of (r ∷ rs)) ≡ true
        → write_steps w ≡ ok tt
        → unmarshal (marshal true (baseline hmac key (canonical_verify_records sorter (r ∷ rs))))
          ≡ ok (baseline hmac key (canonical_verify_records sorter (r ∷ rs)))
        → (is_ok
              (verify_installation_state_with_key sorter hmac unmarshal key
                (ok actual)
                later
                (verify_installation_state_with_key sorter hmac unmarshal key
                  (ok (canonical_verify_records sorter (r ∷ rs)))
                  w
                  absent).1).0
            ≡ true)
          ↔ Perm (r ∷ rs) actual
    unfolding verify_installation_state_with_key
    baseline_detects_changes bytes key r rs actual w later d h u =
        let records = canonical_verify_records sorter (r ∷ rs) in
        let checked : _ ≡ verify_records_equal sorter records actual =
          ap
            (λ file.
              is_ok
                (verify_installation_state_with_key sorter hmac unmarshal key (ok actual) later
                  file).0)
            (written_baseline key r rs w d h)
          ∙ ap
              (λ s.
                is_ok
                  (checked_text sorter hmac key (ok actual)
                    (marshal true (baseline hmac key records)) s).0)
              u
          ∙ check_baseline bytes key records actual in
        let equal = equal_iff_rearranged sorter records actual (
          IsKeyed-perm path_of (sorter.sort-perm (r ∷ rs))
            (IsKeyed-of_distinct path_of record_eq record_eq-path record_eq_refl (r ∷ rs) d)) in
        (
          λ p. Perm.trans (Perm.symm (sorter.sort-perm (r ∷ rs))) (equal.0 (sym checked ∙ p)),
          λ p. checked ∙ equal.1 (Perm.trans (sorter.sort-perm (r ∷ rs)) p),
        )
