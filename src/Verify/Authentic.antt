-- ===== src/Verify/Authentic.antt =====
-- What a check has seen, and what it does to the state file: verifyInstallationStateWithKey of
-- bridge_service/src/verify_integrity.go, in one run.
use mathlib.Core.List.{Perm}
use mathlib.Core.Bool.{false≢true}
use hwcontrol.Base.{
  String, true, List, ◌≡◌, refl, sym, ap, ◌∙◌, ◌⊎◌, inl, inr, str_eq, eq_iff, Bool-cases,
}
use hwcontrol.Base.Result.{Result, ok, err, is_ok, Result-cases}
use hwcontrol.Base.Sorting.{SliceSort}
use hwcontrol.Int.{eqb_ℤ}
use hwcontrol.Files.{ReadFile, absent, unreadable, contents}
use hwcontrol.Command.{Hmac}
use hwcontrol.Verify.{VerifyFileRecord, path_of, verify_records_equal}
use hwcontrol.Int.{eqb_ℤ-path}
use hwcontrol.Verify.Records.{rearranged_of_equal}
use hwcontrol.Verify.Baseline.{is_ok-not}
use hwcontrol.Verify.State.{
  VerifyState, items, Writes, write_steps, labelled, is_tag, verify_state_version, verify_state_mac,
  check_state, write_verify_state, verify_installation_state_with_key, put_in_place, checked_text,
}

module _ (sorter : SliceSort path_of) (hmac : Hmac) where
  -- What a state must be for its check to pass.
  passed_check :
      (key : String) (state : VerifyState) (inventory : Result (List VerifyFileRecord))
      → is_ok (check_state sorter hmac key state inventory) ≡ true
      → (actual : List VerifyFileRecord) × (state.version ≡ verify_state_version)
        × (state.mac ≡ verify_state_mac hmac key state)
        × (inventory ≡ ok actual)
        × Perm (items state.files) actual
  unfolding check_state
  passed_check key state inventory h =
      elim (Bool-cases (eqb_ℤ state.version verify_state_version)) [
        | inr v ↦ absurd (false≢true (rw v at h))
        | inl v ↦ elim (Bool-cases (str_eq (verify_state_mac hmac key state) state.mac)) [
          | inr m ↦ absurd (false≢true (rw (v, m) at h))
          | inl m ↦ elim (Bool-cases (is_tag state.mac)) [
            | inr t ↦ absurd (false≢true (rw (v, m, t) at h))
            | inl t ↦ elim (Result-cases inventory) [
              | inl (e, k) ↦ absurd (false≢true (rw (v, m, t, k) at h))
              | inr (actual, k) ↦
                  let same =
                    sym (is_ok-not (verify_records_equal sorter (items state.files) actual) _)
                    ∙ (rw (v, m, t, k) at h) in
                  (
                    actual,
                    eqb_ℤ-path _ _ v,
                    sym ((eq_iff _ _).0 m),
                    k,
                    rearranged_of_equal sorter (items state.files) actual same,
                  )
            ]
          ]
        ]
      ]

  put_kept :
      (prefix text : String) (o : Result (Unit {0}))
      → ((put_in_place o text absent).1 ≡ absent)
        ⊎ ((absent ≡ absent) × (labelled prefix (put_in_place o text absent).0 ≡ ok tt))
  put_kept prefix text (err e) = inl refl
  put_kept prefix text (ok done) = inr (refl, refl)

  text_kept :
      (key : String) (inventory : Result (List VerifyFileRecord)) (text : String)
      (s : Result VerifyState)
      → (checked_text sorter hmac key inventory text s).1 ≡ contents text
  text_kept key inventory text (err e) = refl
  text_kept key inventory text (ok state) = refl

  module _ (unmarshal : String → Result VerifyState) where
    -- A check of a state file that passes read a state of the current version whose MAC is the one
    -- under the key, and the files of now are the files of that state.
    pub verified_is_authentic :
        (key text : String) (inventory : Result (List VerifyFileRecord)) (w : Writes)
        → is_ok
            (verify_installation_state_with_key sorter hmac unmarshal key inventory w
              (contents text)).0
          ≡ true
        → (state : VerifyState) × (actual : List VerifyFileRecord) × (unmarshal text ≡ ok state)
          × (state.version ≡ verify_state_version)
          × (state.mac ≡ verify_state_mac hmac key state)
          × (inventory ≡ ok actual)
          × Perm (items state.files) actual
    unfolding verify_installation_state_with_key check_state
    verified_is_authentic key text inventory w h = elim (Result-cases (unmarshal text)) [
      | inl (e, k) ↦ absurd (
          false≢true
            (sym (ap (λ s. is_ok (checked_text sorter hmac key inventory text s).0) k) ∙ h))
      | inr (state, k) ↦
          let passed =
            passed_check key state inventory
              (sym (ap (λ s. is_ok (checked_text sorter hmac key inventory text s).0) k) ∙ h) in
          (state, passed.0, k, passed.1, passed.2, passed.3, passed.4)
    ]

    -- A check leaves the state file as it is, except that it creates it where it is missing and
    -- then returns no error.
    pub state_file_kept :
        (key : String) (inventory : Result (List VerifyFileRecord)) (w : Writes) (old : ReadFile)
        → ((verify_installation_state_with_key sorter hmac unmarshal key inventory w old).1 ≡ old)
          ⊎ ((old ≡ absent)
              × ((verify_installation_state_with_key sorter hmac unmarshal key inventory w old).0
                  ≡ ok tt))
    unfolding verify_installation_state_with_key write_verify_state
    state_file_kept key (err e) w absent = inl refl
    state_file_kept key (ok records) w absent = put_kept _ _ (write_steps w)
    state_file_kept key inventory w (unreadable e) = inl refl
    state_file_kept key inventory w (contents text) =
        inl (text_kept key inventory text (unmarshal text))
