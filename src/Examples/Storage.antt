-- ===== src/Examples/Storage.antt =====
-- Installations, keys and their files.
use mathlib.Core.List.{Perm}
use mathlib.Core.List.Perm
use hwcontrol.Base.{
  ℕ, String, Bool, true, List, [], ◌∷◌, ◌≡◌, refl, sym, ap, length, ◌↔◌, if◌then◌else◌, str_eq,
}
use hwcontrol.Base.Result.{Result, ok, err, is_ok}
use hwcontrol.Base.Sorting.{
  SliceSort, insertion_sort, insertion_sort-perm, insertion_sort-Ascending,
}
use hwcontrol.Int.{pos}
use hwcontrol.Files.{FileStatus, FileView, absent}
use hwcontrol.Verify.{
  VerifyFileRecord, Visit, path_of, directory, file, collect_verify_inventory, is_excluded,
  canonical_verify_records, walk_paths,
}
use hwcontrol.Text.Json.{escape_text}
use hwcontrol.Text.Clean.{rel}
use hwcontrol.Verify.Arrival.{value_of, inventory_any_order}
use hwcontrol.Verify.State.{
  VerifyState, Writes, baseline, items, marshal, verify_state_mac, verify_state_version,
  verify_installation_state_with_key,
}
use hwcontrol.Verify.Baseline.{baseline_detects_changes}
use hwcontrol.Verify.Authentic.{verified_is_authentic}
use hwcontrol.Text.Hex.Laws.{are_bytes}
use hwcontrol.Secrets.{KeyReadings, missing, opened, load_or_create_secret}
use hwcontrol.Secrets.Valid.{IsTrustworthy, loaded_secret-IsTrustworthy}
use hwcontrol.Examples.Data.{hmac, zero_bytes}

abbrev sorter : SliceSort path_of
sorter = record {
  sort = insertion_sort path_of;
  sort-perm = insertion_sort-perm path_of;
  sort-Ascending = insertion_sort-Ascending path_of;
}

abbrev view : String → FileView
view path = record { status = FileStatus.regular 3 420; contents = ok path }

abbrev backwards : List String → List String
backwards (p ∷ q ∷ ps) = q ∷ p ∷ ps
backwards ps = ps

abbrev excluded : String → Bool
excluded = is_excluded "/state/verify.state" ""

abbrev visits : List Visit
visits =
    directory "/opt/hw"
    ∷ file "/opt/hw/bridge"
    ∷ file "/state/verify.state"
    ∷ file "/opt/hw/lib/a"
    ∷ []

inventory_any_order_example :
    value_of
      (collect_verify_inventory sorter (λ text. text) excluded view backwards "/opt/hw" visits)
    ≡ value_of
        (collect_verify_inventory sorter (λ text. text) excluded view (λ ps. ps) "/opt/hw" visits)
unfolding walk_paths is_excluded rel
inventory_any_order_example =
    inventory_any_order sorter (λ text. text) excluded view backwards "/opt/hw" visits
      ("/opt/hw/bridge" ∷ "/opt/hw/lib/a" ∷ []) refl refl (Perm.swap _ _ [])

abbrev bridge_file : VerifyFileRecord
bridge_file = record { path = "bridge"; size = pos 3; sha256 = "ab" }

abbrev library : VerifyFileRecord
library = record { path = "lib/a"; size = pos 4; sha256 = "cd" }

abbrev all_done : Writes
all_done = record {
  directory_made = ok tt;
  created = ok tt;
  permitted = ok tt;
  written = ok tt;
  synced = ok tt;
  closed = ok tt;
  renamed = ok tt;
}

abbrev persisted : VerifyState
persisted = baseline hmac "k" (canonical_verify_records sorter (library ∷ bridge_file ∷ []))

-- It reads the one text that it knows.
abbrev read_state : String → Result VerifyState
read_state text = if str_eq text (marshal true persisted) then ok persisted else err "invalid"

baseline_detects_changes_example :
    (is_ok
        (verify_installation_state_with_key sorter hmac read_state "k"
          (ok (bridge_file ∷ library ∷ []))
          all_done
          (verify_installation_state_with_key sorter hmac read_state "k"
            (ok (canonical_verify_records sorter (library ∷ bridge_file ∷ [])))
            all_done
            absent).1).0
      ≡ true)
    ↔ Perm (library ∷ bridge_file ∷ []) (bridge_file ∷ library ∷ [])
unfolding marshal escape_text baseline insertion_sort
baseline_detects_changes_example =
    baseline_detects_changes sorter hmac read_state (λ key message. refl) "k" library
      (bridge_file ∷ []) (bridge_file ∷ library ∷ []) all_done all_done refl refl refl

verified_is_authentic_example :
    (state : VerifyState) × (actual : List VerifyFileRecord) × (read_state (marshal true persisted)
      ≡ ok state)
    × (state.version ≡ verify_state_version)
    × (state.mac ≡ verify_state_mac hmac "k" state)
    × (ok (library ∷ bridge_file ∷ []) ≡ ok actual)
    × Perm (items state.files) actual
unfolding verify_installation_state_with_key escape_text insertion_sort
verified_is_authentic_example =
    verified_is_authentic sorter hmac read_state "k" (marshal true persisted)
      (ok (library ∷ bridge_file ∷ [])) all_done refl

-- No variable is set, no key file is there, and every call succeeds.
abbrev first_start : KeyReadings
first_start = record {
  env_secret = "";
  env_key_file = "";
  entry = missing;
  key_file = absent;
  random = ok zero_bytes;
  directory_made = ok tt;
  opening = opened;
  written = ok tt;
  closed = ok tt;
  protected = ok tt;
  remove = ok tt;
}

abbrev bytes_of : Result (List ℕ) → List ℕ
bytes_of (err e) = zero_bytes
bytes_of (ok bytes) = bytes

loaded_secret-IsTrustworthy_example : IsTrustworthy first_start (load_or_create_secret first_start)
loaded_secret-IsTrustworthy_example =
    loaded_secret-IsTrustworthy first_start
      λ key h. (ap (λ r. are_bytes (bytes_of r)) (sym h), ap (λ r. length (bytes_of r)) (sym h))
