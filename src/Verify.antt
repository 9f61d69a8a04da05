-- ===== src/Verify.antt =====
-- The installation baseline: bridge_service/src/verify_integrity.go. This file has its records and
-- the inventory; Verify/State has the state file.
pub mod State
pub mod Key
pub mod Records
pub mod Arrival
pub mod Baseline
pub mod Authentic
use hwcontrol.Base.{
  ℕ, ◌+◌, String, Bool, true, not, ◌&&◌, ◌||◌, List, [], ◌∷◌, Option, none, some, map, length, ◌==◌,
  if◌then◌else◌, str_eq,
}
use hwcontrol.Base.Result.{Result, ok, err, ◌>>=◌}
use hwcontrol.Base.Sorting.{SliceSort}
use hwcontrol.Int.{ℤ, pos, eqb_ℤ}
use hwcontrol.Files.{FileStatus, FileView}
use hwcontrol.Command.{◌<>◌}
use hwcontrol.Text.{trim_space}
use hwcontrol.Text.Path.{base}
use hwcontrol.Text.Clean.{clean, join, dir, rel}

pub record VerifyFileRecord : Type 0 where
  pub path : String
  pub size : ℤ
  pub sha256 : String

abbrev pub path_of : VerifyFileRecord → String
path_of r = r.path

-- os.Executable, then filepath.EvalSymlinks of what it gave.
unfoldable pub verify_installation_root : Result String → (String → Result String) → Result String
unfolding dir
verify_installation_root executable eval_symlinks = elim executable [
  | err e ↦ err ("resolve bridge executable: " <> e)
  | ok path ↦ elim (eval_symlinks path) [
    | err e ↦ err ("resolve bridge executable path: " <> e)
    | ok resolved ↦ ok (dir resolved)
  ]
]

abbrev not_empty : String → Bool
not_empty s = not (str_eq s "")

-- From the two environment variables and the directory for temporary files.
unfoldable pub verify_state_dir : String → String → String → String
unfolding trim_space join dir
verify_state_dir configured program_data temp_dir =
    let root = trim_space program_data in
    if not_empty (trim_space configured)
    then trim_space configured
    else if not_empty root
    then join (join (join root "HWControl") "security") "state"
    else join (dir temp_dir) "hwcontrol-security-state"

unfoldable pub verify_state_path : String → String
unfolding join
verify_state_path state_dir = join state_dir "verify.state"

-- `sha256` gives the digest of the contents in hexadecimal.
unfoldable pub verify_file_digest :
    (sha256 : String → String) (fs : String → FileView) (path : String) → Result VerifyFileRecord
verify_file_digest sha256 fs path = elim (fs path).status [
  | FileStatus.unavailable e ↦ err e
  | FileStatus.symlink ↦ err ("non-regular file: " <> path)
  | FileStatus.irregular ↦ err ("non-regular file: " <> path)
  | FileStatus.regular size permissions ↦ do
    text ← (fs path).contents
    ok (record { path = path; size = pos size; sha256 = sha256 text })
]

-- What filepath.Walk hands to its function, in its order.
pub data Visit : Type 0 where
  walk_error : (message : String) → Visit
  directory : (path : String) → Visit
  file : (path : String) → Visit

-- The state file and the key file are left out.
unfoldable pub is_excluded : (state_path key_path path : String) → Bool
unfolding clean
is_excluded state_path key_path path =
    str_eq (clean path) (clean state_path) || str_eq (clean path) (clean key_path)

-- An error stops the walk.
unfoldable pub walk_paths : (String → Bool) → List Visit → Result (List String)
walk_paths excluded [] = ok []
walk_paths excluded (walk_error e ∷ visits) = err e
walk_paths excluded (directory path ∷ visits) = walk_paths excluded visits
walk_paths excluded (file path ∷ visits) =
    let rest = walk_paths excluded visits in
    if excluded path then rest else (rest >>= λ paths. ok (path ∷ paths))

pub record VerifyInventoryResult : Type 0 where
  pub path : String
  pub outcome : Result VerifyFileRecord

-- A worker's work on one path: the digest, under the path relative to the root.
unfoldable pub relative_record :
    (sha256 : String → String) (fs : String → FileView) (root path : String)
    → Result VerifyFileRecord
unfolding verify_file_digest rel
relative_record sha256 fs root path = do
  r ← verify_file_digest sha256 fs path
  relative ← rel root path
  ok (record r { path = relative })

abbrev pub work :
    (sha256 : String → String) (fs : String → FileView) (root path : String) → VerifyInventoryResult
work sha256 fs root path = record { path = path; outcome = relative_record sha256 fs root path }

abbrev first_error : Option String → String → Option String
first_error none e = some e
first_error (some first) e = some first

-- The loop over the results channel: the first error is kept, and every good record.
unfoldable pub gather :
    Option String → List VerifyInventoryResult → Option String × List VerifyFileRecord
gather first [] = (first, [])
gather first (result ∷ results) = elim result.outcome [
  | err e ↦ gather (first_error first ("inventory " <> base result.path <> ": " <> e)) results
  | ok r ↦ let rest = gather first results in (rest.0, r ∷ rest.1)
]

module _ (sorter : SliceSort path_of) where
  -- A copy, sorted by path.
  abbrev pub canonical_verify_records : List VerifyFileRecord → List VerifyFileRecord
  canonical_verify_records records = sorter.sort records

  abbrev conclude_inventory : Option String × List VerifyFileRecord → Result (List VerifyFileRecord)
  conclude_inventory (some e, records) = err e
  conclude_inventory (none, records) = ok (canonical_verify_records records)

  -- `arrival` is the order in which the workers' results come, given the order of the jobs.
  unfoldable pub collect_verify_inventory :
      (sha256 : String → String) (excluded : String → Bool) (fs : String → FileView)
      (arrival : List String → List String) (root : String) (visits : List Visit)
      → Result (List VerifyFileRecord)
  unfolding walk_paths gather relative_record
  collect_verify_inventory sha256 excluded fs arrival root visits =
      elim (walk_paths excluded visits) [
        | err e ↦ err e
        | ok paths ↦
            if length paths == 0
            then ok []
            else conclude_inventory (gather none (map (work sha256 fs root) (arrival paths)))
      ]

-- Go compares the structs field by field.
abbrev pub record_eq : VerifyFileRecord → VerifyFileRecord → Bool
record_eq r s = str_eq r.path s.path && eqb_ℤ r.size s.size && str_eq r.sha256 s.sha256

unfoldable pub same_records : List VerifyFileRecord → List VerifyFileRecord → Bool
same_records (r ∷ rs) (s ∷ ss) = record_eq r s && same_records rs ss
same_records _ _ = true

unfoldable pub verify_records_equal :
    SliceSort path_of → List VerifyFileRecord → List VerifyFileRecord → Bool
unfolding same_records
verify_records_equal sorter expected actual =
    let expected = sorter.sort expected in
    let actual = sorter.sort actual in
    length expected == length actual && same_records expected actual
