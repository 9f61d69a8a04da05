-- ===== src/Verify/State.antt =====
-- The state file of the installation baseline: its text, its MAC, how it is written and how an
-- installation is checked against it (bridge_service/src/verify_integrity.go).
use hwcontrol.Base.{
  String, Bool, true, false, not, ◌||◌, List, [], ◌∷◌, none, some, length, ◌==◌, if◌then◌else◌,
  str_eq,
}
use hwcontrol.Base.Result.{Result, ok, err, fail_if, ◌>>=◌, ◌>>◌}
use hwcontrol.Base.Sorting.{SliceSort}
use hwcontrol.Int.{ℤ, pos, eqb_ℤ}
use hwcontrol.Files.{ReadFile, absent, unreadable, contents}
use hwcontrol.Command.{Hmac, ◌<>◌}
use hwcontrol.Text.Decimal.{format_int}
use hwcontrol.Text.Hex
use hwcontrol.Text.Json.{quote}
use hwcontrol.Verify.{VerifyFileRecord, path_of, canonical_verify_records, verify_records_equal}

-- Go tells a nil slice from an empty one, and so does its JSON.
pub data FileSlice : Type 0 where
  nil_slice : FileSlice
  slice : List VerifyFileRecord → FileSlice

abbrev pub items : FileSlice → List VerifyFileRecord
items nil_slice = []
items (slice records) = records

-- append of no records to a nil slice is a nil slice.
abbrev pub appended : List VerifyFileRecord → FileSlice
appended [] = nil_slice
appended (r ∷ rs) = slice (r ∷ rs)

pub record VerifyState : Type 0 where
  pub version : ℤ
  pub files : FileSlice
  pub mac : String

abbrev pub verify_state_version : ℤ
verify_state_version = pos 1

-- json.Marshal writes no space; json.MarshalIndent breaks the line and indents.
abbrev break : Bool → String → String
break indented spaces = if indented then "\n" <> spaces else ""

abbrev label : Bool → String → String
label indented name = quote name <> (if indented then ": " else ":")

marshal_record : Bool → VerifyFileRecord → String
unfolding format_int
marshal_record indented r =
    "{"
    <> break indented "      "
    <> label indented "path"
    <> quote r.path
    <> ","
    <> break indented "      "
    <> label indented "size"
    <> format_int r.size
    <> ","
    <> break indented "      "
    <> label indented "sha256"
    <> quote r.sha256
    <> break indented "    "
    <> "}"

marshal_records : Bool → List VerifyFileRecord → String
unfolding marshal_record
marshal_records indented [] = ""
marshal_records indented (r ∷ []) = break indented "    " <> marshal_record indented r
marshal_records indented (r ∷ s ∷ rs) =
    break indented "    " <> marshal_record indented r <> "," <> marshal_records indented (s ∷ rs)

marshal_files : Bool → FileSlice → String
unfolding marshal_records
marshal_files indented nil_slice = "null"
marshal_files indented (slice []) = "[]"
marshal_files indented (slice (r ∷ rs)) =
    "[" <> marshal_records indented (r ∷ rs) <> break indented "  " <> "]"

unfoldable pub marshal : Bool → VerifyState → String
unfolding format_int marshal_files
marshal indented state =
    "{"
    <> break indented "  "
    <> label indented "version"
    <> format_int state.version
    <> ","
    <> break indented "  "
    <> label indented "files"
    <> marshal_files indented state.files
    <> ","
    <> break indented "  "
    <> label indented "mac"
    <> quote state.mac
    <> break indented ""
    <> "}"

unfoldable pub verify_state_payload : VerifyState → String
unfolding marshal
verify_state_payload state = marshal false (record state { mac = "" })

unfoldable pub verify_state_mac : Hmac → String → VerifyState → String
unfolding verify_state_payload Hex.encode
verify_state_mac hmac key state = Hex.encode (hmac.sum key (verify_state_payload state))

-- What the calls that write the state file return, in their order.
pub record Writes : Type 0 where
  pub directory_made : Result (Unit {0})
  pub created : Result (Unit {0})
  pub permitted : Result (Unit {0})
  pub written : Result (Unit {0})
  pub synced : Result (Unit {0})
  pub closed : Result (Unit {0})
  pub renamed : Result (Unit {0})

abbrev pub labelled {ℓ} : {A : Type ℓ} → String → Result A → Result A
labelled prefix (err e) = err (prefix <> ": " <> e)
labelled prefix (ok a) = ok a

-- The calls up to the rename that puts the temporary file in the place of the state file.
abbrev pub write_steps : Writes → Result (Unit {0})
write_steps w = do
  labelled "create verify state directory" w.directory_made
  w.created
  w.permitted
  w.written
  w.synced
  w.closed
  w.renamed

abbrev pub put_in_place : Result (Unit {0}) → String → ReadFile → Result (Unit {0}) × ReadFile
put_in_place (err e) text old = (err e, old)
put_in_place (ok done) text old = (ok tt, contents text)

-- The error, and the state file afterwards.
unfoldable pub write_verify_state :
    SliceSort path_of → Writes → VerifyState → ReadFile → Result (Unit {0}) × ReadFile
unfolding marshal
write_verify_state sorter w state old =
    let sorted = record state {
      files = appended (canonical_verify_records sorter (items state.files));
    } in
    put_in_place (write_steps w) (marshal true sorted) old

abbrev pub is_tag : String → Bool
is_tag mac = elim (Hex.decode mac) [ none ↦ false | some bytes ↦ length bytes == 32 ]

-- The checks of a state that was read, against the inventory of now.
unfoldable pub check_state :
    SliceSort path_of
    → Hmac
    → (key : String) (state : VerifyState) (inventory : Result (List VerifyFileRecord))
    → Result (Unit {0})
unfolding verify_state_mac verify_records_equal Hex.decode
check_state sorter hmac key state inventory = do
  fail_if (not (eqb_ℤ state.version verify_state_version)) "verify state version mismatch"
  fail_if (not (str_eq (verify_state_mac hmac key state) state.mac) || not (is_tag state.mac))
      "verify state authentication failed"
  actual ← labelled "collect current installation inventory" inventory
  fail_if (not (verify_records_equal sorter (items state.files) actual))
      "installation inventory changed: file added, removed, or modified"

-- The baseline of an inventory, with its MAC.
unfoldable pub baseline : Hmac → String → List VerifyFileRecord → VerifyState
unfolding verify_state_mac
baseline hmac key records =
    let state : VerifyState = record {
      version = verify_state_version;
      files = slice records;
      mac = "";
    } in
    record state { mac = verify_state_mac hmac key state }

abbrev pub checked_text :
    SliceSort path_of
    → Hmac
    → (key : String) (inventory : Result (List VerifyFileRecord)) (text : String)
    → Result VerifyState
    → Result (Unit {0}) × ReadFile
checked_text sorter hmac key inventory text (err e) =
    (err ("verify state is invalid: " <> e), contents text)
checked_text sorter hmac key inventory text (ok state) =
    (check_state sorter hmac key state inventory, contents text)

-- `inventory` is the result of collectVerifyInventory. The error, and the state file afterwards.
unfoldable pub verify_installation_state_with_key :
    SliceSort path_of
    → Hmac
    → (unmarshal : String → Result VerifyState) (key : String)
      (inventory : Result (List VerifyFileRecord))
    → Writes
    → ReadFile
    → Result (Unit {0}) × ReadFile
unfolding write_verify_state check_state baseline
verify_installation_state_with_key sorter hmac unmarshal key (err e) w absent =
    (err ("create verify baseline: " <> e), absent)
verify_installation_state_with_key sorter hmac unmarshal key (ok records) w absent =
    let written = write_verify_state sorter w (baseline hmac key records) absent in
    (labelled "persist verify baseline" written.0, written.1)
verify_installation_state_with_key sorter hmac unmarshal key inventory w (unreadable e) =
    (err ("read verify state: " <> e), unreadable e)
verify_installation_state_with_key sorter hmac unmarshal key inventory w (contents text) =
    checked_text sorter hmac key inventory text (unmarshal text)
