-- ===== src/Secrets.antt =====
-- The bridge's secret and its key file: loadOrCreateSecret of bridge_service/src/main.go, on Linux.
pub mod Valid
use Prim.Native.String
use hwcontrol.Base.{ℕ, ◌%◌, String, Bool, false, not, ◌&&◌, ◌||◌, List, ◌==◌, if◌then◌else◌, str_eq}
use hwcontrol.Base.Result.{Result, ok, err, fail_if, ◌>>=◌, ◌>>◌}
use hwcontrol.Command.{◌<>◌}
use hwcontrol.Files.{ReadFile, absent, unreadable, contents}
use hwcontrol.Text.{trim_space}
use hwcontrol.Text.Clean.{is_rooted}
use hwcontrol.Text.Hex

unfoldable pub default_key_file : String → String
unfolding trim_space
default_key_file configured =
    let trimmed = trim_space configured in
    if not (str_eq trimmed "") then trimmed else "/var/lib/hwcontrol/bridge.key"

unfoldable pub valid_bridge_secret : String → Bool
unfolding Hex.decode
valid_bridge_secret secret = if not (String.len secret == 64) then false else Hex.is_hex secret

-- What os.Lstat says of the key file.
pub data KeyEntry : Type 0 where
  missing : KeyEntry
  uninspectable : (message : String) → KeyEntry
  linked : KeyEntry
  special : KeyEntry
  plain : (permissions : ℕ) → KeyEntry

-- The low six permission bits are those of the group and of others.
abbrev pub inspect_key : KeyEntry → Result (Unit {0})
inspect_key missing = ok tt
inspect_key (uninspectable e) = err ("inspect bridge key file: " <> e)
inspect_key linked = err "bridge key file must not be a symlink"
inspect_key special = err "bridge key file must be a regular file"
inspect_key (plain permissions) =
    fail_if (not (permissions % 64 == 0)) "bridge key file permissions must be owner-only"

unfoldable pub validate_key_file_path : String → KeyEntry → Result (Unit {0})
validate_key_file_path path entry = do
  fail_if (not (is_rooted path)) "bridge key file path must be absolute"
  inspect_key entry

-- os.OpenFile with O_EXCL: a new file; one that is there by now, with what inspecting and reading
-- it gives; or an error.
pub data Opening : Type 0 where
  opened : Opening
  already_there : KeyEntry → Result String → Opening
  not_opened : (message : String) → Opening

-- What the load reads, in the order of its calls.
pub record KeyReadings : Type 0 where
  pub env_secret : String
  pub env_key_file : String
  pub entry : KeyEntry
  pub key_file : ReadFile
  pub random : Result (List ℕ)
  pub directory_made : Result (Unit {0})
  pub opening : Opening
  pub written : Result (Unit {0})
  pub closed : Result (Unit {0})
  pub protected : Result (Unit {0})
  pub remove : Result (Unit {0})

-- What the load does to the key file.
pub data KeyChange : Type 0 where
  untouched : KeyChange
  stored : (text : String) → KeyChange
  removed : KeyChange
  left_behind : KeyChange

-- The secret or the error, and what became of the file.
abbrev pub Loaded : Type 0
Loaded = Result String × KeyChange

abbrev pub refuse : String → Loaded
refuse message = (err message, untouched)

-- A secret that was read, if it is one.
unfoldable pub checked_secret : String → String → Loaded
unfolding valid_bridge_secret
checked_secret message secret =
    if not (valid_bridge_secret secret) then refuse message else (ok secret, untouched)

abbrev pub invalid_file : String
invalid_file = "bridge key file contains an invalid secret"

-- `_ = os.Remove(path)`: where it fails the file stays, whatever it holds.
abbrev pub after_remove : Result (Unit {0}) → KeyChange
after_remove (err e) = left_behind
after_remove (ok done) = removed

abbrev pub removed_after : KeyReadings → String → String → Loaded
removed_after r label e = (err (label <> ": " <> e), after_remove r.remove)

abbrev protect_secret : KeyReadings → String → Result (Unit {0}) → Loaded
protect_secret r secret (err e) = removed_after r "protect bridge key" e
protect_secret r secret (ok done) = (ok secret, stored (secret <> "\n"))

abbrev close_secret : KeyReadings → String → Result (Unit {0}) → Loaded
close_secret r secret (err e) = removed_after r "close bridge key" e
close_secret r secret (ok done) = protect_secret r secret r.protected

-- The file is new: each failure removes it.
abbrev pub write_secret : KeyReadings → String → Result (Unit {0}) → Loaded
write_secret r secret (err e) = removed_after r "write bridge key" e
write_secret r secret (ok done) = close_secret r secret r.closed

-- The file of another instance, inspected again before it is trusted.
abbrev pub read_concurrent : Result (Unit {0}) → Result String → Loaded
read_concurrent (err e) text = refuse e
read_concurrent (ok done) (err e) = refuse ("read concurrently-created bridge key: " <> e)
read_concurrent (ok done) (ok text) = checked_secret invalid_file (trim_space text)

abbrev pub create_file : KeyReadings → String → String → Opening → Loaded
create_file r path secret opened = write_secret r secret r.written
create_file r path secret (already_there entry text) =
    read_concurrent (validate_key_file_path path entry) text
create_file r path secret (not_opened e) = refuse ("create bridge key: " <> e)

abbrev make_directory : KeyReadings → String → String → Result (Unit {0}) → Loaded
make_directory r path secret (err e) = refuse ("create key directory: " <> e)
make_directory r path secret (ok done) = create_file r path secret r.opening

abbrev pub create_secret : KeyReadings → String → Result (List ℕ) → Loaded
create_secret r path (err e) = refuse ("generate bridge key: " <> e)
create_secret r path (ok key) = make_directory r path (Hex.encode key) r.directory_made

abbrev pub read_key : KeyReadings → String → ReadFile → Loaded
read_key r path (contents text) = checked_secret invalid_file (trim_space text)
read_key r path (unreadable e) = refuse ("read bridge key file: " <> e)
read_key r path absent = create_secret r path r.random

abbrev load_file : KeyReadings → String → Result (Unit {0}) → Loaded
load_file r path (err e) = refuse e
load_file r path (ok done) = read_key r path r.key_file

unfoldable pub load_or_create_secret : KeyReadings → Loaded
unfolding trim_space default_key_file validate_key_file_path checked_secret Hex.encode
load_or_create_secret r =
    let secret = trim_space r.env_secret in
    let path = default_key_file r.env_key_file in
    if not (str_eq secret "") && not (str_eq secret "replace-me")
    then checked_secret "HWCONTROL_KEY must contain exactly 64 hexadecimal characters" secret
    else load_file r path (validate_key_file_path path r.entry)
