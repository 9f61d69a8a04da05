-- ===== src/Secrets/Valid.antt =====
-- The paths of loadOrCreateSecret: bridge_service/src/main.go.
use Prim.Native.String
use hwcontrol.Base.{
  ℕ, String, Bool, true, false, not, ◌&&◌, str_eq, ◌≡◌, ◌≢◌, refl, inl, inr, List, length, ==_iff,
  if◌then◌else◌, Bool-cases, arith,
}
use hwcontrol.Base.Result.{Result, ok, err, Result-cases}
use hwcontrol.Command.{◌<>◌}
use hwcontrol.Files.{ReadFile, absent, unreadable, contents}
use hwcontrol.Text.{trim_space}
use hwcontrol.Text.Hex
use hwcontrol.Text.Hex.Laws.{are_bytes, decode-encode}
use hwcontrol.Text.Hex.Length.{len-encode}
use hwcontrol.Secrets.{
  KeyReadings, KeyChange, untouched, stored, removed, left_behind, after_remove, Loaded, Opening,
  opened, already_there, not_opened, valid_bridge_secret, checked_secret, create_file,
  create_secret, read_key, write_secret, read_concurrent, close_secret, protect_secret,
  make_directory, load_file, load_or_create_secret, default_key_file, invalid_file,
  validate_key_file_path,
}

-- The file holds the secret that is returned, or is as it was.
abbrev IsKept : String → KeyChange → Type 0
IsKept secret untouched = Unit
IsKept secret (stored text) = text ≡ secret <> "\n"
IsKept secret removed = ⊥
IsKept secret left_behind = ⊥

-- No file that was made is left, or os.Remove failed.
abbrev IsUnstored : KeyReadings → KeyChange → Type 0
IsUnstored r untouched = Unit
IsUnstored r (stored text) = ⊥
IsUnstored r removed = r.remove ≡ ok tt
IsUnstored r left_behind = r.remove ≢ ok tt

unstored : (r : KeyReadings) → IsUnstored r (after_remove r.remove)
unstored r = elim (Result-cases r.remove) [
  | inl (e, h) ↦ rw h (λ k. cc)
  | inr (done, h) ↦ rw h refl
]

-- A secret that is returned is valid and the file that was made holds it; after an error no file
-- that was made is left, where it could be removed.
abbrev pub IsTrustworthy : KeyReadings → Loaded → Type 0
IsTrustworthy r (err message, change) = IsUnstored r change
IsTrustworthy r (ok secret, change) = (valid_bridge_secret secret ≡ true) × IsKept secret change

checked_secret-IsTrustworthy :
    (r : KeyReadings) (message secret : String) → IsTrustworthy r (checked_secret message secret)
unfolding checked_secret
checked_secret-IsTrustworthy r message secret = elim (Bool-cases (valid_bridge_secret secret)) [
  | inl h ↦ rw h (h, tt)
  | inr h ↦ rw h tt
]

valid-encode :
    (bs : List ℕ)
    → are_bytes bs ≡ true
    → length bs ≡ 32
    → valid_bridge_secret (Hex.encode bs) ≡ true
unfolding valid_bridge_secret
valid-encode bs b l =
    let size : String.len (Hex.encode bs) ≡ 64 = omega (arith, len-encode bs b, l) in
    rw ((==_iff (String.len (Hex.encode bs)) 64).1 size, Hex.is_hex, decode-encode bs b) refl

write_secret-IsTrustworthy :
    (r : KeyReadings) (secret : String)
    → valid_bridge_secret secret ≡ true
    → (w : Result (Unit {0})) → IsTrustworthy r (write_secret r secret w)
write_secret-IsTrustworthy r secret v (err e) = unstored r
write_secret-IsTrustworthy r secret v (ok done) = close r.closed
  where
    protect : (p : Result (Unit {0})) → IsTrustworthy r (protect_secret r secret p)
    protect (err e) = unstored r
    protect (ok done) = (v, refl)

    close : (c : Result (Unit {0})) → IsTrustworthy r (close_secret r secret c)
    close (err e) = unstored r
    close (ok done) = protect r.protected

read_concurrent-IsTrustworthy :
    (r : KeyReadings) (v : Result (Unit {0})) (text : Result String)
    → IsTrustworthy r (read_concurrent v text)
read_concurrent-IsTrustworthy r (err e) text = tt
read_concurrent-IsTrustworthy r (ok done) (err e) = tt
read_concurrent-IsTrustworthy r (ok done) (ok text) =
    checked_secret-IsTrustworthy r invalid_file (trim_space text)

create_secret-IsTrustworthy :
    (r : KeyReadings) (path : String)
    → (random : Result (List ℕ))
    → ((key : List ℕ) → random ≡ ok key → (are_bytes key ≡ true) × (length key ≡ 32))
    → IsTrustworthy r (create_secret r path random)
create_secret-IsTrustworthy r path (err e) h = tt
create_secret-IsTrustworthy r path (ok key) h = make r.directory_made
  where
    valid : valid_bridge_secret (Hex.encode key) ≡ true
    valid = valid-encode key (h key refl).0 (h key refl).1

    create : (o : Opening) → IsTrustworthy r (create_file r path (Hex.encode key) o)
    create opened = write_secret-IsTrustworthy r (Hex.encode key) valid r.written
    create (already_there entry text) =
        read_concurrent-IsTrustworthy r (validate_key_file_path path entry) text
    create (not_opened e) = tt

    make : (d : Result (Unit {0})) → IsTrustworthy r (make_directory r path (Hex.encode key) d)
    make (err e) = tt
    make (ok done) = create r.opening

-- Whatever a load meets: a secret that it returns has 64 hexadecimal digits, and if it made the key
-- file then that holds this secret; if it returns an error, it leaves no file that it made, except
-- where it tried to remove that file and could not. The random source is assumed to give 32 bytes
-- where it gives any.
pub loaded_secret-IsTrustworthy :
    (r : KeyReadings)
    → ((key : List ℕ) → r.random ≡ ok key → (are_bytes key ≡ true) × (length key ≡ 32))
    → IsTrustworthy r (load_or_create_secret r)
unfolding load_or_create_secret
loaded_secret-IsTrustworthy r h = choose (
    not (str_eq (trim_space r.env_secret) "")
    && not (str_eq (trim_space r.env_secret) "replace-me"))
  where
    read : (path : String) (f : ReadFile) → IsTrustworthy r (read_key r path f)
    read path (contents text) = checked_secret-IsTrustworthy r invalid_file (trim_space text)
    read path (unreadable e) = tt
    read path absent = create_secret-IsTrustworthy r path r.random h

    load : (path : String) (v : Result (Unit {0})) → IsTrustworthy r (load_file r path v)
    load path (err e) = tt
    load path (ok done) = read path r.key_file

    choose :
        (b : Bool)
        → IsTrustworthy r (
            if b
            then checked_secret "HWCONTROL_KEY must contain exactly 64 hexadecimal characters"
                (trim_space r.env_secret)
            else load_file r
                (default_key_file r.env_key_file)
                (validate_key_file_path (default_key_file r.env_key_file) r.entry))
    choose true =
        checked_secret-IsTrustworthy r
          "HWCONTROL_KEY must contain exactly 64 hexadecimal characters" (trim_space r.env_secret)
    choose false =
        load (default_key_file r.env_key_file)
          (validate_key_file_path (default_key_file r.env_key_file) r.entry)
