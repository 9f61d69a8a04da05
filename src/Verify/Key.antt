-- ===== src/Verify/Key.antt =====
-- The key of the installation baseline on Windows, protected by DPAPI
-- (bridge_service/src/verify_key_windows.go).
use mathlib.Core.Bool.{false≢true}
use hwcontrol.Base.{
  ℕ, String, false, not, List, ◌≡◌, refl, ap, ◌∙◌, length, ◌==◌, Bool-cases, inl, inr,
}
use hwcontrol.Base.Result.{Result, ok, err, is_ok, fail_if, ◌>>=◌, ◌>>◌, Result-cases}
use hwcontrol.Command.{◌<>◌}
use hwcontrol.Verify.State.{labelled}

abbrev pub verify_key_size : ℕ
verify_key_size = 32

-- CryptProtectData and CryptUnprotectData, on bytes.
pub record Dpapi : Type 0 where
  pub protect : List ℕ → Result (List ℕ)
  pub unprotect : List ℕ → Result (List ℕ)

module _ (dpapi : Dpapi) where
  unfoldable pub protect_verify_key : List ℕ → Result (List ℕ)
  protect_verify_key key = do
    fail_if (not (length key == verify_key_size)) "verify.key must be 32 bytes"
    labelled "CryptProtectData" (dpapi.protect key)

  unfoldable pub unprotect_verify_key : List ℕ → Result (List ℕ)
  unprotect_verify_key protected = do
    fail_if (length protected == 0) "protected verify.key is empty"
    key ← labelled "CryptUnprotectData" (dpapi.unprotect protected)
    fail_if (not (length key == verify_key_size)) "verify.key has invalid length"
    ok key

-- The key file: missing, unreadable, or its bytes.
pub data KeyFile : Type 0 where
  no_key : KeyFile
  unreadable_key : (message : String) → KeyFile
  key_bytes : List ℕ → KeyFile

-- os.OpenFile with O_EXCL: a new file, one that another process has made, with what it then reads
-- as, or an error.
pub data Opened : Type 0 where
  created : Opened
  exists : Result (List ℕ) → Opened
  not_opened : (message : String) → Opened

-- What the calls of one load return, in their order, beside the key file.
pub record KeyCalls : Type 0 where
  pub directory_made : Result (Unit {0})
  pub random : Result (List ℕ)
  pub opened : Opened
  pub written : Result (Unit {0})
  pub synced : Result (Unit {0})
  pub closed : Result (Unit {0})

-- A failed write removes the file; a failed sync or close leaves it.
abbrev pub store_key : KeyCalls → List ℕ → List ℕ → Result (List ℕ) × KeyFile
store_key calls key protected = elim calls.written [
  | err e ↦ (err e, no_key)
  | ok done ↦ elim calls.synced [
    | err e ↦ (err e, key_bytes protected)
    | ok synced ↦ elim calls.closed [
      | err e ↦ (err e, key_bytes protected)
      | ok closed ↦ (ok key, key_bytes protected)
    ]
  ]
]

abbrev pub open_key : Dpapi → KeyCalls → List ℕ → List ℕ → Opened → Result (List ℕ) × KeyFile
open_key dpapi calls key protected created = store_key calls key protected
open_key dpapi calls key protected (exists (err e)) = (err e, unreadable_key e)
open_key dpapi calls key protected (exists (ok bytes)) =
    (unprotect_verify_key dpapi bytes, key_bytes bytes)
open_key dpapi calls key protected (not_opened e) = (err e, no_key)

abbrev pub create_key : Dpapi → KeyCalls → Result (List ℕ) × KeyFile
create_key dpapi calls = elim calls.random [
  | err e ↦ (err ("generate verify.key: " <> e), no_key)
  | ok key ↦ elim (protect_verify_key dpapi key) [
    | err e ↦ (err e, no_key)
    | ok protected ↦ open_key dpapi calls key protected calls.opened
  ]
]

abbrev pub load_key : Dpapi → KeyCalls → KeyFile → Result (List ℕ) × KeyFile
load_key dpapi calls (key_bytes protected) =
    (unprotect_verify_key dpapi protected, key_bytes protected)
load_key dpapi calls (unreadable_key e) = (err e, unreadable_key e)
load_key dpapi calls no_key = create_key dpapi calls

-- The key or the error, and the key file afterwards.
unfoldable pub load_or_create_verify_key : Dpapi → KeyCalls → KeyFile → Result (List ℕ) × KeyFile
unfolding protect_verify_key unprotect_verify_key
load_or_create_verify_key dpapi calls file = elim calls.directory_made [
  | err e ↦ (err e, file)
  | ok done ↦ load_key dpapi calls file
]

-- A key that protects and comes back.
module _ (dpapi : Dpapi)
    (back : (key protected : List ℕ)
      → dpapi.protect key ≡ ok protected
      → dpapi.unprotect protected ≡ ok key)
    (some_bytes : (key protected : List ℕ)
      → dpapi.protect key ≡ ok protected
      → (length protected == 0) ≡ false) where
  protected_back :
      (key protected : List ℕ)
      → protect_verify_key dpapi key ≡ ok protected
      → unprotect_verify_key dpapi protected ≡ ok key
  unfolding protect_verify_key unprotect_verify_key
  protected_back key protected h = elim (Bool-cases (length key == verify_key_size)) [
    | inr l ↦ absurd (false≢true (ap is_ok (rw l at h)))
    | inl l ↦ elim (Result-cases (dpapi.protect key)) [
      | inl (e, k) ↦ absurd (false≢true (ap is_ok (rw (l, k) at h)))
      | inr (bytes, k) ↦
          let same : dpapi.protect key ≡ ok protected = k ∙ (rw (l, k) at h) in
          rw (some_bytes key protected same, back key protected same, l) refl
    ]
  ]

  -- What a load gives and leaves behind: a key that it returns is the key of the file it leaves.
  abbrev LoadsBack : KeyCalls → Result (List ℕ) × KeyFile → Type 0
  LoadsBack later r = (key : List ℕ) → r.0 ≡ ok key → (load_key dpapi later r.1).0 ≡ ok key

  module _ (later : KeyCalls) where
    failed : (e : String) (file : KeyFile) → LoadsBack later (err e, file)
    failed e file key h = absurd (false≢true (ap is_ok h))

    store_back :
        (calls : KeyCalls) (key protected : List ℕ)
        → protect_verify_key dpapi key ≡ ok protected
        → LoadsBack later (store_key calls key protected)
    store_back calls key protected p = elim (Result-cases calls.written) [
      | inl (e, w) ↦ rw (store_key, w) (failed e no_key)
      | inr (done, w) ↦ elim (Result-cases calls.synced) [
        | inl (e, s) ↦ rw (store_key, w, s) (failed e (key_bytes protected))
        | inr (synced, s) ↦ elim (Result-cases calls.closed) [
          | inl (e, c) ↦ rw (store_key, w, s, c) (failed e (key_bytes protected))
          | inr (closed, c) ↦ rw (store_key, w, s, c) (λ k h. protected_back key protected p ∙ h)
        ]
      ]
    ]

    open_back :
        (calls : KeyCalls) (key protected : List ℕ)
        → protect_verify_key dpapi key ≡ ok protected
        → (o : Opened) → LoadsBack later (open_key dpapi calls key protected o)
    open_back calls key protected p created = store_back calls key protected p
    open_back calls key protected p (exists (err e)) = failed e (unreadable_key e)
    open_back calls key protected p (exists (ok bytes)) = λ k h. h
    open_back calls key protected p (not_opened e) = failed e no_key

    create_back : (calls : KeyCalls) → LoadsBack later (create_key dpapi calls)
    create_back calls = elim (Result-cases calls.random) [
      | inl (e, r) ↦ rw (create_key, r) (failed _ no_key)
      | inr (key, r) ↦ elim (Result-cases (protect_verify_key dpapi key)) [
        | inl (e, p) ↦ rw (create_key, r, p) (failed e no_key)
        | inr (protected, p) ↦ rw (create_key, r, p) (open_back calls key protected p calls.opened)
      ]
    ]

    load_back : (calls : KeyCalls) (file : KeyFile) → LoadsBack later (load_key dpapi calls file)
    load_back calls no_key = create_back calls
    load_back calls (unreadable_key e) = failed e (unreadable_key e)
    load_back calls (key_bytes protected) = λ k h. h

-- A key that a load returns, created then or found, is the key that the next load returns from the
-- file it leaves, if its directory is still there. DPAPI is assumed to give some bytes and to give
-- a protected key back.
pub key_loads_back :
    (dpapi : Dpapi)
    → ((key protected : List ℕ)
        → dpapi.protect key ≡ ok protected
        → dpapi.unprotect protected ≡ ok key)
    → ((key protected : List ℕ)
        → dpapi.protect key ≡ ok protected
        → (length protected == 0) ≡ false)
    → (calls later : KeyCalls) (file : KeyFile) (key : List ℕ) → later.directory_made ≡ ok tt
    → (load_or_create_verify_key dpapi calls file).0 ≡ ok key
    → (load_or_create_verify_key dpapi later (load_or_create_verify_key dpapi calls file).1).0
      ≡ ok key
unfolding load_or_create_verify_key
key_loads_back dpapi back bytes calls later file key d h =
    elim (Result-cases calls.directory_made) [
      | inl (e, k) ↦ absurd (false≢true (ap is_ok (rw k at h)))
      | inr (done, k) ↦ rw (k, d) (load_back dpapi back bytes later calls file key (rw k at h))
    ]
