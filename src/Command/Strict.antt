-- ===== src/Command/Strict.antt =====
-- Strict decoding of a command: rejectAmbiguousCommandJSON and decodeCommandStrict of
-- bridge_service/src/main.go, over what encoding/json's decoder returns for a line.
use mathlib.Core.Bool.{false≢true}
use hwcontrol.Base.{
  String, Bool, true, not, ◌&&◌, ◌≡◌, refl, ap, List, [], ◌∷◌, any, all, arith, if◌then◌else◌,
  str_eq, Bool-cases, inl, inr,
}
use hwcontrol.Base.Result.{Result, ok, err, is_ok, ◌>>=◌, ◌>>◌, Result-cases}
use hwcontrol.Command.{Command}

-- decoder.Token: an error, a delimiter, a string, or another value.
pub data Token : Type 0 where
  no_token : (message : String) → Token
  open_object : Token
  close_object : Token
  text : String → Token
  other : Token

-- The second decoding: the end of the input, another value, or an error.
pub data Trailing : Type 0 where
  end_of_input : Trailing
  another : Trailing
  broken : (message : String) → Trailing

-- A turn of the loop over the members: the token of the name, and whether the value decodes.
pub record Member : Type 0 where
  pub name : Token
  pub value : Result (Unit {0})

-- What the decoder returns for a line, in its order; the members are those for which More is true.
pub record DecodedLine : Type 0 where
  pub opening : Token
  pub members : List Member
  pub closing : Token
  pub trailing : Trailing

abbrev pub is_allowed : String → Bool
is_allowed key =
    any (str_eq key) ("action" ∷ "value" ∷ "target" ∷ "timestamp" ∷ "nonce" ∷ "auth" ∷ [])

abbrev pub check_opening : Token → Result (Unit {0})
check_opening (no_token e) = err e
check_opening open_object = ok tt
check_opening _ = err "command must be a JSON object"

abbrev pub check_key : List String → String → Result String
check_key seen key =
    if not (is_allowed key)
    then err "unknown or noncanonical command field"
    else if any (str_eq key) seen
    then err "duplicate command field"
    else ok key

abbrev pub check_name : List String → Token → Result String
check_name seen (no_token e) = err e
check_name seen (text key) = check_key seen key
check_name seen _ = err "command field name must be a string"

-- `key` is the checked name of a member.
abbrev pub check_value : Result String → Result (Unit {0}) → Result (Unit {0}) → Result (Unit {0})
check_value (err e) value rest = err e
check_value (ok key) value rest = value >> rest

abbrev pub name_text : Token → String
name_text (text key) = key
name_text _ = ""

unfoldable pub check_members : List String → List Member → Result (Unit {0})
check_members seen [] = ok tt
check_members seen (m ∷ ms) =
    let rest = check_members (name_text m.name ∷ seen) ms in
    check_value (check_name seen m.name) m.value rest

abbrev pub check_closing : Token → Result (Unit {0})
check_closing (no_token e) = err e
check_closing close_object = ok tt
check_closing _ = err "command object is not closed"

abbrev pub check_trailing : Trailing → Result (Unit {0})
check_trailing end_of_input = ok tt
check_trailing another = err "multiple JSON values are not allowed"
check_trailing (broken e) = err e

unfoldable pub reject_ambiguous_command_json : DecodedLine → Result (Unit {0})
unfolding check_members
reject_ambiguous_command_json line = do
  check_opening line.opening
  check_members [] line.members
  check_closing line.closing
  check_trailing line.trailing

-- `decoded` is the decoding into a Command with unknown fields disallowed, `after` what follows it.
unfoldable pub decode_command_strict : DecodedLine → Result Command → Trailing → Result Command
unfolding reject_ambiguous_command_json
decode_command_strict line decoded after = do
  reject_ambiguous_command_json line
  cmd ← decoded
  check_trailing after
  ok cmd

-- No name stands among the names before it.
abbrev pub all_new : List String → List Member → Bool
all_new seen [] = true
all_new seen (m ∷ ms) =
    not (any (str_eq (name_text m.name)) seen) && all_new (name_text m.name ∷ seen) ms

all_allowed : List Member → Bool
all_allowed = all λ m. is_allowed (name_text m.name)

passed_value :
    (key : Result String) (value rest : Result (Unit {0}))
    → is_ok (check_value key value rest) ≡ true
    → (is_ok key ≡ true) × (is_ok rest ≡ true)
passed_value (err e) value rest h = absurd (false≢true h)
passed_value (ok key) (err e) rest h = absurd (false≢true h)
passed_value (ok key) (ok done) rest h = (refl, h)

passed_key :
    (seen : List String) (key : String)
    → is_ok (check_key seen key) ≡ true
    → (is_allowed key ≡ true) × (not (any (str_eq key) seen) ≡ true)
passed_key seen key h = elim (Bool-cases (is_allowed key)) [
  | inr a ↦ absurd (false≢true (rw a at h))
  | inl a ↦ elim (Bool-cases (any (str_eq key) seen)) [
    | inl s ↦ absurd (false≢true (rw (a, s) at h))
    | inr s ↦ (a, ap not s)
  ]
]

passed_name :
    (seen : List String) (name : Token)
    → is_ok (check_name seen name) ≡ true
    → (is_allowed (name_text name) ≡ true) × (not (any (str_eq (name_text name)) seen) ≡ true)
passed_name seen (no_token e) h = absurd (false≢true h)
passed_name seen open_object h = absurd (false≢true h)
passed_name seen close_object h = absurd (false≢true h)
passed_name seen other h = absurd (false≢true h)
passed_name seen (text key) h = passed_key seen key h

and_true : (a b : Bool) → a ≡ true → b ≡ true → (a && b) ≡ true
and_true a b h k = ground arith

passed_members :
    (seen : List String) (ms : List Member)
    → is_ok (check_members seen ms) ≡ true
    → (all_allowed ms ≡ true) × (all_new seen ms ≡ true)
unfolding check_members all_allowed
passed_members seen [] h = (refl, refl)
passed_members seen (m ∷ ms) h =
    let parts =
      passed_value (check_name seen m.name) m.value (check_members (name_text m.name ∷ seen) ms)
        h in
    let here = passed_name seen m.name parts.0 in
    let rest = passed_members (name_text m.name ∷ seen) ms parts.1 in
    (and_true _ _ here.0 rest.0, and_true _ _ here.1 rest.1)

passed_first :
    (a b : Result (Unit {0})) → is_ok (a >> b) ≡ true → (is_ok a ≡ true) × (is_ok b ≡ true)
passed_first (err e) b h = absurd (false≢true h)
passed_first (ok done) b h = (refl, h)

of_trailing : (t : Trailing) → is_ok (check_trailing t) ≡ true → t ≡ end_of_input
of_trailing end_of_input h = refl
of_trailing another h = absurd (false≢true h)
of_trailing (broken e) h = absurd (false≢true h)

of_opening : (t : Token) → is_ok (check_opening t) ≡ true → t ≡ open_object
of_opening open_object h = refl
of_opening (no_token e) h = absurd (false≢true h)
of_opening close_object h = absurd (false≢true h)
of_opening (text key) h = absurd (false≢true h)
of_opening other h = absurd (false≢true h)

of_closing : (t : Token) → is_ok (check_closing t) ≡ true → t ≡ close_object
of_closing close_object h = refl
of_closing (no_token e) h = absurd (false≢true h)
of_closing open_object h = absurd (false≢true h)
of_closing (text key) h = absurd (false≢true h)
of_closing other h = absurd (false≢true h)

of_after :
    (d : Result Command) (after : Trailing)
    → is_ok (d >>= λ cmd. check_trailing after >> ok cmd) ≡ true
    → after ≡ end_of_input
of_after (err e) after h = absurd (false≢true h)
of_after (ok cmd) end_of_input h = refl
of_after (ok cmd) another h = absurd (false≢true h)
of_after (ok cmd) (broken e) h = absurd (false≢true h)

-- A line that decodes to a command is one JSON object, from its opening to its closing brace, and
-- nothing after it in either decoding; each of its fields is one of the six of a command, and none is
-- given twice.
pub decoded_line_unambiguous :
    (line : DecodedLine) (decoded : Result Command) (after : Trailing)
    → is_ok (decode_command_strict line decoded after) ≡ true
    → (line.opening ≡ open_object)
      × (line.closing ≡ close_object)
      × (all (λ m. is_allowed (name_text m.name)) line.members ≡ true)
      × (all_new [] line.members ≡ true)
      × (line.trailing ≡ end_of_input)
      × (after ≡ end_of_input)
unfolding decode_command_strict reject_ambiguous_command_json all_allowed
decoded_line_unambiguous line decoded after h =
    elim (Result-cases (reject_ambiguous_command_json line)) [
      | inl (e, k) ↦ absurd (false≢true (rw k at h))
      | inr (done, k) ↦
          let opened = passed_first (check_opening line.opening) _ (ap is_ok k) in
          let members = passed_first (check_members [] line.members) _ opened.1 in
          let closed = passed_first (check_closing line.closing) _ members.1 in
          let fields = passed_members [] line.members members.0 in
          (
            of_opening line.opening opened.0,
            of_closing line.closing closed.0,
            fields.0,
            fields.1,
            of_trailing line.trailing closed.1,
            of_after decoded after (rw k at h),
          )
    ]
