-- ===== src/Audio.antt =====
-- The audio studio's start request: its decoding and its limits, in bridge_service/src/main.go.
pub mod Probe
pub mod Listed
pub mod Session
pub mod Alternates
pub mod StartLine
use Prim.Native.String
use hwcontrol.Base.{
  ℕ, String, Bool, false, not, ◌||◌, ◌==◌, List, [], ◌∷◌, Option, none, some, ltb, str_eq, length,
}
use hwcontrol.Base.Result.{Result, ok, err, fail_if, ◌>>=◌, ◌>>◌}
use hwcontrol.Int.{ℤ, pos, ltb_ℤ}
use hwcontrol.Float
use hwcontrol.Float.{Float64, lit, neg_lit, one}
use hwcontrol.Float.Arith.{round}
use hwcontrol.Text.Base64
use hwcontrol.Command.{◌<>◌}

pub record AudioStudioStartRequest : Type 0 where
  pub capture_index : ℤ
  pub playback_index : ℤ
  pub monitor_output : Bool
  pub input_gain : Float64
  pub gate_threshold : Float64
  pub compressor_threshold : Float64
  pub compressor_ratio : Float64
  pub compressor_attack : Float64
  pub compressor_release : Float64
  pub compressor_knee : Float64
  pub high_pass_frequency : Float64
  pub limiter_ceiling : Float64
  pub gate_enabled : Bool
  pub compressor_enabled : Bool
  pub high_pass_enabled : Bool
  pub limiter_enabled : Bool
  pub eq_gain : List Float64
  pub eq_frequency : List Float64

-- The constant 0.1, rounded to float64.
unfoldable pub tenth : Float64
tenth = round false one 10

unfoldable pub outside : Float64 → Float64 → Float64 → Bool
outside value low high =
    Float.is_nan value || Float.is_inf value || Float.lt value low || Float.lt high value

-- One entry of the table `ranges`.
pub record Limit : Type 0 where
  pub name : String
  pub value : Float64
  pub low : Float64
  pub high : Float64

abbrev limit : String → Float64 → Float64 → Float64 → Limit
limit name value low high = record { name = name; value = value; low = low; high = high }

unfoldable pub ranges : AudioStudioStartRequest → List Limit
ranges request =
    limit "input gain" request.input_gain (neg_lit 24) (lit 12)
    ∷ limit "gate threshold" request.gate_threshold (neg_lit 90) (lit 0)
    ∷ limit "compressor threshold" request.compressor_threshold (neg_lit 60) (lit 0)
    ∷ limit "compressor ratio" request.compressor_ratio (lit 1) (lit 20)
    ∷ limit "compressor attack" request.compressor_attack tenth (lit 200)
    ∷ limit "compressor release" request.compressor_release (lit 1) (lit 2000)
    ∷ limit "compressor knee" request.compressor_knee (lit 0) (lit 24)
    ∷ limit "high-pass frequency" request.high_pass_frequency (lit 20) (lit 1000)
    ∷ limit "limiter ceiling" request.limiter_ceiling (neg_lit 24) (lit 0)
    ∷ []

unfoldable pub check_ranges : List Limit → Result (Unit {0})
check_ranges [] = ok tt
check_ranges (item ∷ rest) = do
  fail_if (outside item.value item.low item.high) ("invalid audio " <> item.name)
  check_ranges rest

-- The loop over the bands, where both lists are walked together.
unfoldable pub check_bands : List Float64 → List Float64 → Result (Unit {0})
check_bands (gain ∷ gains) (frequency ∷ frequencies) = do
  fail_if (outside gain (neg_lit 12) (lit 12)) "invalid audio EQ gain"
  fail_if (outside frequency (lit 20) (lit 18000)) "invalid audio EQ frequency"
  check_bands gains frequencies
check_bands _ _ = ok tt

unfoldable pub valid_audio_studio_start_request : AudioStudioStartRequest → Result (Unit {0})
unfolding outside ranges check_ranges check_bands
valid_audio_studio_start_request request = do
  fail_if
      (ltb_ℤ request.capture_index (pos 0)
        || ltb_ℤ (pos 1024) request.capture_index
        || ltb_ℤ request.playback_index (pos 0)
        || ltb_ℤ (pos 1024) request.playback_index)
      "audio device index is outside the allowed range"
  check_ranges (ranges request)
  fail_if (not (length request.eq_gain == 3) || not (length request.eq_frequency == 3))
      "audio EQ must contain exactly three bands"
  check_bands request.eq_gain request.eq_frequency

or_error {ℓ} : {A : Type ℓ} → Option A → String → Result A
or_error none e = err e
or_error (some a) e = ok a

-- `unmarshal` is json.Unmarshal of the request.
module _ (unmarshal : List ℕ → Option AudioStudioStartRequest) where
  unfoldable pub decode_audio_studio_start_target : String → Result AudioStudioStartRequest
  unfolding or_error
  decode_audio_studio_start_target target = do
    fail_if (str_eq target "" || ltb 8192 (String.len target))
        "audio start configuration is missing or too large"
    raw ← or_error (Base64.decode target) "invalid audio start configuration encoding"
    request ← or_error (unmarshal raw) "invalid audio start configuration"
    valid_audio_studio_start_request request
    ok request
