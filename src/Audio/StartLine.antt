-- ===== src/Audio/StartLine.antt =====
-- Requests and start lines: audioStudioStartLine of bridge_service/src/main.go.
use Prim.Native.String
use Prim.Native.String.append
use hwcontrol.Base.{
  ℕ, String, ◌≡◌, refl, ap, sym, ◌∙◌, Bool, true, false, not, ◌||◌, ◌==◌, List, [], ◌∷◌, arith, all,
  map, length, str_eq, both,
}
use hwcontrol.Base.Result.{ok, both_of_chain, fail_if-eq-ok}
use hwcontrol.Int.{ℤ, pos, negsuc, ltb_ℤ}
use hwcontrol.Float.{Float64}
use hwcontrol.Text.Clean.{split}
use hwcontrol.Text.Decimal.{format_int}
use hwcontrol.Text.Decimal.Words.{lacks, lacks-decimal, decimal_injective, split_word, split_append}
use hwcontrol.Audio.{
  AudioStudioStartRequest, ranges, check_ranges, valid_audio_studio_start_request,
}
use hwcontrol.Audio.Session.{bool_number, bands, space_joined, start_parts, audio_studio_start_line}

-- strconv.FormatFloat with the shortest exact form: different values have different texts, and no
-- text has a space.
pub record IsExact (format : Float64 → String) : Type 0 where
  pub injective : (a b : Float64) → format a ≡ format b → a ≡ b
  pub spaceless : (a : Float64) → lacks b' ' (format a) ≡ true

are_words : List String → Bool
are_words = all (lacks b' ')

space_then : (s t : String) → String.◌++◌ s (String.◌++◌ " " t) ≡ String.◌++◌ s (String.◌∷◌ " " t)
space_then s t = ap (String.◌++◌ s) (append.cons " " "" t ∙ ap (String.◌∷◌ " ") (append.nil t))

split_joined :
    (s : String) (words : List String)
    → are_words (s ∷ words) ≡ true
    → split b' ' (space_joined (s ∷ words)) ≡ s ∷ words
unfolding space_joined are_words
split_joined s [] h = split_word b' ' s (both _ _ h).0
split_joined s (t ∷ words) h =
    let (a, r) = both (lacks b' ' s) (are_words (t ∷ words)) h in
    ap (split b' ') (space_then s (space_joined (t ∷ words)))
    ∙ split_append b' ' " " s (space_joined (t ∷ words)) refl a
    ∙ ap (λ ws. s ∷ ws) (split_joined t words r)

bool_is_word : (b : Bool) → lacks b' ' (bool_number b) ≡ true
bool_is_word true = refl
bool_is_word false = refl

bool_number_injective : (a b : Bool) → bool_number a ≡ bool_number b → a ≡ b
bool_number_injective true true h = refl
bool_number_injective true false h = ap (λ s. str_eq s "1") h
bool_number_injective false true h = ap (λ s. str_eq s "1") h
bool_number_injective false false h = refl

abbrev IsIndex : ℤ → Type 0
IsIndex i = ltb_ℤ i (pos 0) ≡ false

index_is_word : (i : ℤ) → IsIndex i → lacks b' ' (format_int i) ≡ true
unfolding format_int
index_is_word (pos n) h = lacks-decimal n b' ' (omega arith)
index_is_word (negsuc n) h = absurd (ground arith)

index_injective : (i j : ℤ) → IsIndex i → IsIndex j → format_int i ≡ format_int j → i ≡ j
unfolding format_int
index_injective (pos n) (pos m) h k e = ap pos (decimal_injective n m e)
index_injective (negsuc n) j h k e = absurd (ground arith)
index_injective (pos n) (negsuc m) h k e = absurd (ground arith)

-- What a request must be for its line to determine it: what the validation passes.
record HasBands (r : AudioStudioStartRequest) : Type 0 where
  capture : IsIndex r.capture_index
  playback : IsIndex r.playback_index
  gains : length r.eq_gain ≡ 3
  frequencies : length r.eq_frequency ≡ 3

first_of_four : (a b c d : Bool) → (a || b || c || d) ≡ false → (a ≡ false) × (c ≡ false)
first_of_four a b c d h = ground arith

both_three : (m n : ℕ) → (not (m == 3) || not (n == 3)) ≡ false → (m ≡ 3) × (n ≡ 3)
both_three m n h = ground arith

valid-HasBands :
    (r : AudioStudioStartRequest) → valid_audio_studio_start_request r ≡ ok tt → HasBands r
unfolding valid_audio_studio_start_request
valid-HasBands r h =
    let (a, h) = both_of_chain _ _ h in
    let (b, h) = both_of_chain (check_ranges (ranges r)) _ h in
    let (c, h) = both_of_chain _ _ h in
    let (capture, playback) = first_of_four _ _ _ _ (fail_if-eq-ok _ _ a) in
    let (gains, frequencies) = both_three _ _ (fail_if-eq-ok _ _ c) in
    record { capture = capture; playback = playback; gains = gains; frequencies = frequencies }

bands_injective :
    (fs gs fs' gs' : List Float64)
    → length fs ≡ length gs
    → length fs ≡ length fs'
    → length fs' ≡ length gs'
    → bands fs gs ≡ bands fs' gs'
    → (fs ≡ fs') × (gs ≡ gs')
unfolding bands
bands_injective [] [] [] [] h k l e = (refl, refl)
bands_injective [] (g ∷ gs) fs' gs' h k l e = absurd (omega arith)
bands_injective [] [] (f ∷ fs') gs' h k l e = absurd (omega arith)
bands_injective [] [] [] (g ∷ gs') h k l e = absurd (omega arith)
bands_injective (f ∷ fs) [] fs' gs' h k l e = absurd (omega arith)
bands_injective (f ∷ fs) (g ∷ gs) [] gs' h k l e = absurd (omega arith)
bands_injective (f ∷ fs) (g ∷ gs) (f' ∷ fs') [] h k l e = absurd (omega arith)
bands_injective (f ∷ fs) (g ∷ gs) (f' ∷ fs') (g' ∷ gs') h k l e =
    let (p, q) = bands_injective fs gs fs' gs' (omega arith) (omega arith) (omega arith) (cc e) in
    (cc (e, p), cc (e, q))

module _ (format : Float64 → String) (exact : IsExact format) where
  map_injective : (xs ys : List Float64) → map format xs ≡ map format ys → xs ≡ ys
  map_injective [] [] h = refl
  map_injective [] (y ∷ ys) h = cc
  map_injective (x ∷ xs) [] h = cc
  map_injective (x ∷ xs) (y ∷ ys) h =
      let first : x ≡ y = exact.injective x y (cc h) in
      let rest = map_injective xs ys (cc h) in λ i. first i ∷ rest i

  map_words : (xs : List Float64) → are_words (map format xs) ≡ true
  unfolding are_words
  map_words [] = refl
  map_words (x ∷ xs) = rw (exact.spaceless x) (map_words xs)

  parts_are_words :
      (r : AudioStudioStartRequest) → HasBands r → are_words (start_parts format r) ≡ true
  unfolding start_parts are_words
  parts_are_words r b =
      rw
        (
          index_is_word r.capture_index b.capture,
          index_is_word r.playback_index b.playback,
          bool_is_word r.monitor_output,
          exact.spaceless r.input_gain,
          exact.spaceless r.gate_threshold,
          exact.spaceless r.compressor_threshold,
          exact.spaceless r.compressor_ratio,
          exact.spaceless r.compressor_attack,
          exact.spaceless r.compressor_release,
          exact.spaceless r.compressor_knee,
          exact.spaceless r.high_pass_frequency,
          exact.spaceless r.limiter_ceiling,
          bool_is_word r.gate_enabled,
          bool_is_word r.compressor_enabled,
          bool_is_word r.high_pass_enabled,
          bool_is_word r.limiter_enabled,
        )
        (map_words (bands r.eq_frequency r.eq_gain))

  parts_injective :
      (r s : AudioStudioStartRequest)
      → HasBands r
      → HasBands s
      → start_parts format r ≡ start_parts format s
      → r ≡ s
  unfolding start_parts
  parts_injective r s b c h =
      let values =
        map_injective (bands r.eq_frequency r.eq_gain) (bands s.eq_frequency s.eq_gain) (cc h) in
      let (frequencies, gains) =
        bands_injective r.eq_frequency r.eq_gain s.eq_frequency s.eq_gain
          (omega (arith, b.gains, b.frequencies)) (omega (arith, b.frequencies, c.frequencies))
          (omega (arith, c.gains, c.frequencies)) values in
      λ i. record {
        capture_index =
            index_injective r.capture_index s.capture_index b.capture c.capture (cc h) i;
        playback_index =
            index_injective r.playback_index s.playback_index b.playback c.playback (cc h) i;
        monitor_output = bool_number_injective r.monitor_output s.monitor_output (cc h) i;
        input_gain = exact.injective r.input_gain s.input_gain (cc h) i;
        gate_threshold = exact.injective r.gate_threshold s.gate_threshold (cc h) i;
        compressor_threshold =
            exact.injective r.compressor_threshold s.compressor_threshold (cc h) i;
        compressor_ratio = exact.injective r.compressor_ratio s.compressor_ratio (cc h) i;
        compressor_attack = exact.injective r.compressor_attack s.compressor_attack (cc h) i;
        compressor_release = exact.injective r.compressor_release s.compressor_release (cc h) i;
        compressor_knee = exact.injective r.compressor_knee s.compressor_knee (cc h) i;
        high_pass_frequency = exact.injective r.high_pass_frequency s.high_pass_frequency (cc h) i;
        limiter_ceiling = exact.injective r.limiter_ceiling s.limiter_ceiling (cc h) i;
        gate_enabled = bool_number_injective r.gate_enabled s.gate_enabled (cc h) i;
        compressor_enabled =
            bool_number_injective r.compressor_enabled s.compressor_enabled (cc h) i;
        high_pass_enabled = bool_number_injective r.high_pass_enabled s.high_pass_enabled (cc h) i;
        limiter_enabled = bool_number_injective r.limiter_enabled s.limiter_enabled (cc h) i;
        eq_gain = gains i;
        eq_frequency = frequencies i;
      }

  parts_of_line :
      (r : AudioStudioStartRequest)
      → HasBands r
      → split b' ' (audio_studio_start_line format r) ≡ start_parts format r
  unfolding audio_studio_start_line start_parts
  parts_of_line r b = split_joined "start" _ (parts_are_words r b)

  -- Two start requests that pass the validation and give the same line to the native process are the
  -- same request. The texts of float64 values are assumed to be exact and without a space.
  pub start_line_injective :
      (r s : AudioStudioStartRequest)
      → valid_audio_studio_start_request r ≡ ok tt
      → valid_audio_studio_start_request s ≡ ok tt
      → audio_studio_start_line format r ≡ audio_studio_start_line format s
      → r ≡ s
  start_line_injective r s v w h =
      let b = valid-HasBands r v in
      let c = valid-HasBands s w in
      parts_injective r s b c (sym (parts_of_line r b) ∙ ap (split b' ') h ∙ parts_of_line s c)
