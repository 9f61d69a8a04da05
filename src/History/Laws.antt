-- ===== src/History/Laws.antt =====
-- The sensor history over any readings: bridge_service/src/sensor_history.go.
use mathlib.Core.List.{append_assoc, append-nil}
use hwcontrol.Base.{
  ℕ, zero, suc, ◌-◌, ◌+◌, ◌≤◌, ◌≡◌, refl, sym, ap, ◌∙◌, List, [], ◌∷◌, ◌++◌, length, drop,
  length-append, length-drop, if◌then◌else◌, str_eq, arith, Bool-cases, inl, inr,
}
use hwcontrol.Telemetry.{HardwareMetrics}
use hwcontrol.History.{
  SensorHistorySample, sample_of, push, record_sensor_history, record_all,
  max_sensor_history_samples,
}

module _ {ℓ} {A : Type ℓ} where
  abbrev pub last : ℕ → List A → List A
  last n xs = drop (length xs - n) xs

  drop-append : (n : ℕ) (xs ys : List A) → n ≤ length xs → drop n (xs ++ ys) ≡ drop n xs ++ ys
  drop-append zero xs ys h = refl
  drop-append (suc n) [] ys h = ground arith
  drop-append (suc n) (x ∷ xs) ys h = drop-append n xs ys (omega arith)

  drop_nil : (n : ℕ) → drop {A = A} n [] ≡ []
  drop_nil zero = refl
  drop_nil (suc n) = refl

  drop_at : {m n : ℕ} (xs : List A) → m ≡ n → drop m xs ≡ drop n xs
  drop_at xs p = ap (λ k. drop k xs) p

  drop-drop : (m n : ℕ) (xs : List A) → drop m (drop n xs) ≡ drop (n + m) xs
  drop-drop m zero xs = drop_at xs (omega arith)
  drop-drop m (suc n) [] = drop_nil m ∙ sym (drop_nil (suc n + m))
  drop-drop m (suc n) (x ∷ xs) = drop-drop m n xs ∙ drop_at {m = suc (n + m)} (x ∷ xs) (omega arith)

  last-append : (n : ℕ) (xs ys : List A) → last n (last n xs ++ ys) ≡ last n (xs ++ ys)
  last-append n xs ys =
      ap (last n) (sym (drop-append (length xs - n) xs ys (omega arith)))
      ∙ drop-drop (length (drop (length xs - n) (xs ++ ys)) - n) (length xs - n) (xs ++ ys)
      ∙ drop_at (xs ++ ys)
          (omega (arith, length-drop (length xs - n) (xs ++ ys), length-append xs ys))

-- The samples of the readings that carry a time.
abbrev pub stamped : List HardwareMetrics → List SensorHistorySample
stamped [] = []
stamped (metrics ∷ rest) =
    if str_eq metrics.metrics_collected_at ""
    then stamped rest
    else sample_of metrics ∷ stamped rest

push_keeps_last :
    (s : SensorHistorySample) (xs : List SensorHistorySample)
    → push s xs ≡ last max_sensor_history_samples (xs ++ s ∷ [])
unfolding push
push_keeps_last s xs = ground arith

record_all_from :
    (ms : List HardwareMetrics) (xs : List SensorHistorySample)
    → record_all ms (last 300 xs) ≡ last 300 (xs ++ stamped ms)
unfolding record_all record_sensor_history
record_all_from [] xs = ap (last 300) (sym (append-nil xs))
record_all_from (m ∷ ms) xs = elim (Bool-cases (str_eq m.metrics_collected_at "")) [
  | inl h ↦ rw h (record_all_from ms xs)
  | inr h ↦ rw h (
      ap (record_all ms)
        (push_keeps_last (sample_of m) (last 300 xs) ∙ last-append 300 xs (sample_of m ∷ []))
      ∙ record_all_from ms (xs ++ sample_of m ∷ [])
      ∙ ap (last 300) (append_assoc xs (sample_of m ∷ []) (stamped ms)))
]

-- After any readings the history holds exactly the last 300 samples of those that carry a time, in
-- the order in which they came.
pub history_is_last_samples :
    (ms : List HardwareMetrics) → record_all ms [] ≡ last max_sensor_history_samples (stamped ms)
history_is_last_samples ms = record_all_from ms []
