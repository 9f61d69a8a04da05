-- ===== src/Collect/Sound.antt =====
-- The temperatures that the collection of bridge_service/src/main.go can hold.
use mathlib.Core.Path.{subst}
use hwcontrol.Base.{
  ℕ, String, Bool, true, false, ◌&&◌, ◌≡◌, refl, sym, ◌⊎◌, inr, List, [], ◌∷◌, Option, none, some,
  if◌then◌else◌, str_eq, both,
}
use hwcontrol.Float.{Float64, lit}
use hwcontrol.Float.Arith.{div}
use hwcontrol.Text.Clean.{join}
use hwcontrol.Telemetry.{is_finite_positive, HardwareMetrics}
use hwcontrol.Collect.{
  Platform, Sensor, usable, when, read_float_file, read_uint_file, read_first_line, set_gpu_usage,
  set_gpu_memory_used, set_gpu_memory_total, set_power_watts, mark_card, name_card, is_cpu, is_gpu,
  merge_cpu_sensor, merge_gpu_sensor, merge_temperature, merge_fan, merge_hwmons, merge_usage,
  merge_card, merge_cards, merge_sensors,
}

-- A temperature that was never set, or one that the code takes.
abbrev pub IsReading : Float64 → Type 0
IsReading t = (t ≡ lit 0) ⊎ (usable t ≡ true)

pub data HasReadings (m : HardwareMetrics) : Type 0 where
  both_readings : IsReading m.cpu_temperature → IsReading m.gpu_temperature → HasReadings m

-- Only the two temperatures matter.
pub same_temperatures :
    (m m' : HardwareMetrics)
    → m'.cpu_temperature ≡ m.cpu_temperature
    → m'.gpu_temperature ≡ m.gpu_temperature
    → HasReadings m
    → HasReadings m'
same_temperatures m m' c g (both_readings hc hg) =
    both_readings (subst IsReading (sym c) hc) (subst IsReading (sym g) hg)

pub with_gpu :
    (m m' : HardwareMetrics)
    → m'.cpu_temperature ≡ m.cpu_temperature
    → usable m'.gpu_temperature ≡ true
    → HasReadings m
    → HasReadings m'
with_gpu m m' c u (both_readings hc hg) = both_readings (subst IsReading (sym c) hc) (inr u)

with_cpu :
    (m m' : HardwareMetrics)
    → m'.gpu_temperature ≡ m.gpu_temperature
    → usable m'.cpu_temperature ≡ true
    → HasReadings m
    → HasReadings m'
with_cpu m m' g u (both_readings hc hg) = both_readings (inr u) (subst IsReading (sym g) hg)

pub if_sound :
    (b : Bool) (m m' : HardwareMetrics)
    → HasReadings m
    → (b ≡ true → HasReadings m')
    → HasReadings (if b then m' else m)
if_sound true m m' h k = k refl
if_sound false m m' h k = h

pub when_sound :
    {A : Type 0} (o : Option A) (set : A → HardwareMetrics) (m : HardwareMetrics)
    → HasReadings m
    → ((a : A) → o ≡ some a → HasReadings (set a))
    → HasReadings (when o set m)
when_sound none set m h k = h
when_sound (some a) set m h k = k a refl

merge_temperature_sound :
    (v : Float64) (m : HardwareMetrics) → HasReadings m → HasReadings (merge_temperature v m)
unfolding merge_temperature
merge_temperature_sound v m h =
    if_sound (usable (div v (lit 1000))) m _ h λ u. with_gpu m _ refl u h

merge_fan_sound : (v : Float64) (m : HardwareMetrics) → HasReadings m → HasReadings (merge_fan v m)
unfolding merge_fan
merge_fan_sound v m h = if_sound (is_finite_positive v) m _ h λ u. same_temperatures m _ refl refl h

merge_hwmons_sound :
    (p : Platform) (hwmons : List String) (m : HardwareMetrics)
    → HasReadings m
    → HasReadings (merge_hwmons p hwmons m)
unfolding merge_hwmons
merge_hwmons_sound p [] m h = h
merge_hwmons_sound p (hwmon ∷ hwmons) m h =
    let first = read_float_file p (join hwmon "temp1_input") in
    let warm_metrics = when first (λ v. merge_temperature v m) m in
    let warm =
      when_sound first (λ v. merge_temperature v m) m h λ v e. merge_temperature_sound v m h in
    merge_hwmons_sound p hwmons _ (
      when_sound (read_float_file p (join hwmon "fan1_input")) (λ v. merge_fan v warm_metrics)
        warm_metrics warm λ v e. merge_fan_sound v warm_metrics warm)

set_gpu_usage_sound :
    (v : Float64) (m : HardwareMetrics) → HasReadings m → HasReadings (set_gpu_usage m v)
unfolding set_gpu_usage
set_gpu_usage_sound v m h = same_temperatures m _ refl refl h

set_gpu_memory_used_sound :
    (v : ℕ) (m : HardwareMetrics) → HasReadings m → HasReadings (set_gpu_memory_used m v)
unfolding set_gpu_memory_used
set_gpu_memory_used_sound v m h = same_temperatures m _ refl refl h

set_gpu_memory_total_sound :
    (v : ℕ) (m : HardwareMetrics) → HasReadings m → HasReadings (set_gpu_memory_total m v)
unfolding set_gpu_memory_total
set_gpu_memory_total_sound v m h = same_temperatures m _ refl refl h

set_power_watts_sound :
    (v : Float64) (m : HardwareMetrics) → HasReadings m → HasReadings (set_power_watts m v)
unfolding set_power_watts
set_power_watts_sound v m h = same_temperatures m _ refl refl h

mark_card_sound : (m : HardwareMetrics) → HasReadings m → HasReadings (mark_card m)
unfolding mark_card
mark_card_sound m h = same_temperatures m _ refl refl h

merge_cpu_sensor_sound :
    (p : Platform) (sensor : Sensor) (m : HardwareMetrics)
    → HasReadings m
    → HasReadings (merge_cpu_sensor p sensor m)
unfolding merge_cpu_sensor
merge_cpu_sensor_sound p sensor m h =
    let takes = is_cpu (p.to_lower sensor.sensor_key) in
    if_sound (takes && usable sensor.temperature) m _ h
      λ e. with_cpu m _ refl (both takes (usable sensor.temperature) e).1 h

merge_gpu_sensor_sound :
    (p : Platform) (sensor : Sensor) (m : HardwareMetrics)
    → HasReadings m
    → HasReadings (merge_gpu_sensor p sensor m)
unfolding merge_gpu_sensor
merge_gpu_sensor_sound p sensor m h =
    let takes = is_gpu (p.to_lower sensor.sensor_key) in
    if_sound (takes && usable sensor.temperature) m _ h
      λ e. with_gpu m _ refl (both takes (usable sensor.temperature) e).1 h

merge_usage_sound :
    (p : Platform) (device : String) (m : HardwareMetrics)
    → HasReadings m
    → HasReadings (merge_usage p device m)
unfolding merge_usage
merge_usage_sound p device m h =
    let busy = read_float_file p (join device "gpu_busy_percent") in
    let used = read_uint_file p (join device "mem_info_vram_used") in
    let total = read_uint_file p (join device "mem_info_vram_total") in
    let m₁ = when busy (set_gpu_usage m) m in
    let m₂ = when used (set_gpu_memory_used m₁) m₁ in
    let m₃ = when total (set_gpu_memory_total m₂) m₂ in
    let h₁ = when_sound busy (set_gpu_usage m) m h (λ v e. set_gpu_usage_sound v m h) in
    let h₂ =
      when_sound used (set_gpu_memory_used m₁) m₁ h₁ (λ v e. set_gpu_memory_used_sound v m₁ h₁) in
    let h₃ =
      when_sound total (set_gpu_memory_total m₂) m₂ h₂
        (λ v e. set_gpu_memory_total_sound v m₂ h₂) in
    when_sound (read_float_file p (join device "power1_average")) (set_power_watts m₃) m₃ h₃
      (λ v e. set_power_watts_sound v m₃ h₃)

name_card_sound :
    (p : Platform) (device : String) (m : HardwareMetrics)
    → HasReadings m
    → HasReadings (name_card p device m)
unfolding name_card
name_card_sound p device m h =
    if_sound (str_eq m.gpu_name "") m _ h λ e. same_temperatures m _ refl refl h

pub merge_cards_sound :
    (p : Platform) (cards : List String) (m : HardwareMetrics)
    → HasReadings m
    → HasReadings (merge_cards p cards m)
unfolding merge_cards merge_card
merge_cards_sound p [] m h = h
merge_cards_sound p (card ∷ cards) m h =
    let device = join card "device" in
    let merged =
      merge_hwmons_sound p (p.glob (join (join device "hwmon") "hwmon*")) (merge_usage p device m)
        (merge_usage_sound p device m h) in
    if_sound (str_eq (read_first_line p (join device "vendor")) "0x1002") (merge_cards p cards m)
      (merge_card p device m) (merge_cards_sound p cards m h)
      λ e. name_card_sound p device _ (mark_card_sound _ merged)

pub merge_sensors_sound :
    (p : Platform) (sensors : List Sensor) (m : HardwareMetrics)
    → HasReadings m
    → HasReadings (merge_sensors p sensors m)
unfolding merge_sensors
merge_sensors_sound p [] m h = h
merge_sensors_sound p (sensor ∷ sensors) m h =
    merge_sensors_sound p sensors _
      (merge_gpu_sensor_sound p sensor _ (merge_cpu_sensor_sound p sensor m h))
