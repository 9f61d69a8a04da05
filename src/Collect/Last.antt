-- ===== src/Collect/Last.antt =====
-- Which CPU sensor decides: the loop over host.SensorsTemperatures in
-- collectHardwareControlSafetyMetrics of bridge_service/src/main.go.
use hwcontrol.Base.{
  Bool, true, false, not, all, both, ◌&&◌, ◌≡◌, refl, ◌∙◌, List, [], ◌∷◌, ◌++◌, Bool-cases, inl,
  inr,
}
use hwcontrol.Telemetry.{HardwareMetrics}
use hwcontrol.Collect.{
  Platform, Sensor, usable, is_cpu, is_gpu, merge_cpu_sensor, merge_gpu_sensor, merge_sensors,
}

gpu_keeps_cpu :
    (p : Platform) (sensor : Sensor) (m : HardwareMetrics)
    → (merge_gpu_sensor p sensor m).cpu_temperature ≡ m.cpu_temperature
unfolding merge_gpu_sensor
gpu_keeps_cpu p sensor m =
    elim (Bool-cases (is_gpu (p.to_lower sensor.sensor_key) && usable sensor.temperature)) [
      | inl h ↦ rw h refl
      | inr h ↦ rw h refl
    ]

takes_cpu :
    (p : Platform) (sensor : Sensor) (m : HardwareMetrics)
    → is_cpu (p.to_lower sensor.sensor_key) ≡ true
    → usable sensor.temperature ≡ true
    → (merge_cpu_sensor p sensor m).cpu_temperature ≡ sensor.temperature
unfolding merge_cpu_sensor
takes_cpu p sensor m c u = rw (c, u) refl

skips_cpu :
    (p : Platform) (sensor : Sensor) (m : HardwareMetrics)
    → (is_cpu (p.to_lower sensor.sensor_key) && usable sensor.temperature) ≡ false
    → (merge_cpu_sensor p sensor m).cpu_temperature ≡ m.cpu_temperature
unfolding merge_cpu_sensor
skips_cpu p sensor m h = rw h refl

-- Sensors that are not of the CPU, or not usable.
abbrev pub has_no_cpu : Platform → List Sensor → Bool
has_no_cpu p sensors =
    all (λ s. not (is_cpu (p.to_lower s.sensor_key) && usable s.temperature)) sensors

others_keep_cpu :
    (p : Platform) (sensors : List Sensor) (m : HardwareMetrics)
    → has_no_cpu p sensors ≡ true
    → (merge_sensors p sensors m).cpu_temperature ≡ m.cpu_temperature
unfolding merge_sensors
others_keep_cpu p [] m h = refl
others_keep_cpu p (s ∷ rest) m h =
    let (here, later) = both _ _ h in
    others_keep_cpu p rest (merge_gpu_sensor p s (merge_cpu_sensor p s m)) later
    ∙ gpu_keeps_cpu p s (merge_cpu_sensor p s m)
    ∙ skips_cpu p s m (negated _ here)
  where
    negated : (b : Bool) → not b ≡ true → b ≡ false
    negated false k = refl
    negated true k = cc

-- The last usable CPU sensor decides the CPU's temperature, however hot the sensors before it are and
-- whatever other sensors, not of the CPU or not usable, come after it.
pub last_cpu_sensor_wins :
    (p : Platform) (before : List Sensor) (sensor : Sensor) (after : List Sensor)
    (m : HardwareMetrics)
    → has_no_cpu p after ≡ true
    → is_cpu (p.to_lower sensor.sensor_key) ≡ true
    → usable sensor.temperature ≡ true
    → (merge_sensors p (before ++ sensor ∷ after) m).cpu_temperature ≡ sensor.temperature
unfolding merge_sensors
last_cpu_sensor_wins p [] sensor after m n c u =
    others_keep_cpu p after (merge_gpu_sensor p sensor (merge_cpu_sensor p sensor m)) n
    ∙ gpu_keeps_cpu p sensor (merge_cpu_sensor p sensor m)
    ∙ takes_cpu p sensor m c u
last_cpu_sensor_wins p (first ∷ before) sensor after m n c u =
    last_cpu_sensor_wins p before sensor after _ n c u
