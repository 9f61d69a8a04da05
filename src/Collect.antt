-- ===== src/Collect.antt =====
-- The readings that the thermal guards see: collectHardwareControlSafetyMetrics of
-- bridge_service/src/main.go, and mergePlatformMetrics of bridge_service/src/platform_metrics_linux.go.
pub mod Control
pub mod Guarded
pub mod Hottest
pub mod Sound
pub mod Last
use Prim.Native.String
use Prim.Native.Char.{code}
use hwcontrol.Base.{
  ℕ, ◌+◌, ◌-◌, ◌*◌, ◌^◌, String, Bool, true, false, not, ◌&&◌, ◌||◌, ◌≡◌, refl, List, [], ◌∷◌,
  Option, none, some, ltb, leb, if◌then◌else◌, str_eq,
}
use hwcontrol.Float
use hwcontrol.Float.{Float64, lit}
use hwcontrol.Float.Arith.{div}
use hwcontrol.Text.{trim_space}
use hwcontrol.Text.Clean.{split, join}
use hwcontrol.Text.Number.{parse_uint}
use hwcontrol.Text.Path.{has_prefix}
use hwcontrol.Command.{◌<>◌}
use hwcontrol.Telemetry.{HardwareMetrics, zero_metrics, is_valid_temperature, is_finite_positive}
use hwcontrol.Fan.{LinuxFanTarget, FanControlInfo, list_fan_channels, detect_fan_control}

-- strings.Contains
unfoldable pub contains : String → String → Bool
unfolding has_prefix
contains String.[] t = has_prefix "" t
contains (String.◌∷◌ c s) t = has_prefix (String.◌∷◌ c s) t || contains s t

-- A temperature that the code takes.
unfoldable pub usable : Float64 → Bool
unfolding is_valid_temperature Float.lt
usable value = is_valid_temperature value && Float.lt (lit 0) value

-- What the machine shows: os.ReadFile, filepath.Glob, strconv.ParseFloat and strings.ToLower.
pub record Platform : Type 0 where
  pub read_file : String → Option String
  pub glob : String → List String
  pub parse_float : String → Option Float64
  pub to_lower : String → String

abbrev and_then {ℓ κ} : {A : Type ℓ} {B : Type κ} → Option A → (A → Option B) → Option B
and_then none f = none
and_then (some a) f = f a

unfoldable pub read_float_file : Platform → String → Option Float64
unfolding trim_space
read_float_file p path = and_then (p.read_file path) λ text. p.parse_float (trim_space text)

unfoldable pub read_uint_file : Platform → String → Option ℕ
unfolding trim_space parse_uint
read_uint_file p path = and_then (p.read_file path) λ text. parse_uint (trim_space text)

abbrev first_piece : List String → String
first_piece [] = ""
first_piece (piece ∷ pieces) = piece

abbrev first_line : Option String → String
first_line none = ""
first_line (some text) = trim_space (first_piece (split b'\n' text))

unfoldable pub read_first_line : Platform → String → String
unfolding trim_space split
read_first_line p path = first_line (p.read_file path)

-- `if value, ok := ...; ok { metrics = set(value) }`
abbrev pub when {ℓ} :
    {A : Type ℓ} → Option A → (A → HardwareMetrics) → HardwareMetrics → HardwareMetrics
when none set m = m
when (some value) set m = set value

unfoldable pub merge_temperature : Float64 → HardwareMetrics → HardwareMetrics
unfolding usable div
merge_temperature value m =
    let temperature = div value (lit 1000) in
    if usable temperature
    then record m { gpu_temperature = temperature; gpu_temperature_source = "Linux amdgpu sysfs" }
    else m

unfoldable pub merge_fan : Float64 → HardwareMetrics → HardwareMetrics
unfolding is_finite_positive
merge_fan value m =
    if is_finite_positive value
    then record m { fan_rpm = value; fan_rpm_source = "Linux amdgpu sysfs" }
    else m

-- The loop over the card's hwmon directories.
unfoldable pub merge_hwmons : Platform → List String → HardwareMetrics → HardwareMetrics
unfolding read_float_file join merge_temperature merge_fan
merge_hwmons p [] m = m
merge_hwmons p (hwmon ∷ hwmons) m =
    let warm = when (read_float_file p (join hwmon "temp1_input")) (λ v. merge_temperature v m) m in
    let spun = when (read_float_file p (join hwmon "fan1_input")) (λ v. merge_fan v warm) warm in
    merge_hwmons p hwmons spun

unfoldable pub set_gpu_usage : HardwareMetrics → Float64 → HardwareMetrics
set_gpu_usage m value = record m { gpu_usage = value }

unfoldable pub set_gpu_memory_used : HardwareMetrics → ℕ → HardwareMetrics
set_gpu_memory_used m value = record m { gpu_memory_used_bytes = value }

unfoldable pub set_gpu_memory_total : HardwareMetrics → ℕ → HardwareMetrics
set_gpu_memory_total m value = record m { gpu_memory_total_bytes = value }

-- The file counts microwatts.
unfoldable pub set_power_watts : HardwareMetrics → Float64 → HardwareMetrics
unfolding div
set_power_watts m value = record m { power_watts = div value (lit 1000000) }

-- What is read before the hwmon directories.
unfoldable pub merge_usage : Platform → String → HardwareMetrics → HardwareMetrics
unfolding read_float_file read_uint_file join set_gpu_usage set_gpu_memory_used set_gpu_memory_total
    set_power_watts
merge_usage p device m =
    let m = when (read_float_file p (join device "gpu_busy_percent")) (set_gpu_usage m) m in
    let m = when (read_uint_file p (join device "mem_info_vram_used")) (set_gpu_memory_used m) m in
    let m =
      when (read_uint_file p (join device "mem_info_vram_total")) (set_gpu_memory_total m) m in
    when (read_float_file p (join device "power1_average")) (set_power_watts m) m

unfoldable pub mark_card : HardwareMetrics → HardwareMetrics
mark_card m = record m { gpu_vendor = "AMD"; sensor_source = "Linux amdgpu sysfs" }

unfoldable pub name_card : Platform → String → HardwareMetrics → HardwareMetrics
unfolding read_first_line join
name_card p device m =
    if str_eq m.gpu_name ""
    then record m { gpu_name = read_first_line p (join device "uevent") }
    else m

unfoldable pub merge_card : Platform → String → HardwareMetrics → HardwareMetrics
unfolding merge_usage merge_hwmons mark_card name_card join
merge_card p device m =
    let hwmons = p.glob (join (join device "hwmon") "hwmon*") in
    name_card p device (mark_card (merge_hwmons p hwmons (merge_usage p device m)))

-- The first AMD card ends the loop.
unfoldable pub merge_cards : Platform → List String → HardwareMetrics → HardwareMetrics
unfolding merge_card read_first_line join
merge_cards p [] m = m
merge_cards p (card ∷ cards) m =
    let rest = merge_cards p cards m in
    let device = join card "device" in
    if str_eq (read_first_line p (join device "vendor")) "0x1002"
    then merge_card p device m
    else rest

unfoldable pub merge_platform_metrics : Platform → HardwareMetrics → HardwareMetrics
unfolding merge_cards
merge_platform_metrics p m = merge_cards p (p.glob "/sys/class/drm/card[0-9]*") m

pub record Sensor : Type 0 where
  pub sensor_key : String
  pub temperature : Float64

abbrev pub is_cpu : String → Bool
is_cpu key = contains key "cpu" || contains key "package" || contains key "core"

abbrev pub is_gpu : String → Bool
is_gpu key = contains key "gpu" || contains key "graphics"

abbrev sensor_source : Sensor → String
sensor_source sensor = "gopsutil-host-sensors:" <> sensor.sensor_key

unfoldable pub merge_cpu_sensor : Platform → Sensor → HardwareMetrics → HardwareMetrics
unfolding usable contains
merge_cpu_sensor p sensor m =
    if is_cpu (p.to_lower sensor.sensor_key) && usable sensor.temperature
    then record m {
      cpu_temperature = sensor.temperature;
      cpu_temperature_source = sensor_source sensor;
    }
    else m

unfoldable pub merge_gpu_sensor : Platform → Sensor → HardwareMetrics → HardwareMetrics
unfolding usable contains
merge_gpu_sensor p sensor m =
    if is_gpu (p.to_lower sensor.sensor_key) && usable sensor.temperature
    then record m {
      gpu_temperature = sensor.temperature;
      gpu_temperature_source = sensor_source sensor;
    }
    else m

unfoldable pub merge_sensors : Platform → List Sensor → HardwareMetrics → HardwareMetrics
unfolding merge_cpu_sensor merge_gpu_sensor
merge_sensors p [] m = m
merge_sensors p (sensor ∷ sensors) m =
    merge_sensors p sensors (merge_gpu_sensor p sensor (merge_cpu_sensor p sensor m))
