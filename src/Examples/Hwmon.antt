-- ===== src/Examples/Hwmon.antt =====
-- Discovery of fan channels.
use hwcontrol.Base.{
  ℕ, ◌≤◌, String, true, false, ◌≡◌, ◌≢◌, refl, List, [], ◌∷◌, Option, none, some, if◌then◌else◌,
  str_eq, arith,
}
use hwcontrol.Base.Distinct.{distinct}
use hwcontrol.Base.Sorting.{
  SliceSort, insertion_sort, insertion_sort-perm, insertion_sort-Ascending,
}
use hwcontrol.Int.{ℤ, pos}
use hwcontrol.Float
use hwcontrol.Float.{Float64, lit}
use hwcontrol.Fan.{LinuxFanTarget, PwmWrite, duty_text, set_fan_control_channel}
use hwcontrol.Fan.Channels.{IsChosen}
use hwcontrol.Fan.Discover.{Sysfs, linux_fan_channel_targets}
use hwcontrol.Fan.Found.{IsControllable}
use hwcontrol.Fan.Manual.{paths_of, hwmon_root, channel_writes_manual_pwm}
use hwcontrol.Health.{is_empty}
use hwcontrol.Examples.Data.{no_fault}

abbrev sorter : SliceSort (λ (s : String). s)
sorter = record {
  sort = insertion_sort (λ s. s);
  sort-perm = insertion_sort-perm (λ s. s);
  sort-Ascending = insertion_sort-Ascending (λ s. s);
}

abbrev digest : String → List ℕ
digest text = 1 ∷ 2 ∷ 3 ∷ 4 ∷ 5 ∷ 6 ∷ 7 ∷ 8 ∷ 9 ∷ []

-- One PWM in manual mode, with its sensor; a second one in automatic mode.
abbrev files : String → Option String
files path =
    if str_eq path "/sys/class/hwmon/hwmon0/pwm1_enable"
    then some "1\n"
    else if str_eq path "/sys/class/hwmon/hwmon0/pwm2_enable"
    then some "2\n"
    else none

abbrev sysfs : Sysfs
sysfs = record {
  glob = λ pattern. some ("/sys/class/hwmon/hwmon0/pwm2" ∷ "/sys/class/hwmon/hwmon0/pwm1" ∷ []);
  eval_symlinks = λ path. none;
  stat = λ path. true;
  read_file = files;
  open_write = λ path. true;
  parse_float = λ text. none;
}

abbrev found : List LinuxFanTarget
found = linux_fan_channel_targets digest sorter sysfs "" ""

abbrev writes : List PwmWrite
writes = (set_fan_control_channel no_fault found "0102030405060708" (lit 50)).1

non_empty : (ws : List PwmWrite) → is_empty ws ≡ false → ws ≢ []
non_empty ws h e = ground arith

written : is_empty writes ≡ false
unfolding linux_fan_channel_targets set_fan_control_channel insertion_sort
    hwcontrol.Fan.set_linux_fan_control_channel hwcontrol.Fan.validate_fan_percent Float.one
    Float.lt hwcontrol.Fan.valid_fan_channel_id hwcontrol.Fan.write_channel
    hwcontrol.Fan.linux_fan_targets hwcontrol.Fan.write_linux_fan_target
    hwcontrol.Text.Decimal.format_int
written = refl

channel_writes_manual_pwm_example :
    (target : LinuxFanTarget) × (v : ℕ) × (number : ℤ) × IsChosen "0102030405060708" found target
    × IsControllable sysfs hwmon_root target.pwm_path number
    × (distinct (paths_of found) ≡ true)
    × (v ≤ 255)
    × (writes ≡ record { path = target.pwm_path; text = duty_text (pos v) } ∷ [])
channel_writes_manual_pwm_example =
    channel_writes_manual_pwm digest sorter sysfs "" "" no_fault "0102030405060708" (lit 50)
      (non_empty writes written)
