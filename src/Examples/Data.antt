-- ===== src/Examples/Data.antt =====
-- A small machine, a command and what it sees.
use hwcontrol.Base.{ℕ, String, true, false, List, [], ◌∷◌, Option, none, some, refl}
use hwcontrol.Base.Result.{ok}
use hwcontrol.Int.{pos}
use hwcontrol.Float.{lit}
use hwcontrol.Telemetry.{HardwareMetrics, zero_metrics}
use hwcontrol.Command.{Command, Hmac}
use hwcontrol.Audio.{AudioStudioStartRequest}
use hwcontrol.Fan.{LinuxFanTarget, WriteFault}
use hwcontrol.Power.Linux.{Call, Reply, Session}
use hwcontrol.Execute.{Observed, Machine}
use hwcontrol.Connection.{Bridge, Turn}
use hwcontrol.Connection.Read.{Line}
use hwcontrol.Connection.Dispatch.{Seen}

-- A message authentication code of 32 zeros.
abbrev pub zero_bytes : List ℕ
zero_bytes =
    0 ∷ 0 ∷ 0 ∷ 0 ∷ 0 ∷ 0 ∷ 0 ∷ 0 ∷ 0 ∷ 0 ∷ 0 ∷ 0 ∷ 0 ∷ 0 ∷ 0 ∷ 0 ∷ 0 ∷ 0 ∷ 0 ∷ 0 ∷ 0 ∷ 0 ∷ 0 ∷ 0
    ∷ 0 ∷ 0 ∷ 0 ∷ 0 ∷ 0 ∷ 0 ∷ 0 ∷ 0 ∷ []

abbrev pub hmac : Hmac
hmac = record { sum = λ key message. zero_bytes; length-sum = λ key message. refl }

abbrev pub unmarshal : List ℕ → Option AudioStudioStartRequest
unmarshal bytes = none

abbrev pub unquote : String → Option String
unquote text = some "balanced"

-- A daemon that always answers with one property.
abbrev pub daemon : Unit {0} → Call → Reply × Unit {0}
daemon s c = (record { output = "s \"balanced\""; error = none }, s)

abbrev pub power : Session (Unit {0})
power = record { daemon = tt; log = [] }

abbrev pub machine : Machine (Unit {0})
machine = record { game_enabled = false; power = power }

abbrev pub fan : LinuxFanTarget
fan = record {
  id = "0123456789abcdef";
  pwm_path = "/sys/class/hwmon/hwmon0/pwm1";
  fan_input = "/sys/class/hwmon/hwmon0/fan1_input";
  name = "nct6775";
  supported = true;
  reason = "";
  fan_rpm = lit 900;
  rpm_available = true;
  fan_percent = lit 40;
  percent_available = true;
}

-- The CPU is hot, and the sensors work.
abbrev pub hot : HardwareMetrics
hot = record zero_metrics {
  cpu_temperature = lit 96;
  thermal_safety_available = true;
  fan_control_supported = true;
  fan_control_backend = "linux-hwmon";
}

abbrev pub no_fault : WriteFault
no_fault path = none

abbrev pub observed : Observed
observed = record {
  panic_mode = false;
  listed = fan ∷ [];
  safety = hot;
  at_write = fan ∷ [];
  fault = no_fault;
}

abbrev pub seen : Seen
seen = record {
  audio_devices = ok tt;
  audio_control = λ c. ok tt;
  fans = fan ∷ [];
  observed = observed;
}

abbrev pub nonce : String
nonce = "00112233445566778899aabbccddeeff"

-- One second after the epoch, from the command's own clock.
abbrev pub game_on : Command
game_on = record {
  action = "Set Game Mode";
  value = lit 100;
  target = "";
  timestamp = pos 1000;
  nonce = nonce;
  auth = "0000000000000000000000000000000000000000000000000000000000000000";
}

abbrev pub full_speed : Command
full_speed = record game_on { action = "Fan Hızı" }

abbrev pub decode : List ℕ → Option Command
decode line = some game_on

abbrev pub turn : Turn
turn = record {
  line = Line.read (123 ∷ []);
  integrity_healthy = true;
  validated_at = 2000000000;
  consumed_at = 2000000001;
  now = 2000000002;
  panic_mode = false;
  written = true;
  seen = seen;
}

abbrev pub bridge : Bridge (Unit {0})
bridge = record { replay = []; machine = machine }
