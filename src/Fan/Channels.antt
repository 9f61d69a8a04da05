-- ===== src/Fan/Channels.antt =====
-- Which fan a channel command writes to, and what it writes.
use mathlib.Core.List.{Memᴰ}
use hwcontrol.Base.{
  ℕ, ◌≤◌, String, Bool, true, false, ◌≡◌, ◌≢◌, refl, ap, ◌∙◌, List, [], ◌∷◌, if◌then◌else◌, str_eq,
  eq_iff, arith, Bool-cases, inl, inr,
}
use hwcontrol.Base.Result.{ok}
use hwcontrol.Int.{pos}
use hwcontrol.Float.{Float64}
use hwcontrol.Fan.{
  LinuxFanTarget, PwmWrite, WriteFault, validate_fan_percent, duty, clamp_duty, duty_text,
  write_linux_fan_target, write_channel, set_linux_fan_control_channel, linux_fan_targets,
  set_fan_control_channel,
}
use hwcontrol.Fan.Duty.{duty_in_range}

-- The target that a write went to: it is discovered, has the identifier, and is supported.
pub record IsChosen (id : String) (all : List LinuxFanTarget) (target : LinuxFanTarget)
    : Type 0 where
  pub discovered : Memᴰ target all
  pub identified : target.id ≡ id
  pub is_supported : target.supported ≡ true

abbrev single : LinuxFanTarget → Float64 → List PwmWrite
single target percent =
    record { path = target.pwm_path; text = duty_text (clamp_duty (duty percent)) } ∷ []

write_channel_chooses :
    (fault : WriteFault) (targets : List LinuxFanTarget) (id : String) (percent : Float64)
    → (write_channel fault targets id percent).1 ≢ []
    → (target : LinuxFanTarget) × IsChosen id targets target
      × ((write_channel fault targets id percent).1 ≡ single target percent)
unfolding write_channel write_linux_fan_target
write_channel_chooses fault [] id percent w = absurd (w refl)
write_channel_chooses fault (t ∷ rest) id percent w = elim (Bool-cases (str_eq t.id id)) [
  | inl same ↦ (
    t,
    record {
      discovered = Memᴰ.head refl;
      identified = (eq_iff t.id id).0 same;
      is_supported = ground arith;
    },
    ground arith,
  )
  | inr other ↦
      let (u, c, e) = write_channel_chooses fault rest id percent (ground arith) in
      (
        u,
        record {
          discovered = Memᴰ.tail c.discovered;
          identified = c.identified;
          is_supported = c.is_supported;
        },
        ground arith,
      )
]

from_kept :
    (b : Bool) (u : LinuxFanTarget) (xs ys : List LinuxFanTarget) {t : LinuxFanTarget}
    → (Memᴰ t xs → Memᴰ t ys)
    → Memᴰ t (if b then u ∷ xs else xs)
    → Memᴰ t (u ∷ ys)
from_kept true u xs ys f (Memᴰ.head e) = Memᴰ.head e
from_kept true u xs ys f (Memᴰ.tail m) = Memᴰ.tail (f m)
from_kept false u xs ys f m = Memᴰ.tail (f m)

discovered_of_supported :
    (all : List LinuxFanTarget) {t : LinuxFanTarget} → Memᴰ t (linux_fan_targets all) → Memᴰ t all
unfolding linux_fan_targets
discovered_of_supported [] m = m
discovered_of_supported (u ∷ rest) m =
    from_kept u.supported u (linux_fan_targets rest) rest (discovered_of_supported rest) m

clamp_small : (v : ℕ) → v ≤ 255 → clamp_duty (pos v) ≡ pos v
unfolding clamp_duty
clamp_small v h = ground arith

-- Where a channel command writes, it makes exactly one write: to a discovered target that is
-- supported and has the command's identifier, of a duty between 0 and 255.
pub channel_write_exact :
    (fault : WriteFault) (all : List LinuxFanTarget) (id : String) (percent : Float64)
    → (set_fan_control_channel fault all id percent).1 ≢ []
    → (target : LinuxFanTarget) × (v : ℕ) × IsChosen id all target
      × (v ≤ 255)
      × ((set_fan_control_channel fault all id percent).1
          ≡ record { path = target.pwm_path; text = duty_text (pos v) } ∷ [])
unfolding set_fan_control_channel set_linux_fan_control_channel
channel_write_exact fault all id percent w =
    let h : validate_fan_percent percent ≡ ok tt = ground arith in
    let (v, d, l) = duty_in_range percent h in
    let (t, c, e) = write_channel_chooses fault (linux_fan_targets all) id percent (ground arith) in
    let text : duty_text (clamp_duty (duty percent)) ≡ duty_text (pos v) =
      ap duty_text (ap clamp_duty d ∙ clamp_small v l) in
    (
      t,
      v,
      record {
        discovered = discovered_of_supported all c.discovered;
        identified = c.identified;
        is_supported = c.is_supported;
      },
      l,
      ground arith,
    )
