-- ===== src/Text/Path.antt =====
-- filepath.Base on a system whose separator is '/', and strings.TrimPrefix.
use Prim.Native.Char.{code}
use hwcontrol.Base.{
  String, ◌≡◌, refl, Bool, true, false, ◌&&◌, ◌==◌, Option, none, some, if◌then◌else◌, str_eq,
}

unfoldable pub trim_slashes : String → String
trim_slashes String.[] = String.[]
trim_slashes (String.◌∷◌ c s) =
    let rest = trim_slashes s in
    if code c == b'/' && str_eq rest "" then String.[] else String.◌∷◌ c rest

-- What follows the last '/', or the whole text.
has_slash : String → Bool
has_slash String.[] = false
has_slash (String.◌∷◌ c s) = let rest = has_slash s in if code c == b'/' then true else rest

unfoldable pub after_slash : String → String
unfolding has_slash
after_slash String.[] = String.[]
after_slash (String.◌∷◌ c s) =
    let rest = after_slash s in
    if has_slash s then rest else if code c == b'/' then s else String.◌∷◌ c s

unfoldable pub base : String → String
unfolding trim_slashes after_slash
base path =
    if str_eq path ""
    then "."
    else let trimmed = trim_slashes path in if str_eq trimmed "" then "/" else after_slash trimmed

-- The rest of a text behind a prefix, if it has it.
cut : String → String → Option String
cut s String.[] = some s
cut String.[] (String.◌∷◌ d p) = none
cut (String.◌∷◌ c s) (String.◌∷◌ d p) = let r = cut s p in if code c == code d then r else none

unfoldable pub has_prefix : String → String → Bool
unfolding cut
has_prefix s p = elim (cut s p) [ none ↦ false | some r ↦ true ]

unfoldable pub trim_prefix : String → String → String
unfolding cut
trim_prefix s p = elim (cut s p) [ none ↦ s | some r ↦ r ]

base_test : trim_prefix (base "/sys/class/hwmon/hwmon0/pwm2") "pwm" ≡ "2"
unfolding base trim_prefix
base_test = refl
