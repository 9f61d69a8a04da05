-- ===== src/Storage/Names.antt =====
-- Names of block devices: what storage.go and storage_health.go of bridge_service/src take apart with
-- strings.LastIndex, strings.TrimRight and strings.TrimSuffix.
use Prim.Native.Char.{code}
use hwcontrol.Base.{
  ℕ, String, Bool, not, ◌&&◌, ◌||◌, ◌≡◌, refl, ◌==◌, leb, Option, none, some, if◌then◌else◌, str_eq,
}
use hwcontrol.Text.Path.{has_prefix}

abbrev is_digit : ℕ → Bool
is_digit c = leb 48 c && leb c 57

-- strings.TrimRight(s, "0123456789")
unfoldable pub trim_digits : String → String
trim_digits String.[] = String.[]
trim_digits (String.◌∷◌ c s) =
    let rest = trim_digits s in
    if is_digit (code c) && str_eq rest "" then String.[] else String.◌∷◌ c rest

-- What stands before and after the last character of this code.
unfoldable pub cut_last : ℕ → String → Option (String × String)
cut_last d String.[] = none
cut_last d (String.◌∷◌ c s) = elim (cut_last d s) [
  | none ↦ if code c == d then some ("", s) else none
  | some (before, after) ↦ some (String.◌∷◌ c before, after)
]

-- strings.TrimSuffix(s, "/")
unfoldable pub trim_slash : String → String
trim_slash String.[] = String.[]
trim_slash (String.◌∷◌ c s) =
    let rest = trim_slash s in
    if code c == b'/' && str_eq s "" then String.[] else String.◌∷◌ c rest

-- The parts around the last 'p' of a name, where both have a character.
abbrev both_parts : Option (String × String) → Option (String × String)
both_parts none = none
both_parts (some (before, after)) =
    if not (str_eq before "") && not (str_eq after "") then some (before, after) else none

unfoldable pub partition_parts : String → Option (String × String)
unfolding cut_last
partition_parts name = both_parts (cut_last b'p' name)

-- Names that put a 'p' before the number of a partition.
unfoldable pub has_p_suffix : String → Bool
unfolding has_prefix
has_p_suffix name = has_prefix name "nvme" || has_prefix name "mmcblk"

partition_test : partition_parts "nvme0n1p2" ≡ some ("nvme0n1", "2")
unfolding partition_parts
partition_test = refl

trim_test : trim_digits "sda12" ≡ "sda"
unfolding trim_digits
trim_test = refl
