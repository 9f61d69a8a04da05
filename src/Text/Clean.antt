-- ===== src/Text/Clean.antt =====
-- filepath.Clean, Dir, Join and Rel of Go's standard library, on a system whose separator is '/'.
use Prim.Native.Char.{Char, code}
use hwcontrol.Base.{
  ℕ, String, ◌≡◌, refl, Bool, false, not, ◌&&◌, ◌||◌, ◌==◌, List, [], ◌∷◌, if◌then◌else◌, str_eq,
}
use hwcontrol.Base.Result.{Result, ok, err}
use hwcontrol.Command.{◌<>◌}

-- The first element of a path, put in front of the others.
abbrev in_front : Char → List String → List String
in_front c [] = String.◌∷◌ c "" ∷ []
in_front c (p ∷ ps) = String.◌∷◌ c p ∷ ps

-- strings.Split at one character, given by its code: the pieces, empty ones included.
unfoldable pub split : ℕ → String → List String
split separator String.[] = "" ∷ []
split separator (String.◌∷◌ c s) =
    let rest = split separator s in if code c == separator then "" ∷ rest else in_front c rest

-- The elements between the separators, empty ones included.
unfoldable pub elements : String → List String
unfolding split
elements = split b'/'

abbrev pub is_rooted : String → Bool
is_rooted String.[] = false
is_rooted (String.◌∷◌ c s) = code c == b'/'

-- ".." takes back the last element, if it is a name; at the root it is dropped.
abbrev back : Bool → List String → List String
back rooted [] = if rooted then [] else ".." ∷ []
back rooted (last ∷ kept) = if str_eq last ".." then ".." ∷ last ∷ kept else kept

-- `kept` holds the elements kept so far, the last one first.
unfoldable pub keep_elements : Bool → List String → List String → List String
keep_elements rooted kept [] = kept
keep_elements rooted kept (p ∷ ps) =
    let skipped = keep_elements rooted kept ps in
    let taken_back = keep_elements rooted (back rooted kept) ps in
    let pushed = keep_elements rooted (p ∷ kept) ps in
    if str_eq p "" || str_eq p "." then skipped else if str_eq p ".." then taken_back else pushed

unfoldable pub joined : List String → String
joined [] = ""
joined (p ∷ []) = p
joined (p ∷ q ∷ ps) = p <> "/" <> joined (q ∷ ps)

unfoldable onto : List String → List String → List String
onto [] out = out
onto (p ∷ ps) out = onto ps (p ∷ out)

-- The elements of a cleaned path, in order.
unfoldable pub clean_elements : String → List String
unfolding elements keep_elements onto
clean_elements path = onto (keep_elements (is_rooted path) [] (elements path)) []

abbrev or_dot : String → String
or_dot s = if str_eq s "" then "." else s

unfoldable pub clean : String → String
unfolding clean_elements joined
clean path =
    let text = joined (clean_elements path) in if is_rooted path then "/" <> text else or_dot text

-- filepath.Join of two elements.
unfoldable pub join : String → String → String
unfolding clean
join a b = if str_eq a "" then (if str_eq b "" then "" else clean b) else clean (a <> "/" <> b)

-- What follows the last separator is dropped, then the rest is cleaned.
abbrev without_last : List String → List String
without_last [] = []
without_last (p ∷ ps) = ps

unfoldable pub dir : String → String
unfolding elements onto joined clean
dir path = clean (
    (if is_rooted path then "/" else "")
    <> joined (onto (without_last (onto (elements path) [])) []))

-- One ".." for each element.
unfoldable pub climb : List String → List String → List String
climb [] target = target
climb (p ∷ ps) target = ".." ∷ climb ps target

-- From the elements of the base to the elements of the target.
unfoldable pub rel_elements : List String → List String → Result (List String)
unfolding climb
rel_elements [] target = ok target
rel_elements (p ∷ ps) [] =
    if str_eq p ".." then err "can't make path relative" else ok (climb (p ∷ ps) [])
rel_elements (p ∷ ps) (q ∷ qs) =
    let rest = rel_elements ps qs in
    if str_eq p q
    then rest
    else if str_eq p ".."
    then err "can't make path relative"
    else ok (climb (p ∷ ps) (q ∷ qs))

abbrev relative_text : Result (List String) → Result String
relative_text (err message) = err message
relative_text (ok ps) = ok (or_dot (joined ps))

-- Of the base alone, "." counts as no element.
unfoldable pub target_elements : String → List String
unfolding clean clean_elements
target_elements target = if str_eq (clean target) "." then "." ∷ [] else clean_elements target

unfoldable pub rel : String → String → Result String
unfolding clean clean_elements target_elements rel_elements joined
rel base target =
    let from_base = relative_text (rel_elements (clean_elements base) (target_elements target)) in
    if str_eq (clean target) (clean base)
    then ok "."
    else if (is_rooted base && not (is_rooted target)) || (not (is_rooted base) && is_rooted target)
    then err "can't make path relative"
    else from_base

clean_test : clean "/opt//hw/./x/../bridge/" ≡ "/opt/hw/bridge"
unfolding clean
clean_test = refl

clean_empty : clean "" ≡ "."
unfolding clean
clean_empty = refl

dir_test : dir "/opt/hw/bridge" ≡ "/opt/hw"
unfolding dir
dir_test = refl

rel_test : rel "/opt/hw" "/opt/hw/lib/a.so" ≡ ok "lib/a.so"
unfolding rel
rel_test = refl
