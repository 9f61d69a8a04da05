-- ===== src/Text/Base64.antt =====
-- base64.RawURLEncoding.DecodeString: the URL alphabet without padding; line breaks are skipped.
use Prim.Native.Char.{code}
use hwcontrol.Base.{
  ℕ, ◌+◌, ◌-◌, ◌*◌, ◌/◌, ◌%◌, String, ◌≡◌, refl, ◌&&◌, ◌||◌, ◌==◌, leb, Option, none, some, List,
  [], ◌∷◌, if◌then◌else◌,
}

sextet : ℕ → Option ℕ
sextet c =
    if leb 65 c && leb c 90
    then some (c - 65)
    else if leb 97 c && leb c 122
    then some (c - 71)
    else if leb 48 c && leb c 57
    then some (c + 4)
    else if c == 45
    then some 62
    else if c == 95
    then some 63
    else none

-- The sextets of the text; none at a character outside the alphabet.
sextets : String → Option (List ℕ)
unfolding sextet
sextets String.[] = some []
sextets (String.◌∷◌ c s) =
    let rest = sextets s in
    if code c == 10 || code c == 13 then rest else elim (sextet (code c)) [
      | none ↦ none
      | some v ↦ elim rest [ none ↦ none | some vs ↦ some (v ∷ vs) ]
    ]

bytes : List ℕ → Option (List ℕ)
bytes [] = some []
bytes (a ∷ []) = none
bytes (a ∷ b ∷ []) = some ((a * 4 + b / 16) ∷ [])
bytes (a ∷ b ∷ c ∷ []) = some ((a * 4 + b / 16) ∷ (b % 16 * 16 + c / 4) ∷ [])
bytes (a ∷ b ∷ c ∷ d ∷ rest) = elim (bytes rest) [
  | none ↦ none
  | some bs ↦ some ((a * 4 + b / 16) ∷ (b % 16 * 16 + c / 4) ∷ (c % 4 * 64 + d) ∷ bs)
]

unfoldable pub decode : String → Option (List ℕ)
unfolding sextets bytes
decode s = elim (sextets s) [ none ↦ none | some vs ↦ bytes vs ]

decode_test : decode "eyJhIjowfQ" ≡ some (123 ∷ 34 ∷ 97 ∷ 34 ∷ 58 ∷ 48 ∷ 125 ∷ [])
unfolding decode
decode_test = refl
