-- ===== src/Text/Json.antt =====
-- How encoding/json writes a string: quoted, with the characters escaped that it escapes.
use Prim.Native.Char.{Char, code}
use hwcontrol.Base.{ℕ, String, ◌≡◌, refl, ◌||◌, ltb, ◌==◌, [], ◌∷◌, if◌then◌else◌}
use hwcontrol.Command.{◌<>◌}
use hwcontrol.Text.Hex

-- \u00XX
abbrev unicode_escape : ℕ → String
unicode_escape c = "\\u00" <> Hex.encode (c ∷ [])

abbrev escaped : Char → String
escaped c =
    if code c == 34
    then "\\\""
    else if code c == 92
    then "\\\\"
    else if code c == 8
    then "\\b"
    else if code c == 12
    then "\\f"
    else if code c == 10
    then "\\n"
    else if code c == 13
    then "\\r"
    else if code c == 9
    then "\\t"
    else if ltb (code c) 32 || code c == 60 || code c == 62 || code c == 38
    then unicode_escape (code c)
    else if code c == 0x2028
    then "\\u2028"
    else if code c == 0x2029
    then "\\u2029"
    else String.◌∷◌ c ""

unfoldable pub escape_text : String → String
unfolding Hex.encode
escape_text String.[] = ""
escape_text (String.◌∷◌ c s) = escaped c <> escape_text s

abbrev pub quote : String → String
quote s = "\"" <> escape_text s <> "\""

quote_test : quote "a\"<b" ≡ "\"a\\\"\\u003cb\""
unfolding escape_text
quote_test = refl
