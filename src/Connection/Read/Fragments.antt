-- ===== src/Connection/Read/Fragments.antt =====
-- readBoundedRequest of bridge_service/src/main.go against the line as a whole.
use mathlib.Core.List.{append_assoc}
use hwcontrol.Base.{
  ℕ, true, ◌≡◌, refl, sym, ap, ◌∙◌, List, [], ◌∷◌, ◌++◌, ltb, length, length-append, arith,
  Bool-cases, inl, inr, if◌then◌else◌,
}
use hwcontrol.Connection.Read.{Fragment, Line, read_from, read_bounded_request}

-- A line as the buffered reader hands it out: full buffers, then the rest.
abbrev pub fragments : List (List ℕ) → List ℕ → List Fragment
fragments [] tail = Fragment.ended tail ∷ []
fragments (full ∷ rest) tail = Fragment.buffer_full full ∷ fragments rest tail

abbrev pub joined : List (List ℕ) → List ℕ → List ℕ
joined [] tail = tail
joined (full ∷ rest) tail = full ++ joined rest tail

abbrev pub bounded : ℕ → List ℕ → Line
bounded limit line = if ltb limit (length line) then Line.too_large else Line.read line

too_long :
    (limit : ℕ) (xs ys : List ℕ)
    → ltb limit (length xs) ≡ true
    → bounded limit (xs ++ ys) ≡ Line.too_large
too_long limit xs ys h = ground (arith, length-append xs ys)

read_from-fragments :
    (limit : ℕ) (line : List ℕ) (full : List (List ℕ)) (tail : List ℕ)
    → read_from limit line (fragments full tail) ≡ bounded limit (line ++ joined full tail)
unfolding read_from
read_from-fragments limit line [] tail = refl
read_from-fragments limit line (f ∷ full) tail =
    elim (Bool-cases (ltb limit (length (line ++ f)))) [
      | inl h ↦ rw h (
          sym (too_long limit (line ++ f) (joined full tail) h)
          ∙ ap (bounded limit) (append_assoc line f (joined full tail)))
      | inr h ↦ rw h (
          read_from-fragments limit (line ++ f) full tail
          ∙ ap (bounded limit) (append_assoc line f (joined full tail)))
    ]

-- However the buffer cuts a line, reading it gives the whole line if it has at most `limit` bytes,
-- and the too-large error otherwise.
pub read_line_within_limit :
    (limit : ℕ) (full : List (List ℕ)) (tail : List ℕ)
    → read_bounded_request limit (fragments full tail) ≡ bounded limit (joined full tail)
unfolding read_bounded_request
read_line_within_limit limit full tail = read_from-fragments limit [] full tail
