-- ===== src/Connection/Read.antt =====
-- readBoundedRequest of bridge_service/src/main.go: a request line read fragment by fragment.
pub mod Fragments
use hwcontrol.Base.{
  ℕ, suc, ◌+◌, ◌*◌, ◌≤◌, ◌<◌, Bool, true, false, ◌≡◌, List, [], ◌∷◌, ◌++◌, ltb, if◌then◌else◌,
  length,
}

-- What reader.ReadSlice('\n') returns: a fragment up to the line's end, a full buffer without one,
-- or the bytes before another error.
pub data Fragment : Type 0 where
  ended : List ℕ → Fragment
  buffer_full : List ℕ → Fragment
  broken : List ℕ → Fragment

pub data Line : Type 0 where
  read : List ℕ → Line
  too_large : Line
  failed : Line

abbrev pub max_request_bytes : ℕ
max_request_bytes = 64 * 1024

-- The loop, over the fragments that the reader returns. Where they end, the reader has blocked until
-- its deadline, which is an error.
unfoldable pub read_from : ℕ → List ℕ → List Fragment → Line
read_from limit line [] = Line.failed
read_from limit line (ended fragment ∷ rest) =
    if ltb limit (length (line ++ fragment)) then Line.too_large else Line.read (line ++ fragment)
read_from limit line (broken fragment ∷ rest) =
    if ltb limit (length (line ++ fragment)) then Line.too_large else Line.failed
read_from limit line (buffer_full fragment ∷ rest) =
    let next = read_from limit (line ++ fragment) rest in
    if ltb limit (length (line ++ fragment)) then Line.too_large else next

unfoldable pub read_bounded_request : ℕ → List Fragment → Line
unfolding read_from
read_bounded_request limit fragments = read_from limit [] fragments
