-- ===== src/Collect/Hottest.antt =====
-- The hottest GPU: maxNvidiaGPUTemperature of bridge_service/src/main.go.
use mathlib.Core.Bool.{false≢true}
use hwcontrol.Base.{
  ◌⊎◌, sym, ◌∙◌, ℕ, String, Bool, true, false, not, ◌&&◌, ◌≡◌, refl, inl, inr, List, [], ◌∷◌,
  Option, none, some, arith, all, Bool-cases,
}
use hwcontrol.Float
use hwcontrol.Float.{Float64, finite, nan, inf}
use hwcontrol.Text.Clean.{split}
use hwcontrol.Collect.{usable}
use hwcontrol.Collect.Control.{
  higher, take_reading, max_reading, readings, max_nvidia_gpu_temperature,
}

-- A maximum that is usable where there is one.
abbrev pub IsUsable : Option Float64 → Type 0
IsUsable none = Unit
IsUsable (some v) = usable v ≡ true

higher-IsUsable :
    (v : Float64) (o : Option Float64) → usable v ≡ true → IsUsable o → IsUsable (higher v o)
higher-IsUsable v none u h = u
higher-IsUsable v (some x) u h = elim (Bool-cases (Float.lt x v)) [
  | inl l ↦ rw l u
  | inr l ↦ rw l h
]

take_reading-IsUsable : (r o : Option Float64) → IsUsable o → IsUsable (take_reading r o)
take_reading-IsUsable none o h = h
take_reading-IsUsable (some v) o h = elim (Bool-cases (usable v)) [
  | inl u ↦ rw u (higher-IsUsable v o u h)
  | inr u ↦ rw u h
]

pub max_reading-IsUsable :
    (rs : List (Option Float64)) (o : Option Float64) → IsUsable o → IsUsable (max_reading rs o)
unfolding max_reading
max_reading-IsUsable [] o h = h
max_reading-IsUsable (r ∷ rs) o h =
    max_reading-IsUsable rs (take_reading r o) (take_reading-IsUsable r o h)

-- A reading does not exceed the maximum, if it is one that counts.
abbrev pub covers : Option Float64 → Option Float64 → Bool
covers highest none = true
covers none (some value) = not (usable value)
covers (some highest) (some value) = not (usable value && Float.lt highest value)

finite_of_usable : (x : Float64) → usable x ≡ true → (s : Bool) × (n : ℕ) × (x ≡ finite s n)
unfolding usable
finite_of_usable nan u = absurd (false≢true u)
finite_of_usable (inf s) u = absurd (false≢true u)
finite_of_usable (finite s n) u = (s, n, refl)

-- On finite values the order is total.
below_of_below :
    (s t w : Bool) (m x v : ℕ)
    → Float.lt (finite t x) (finite w v) ≡ true
    → Float.lt (finite s m) (finite w v) ≡ false
    → Float.lt (finite s m) (finite t x) ≡ false
unfolding Float.lt
below_of_below s t w m x v h k = ground arith

not_below_trans :
    (s t w : Bool) (m x v : ℕ)
    → Float.lt (finite t x) (finite w v) ≡ false
    → Float.lt (finite s m) (finite t x) ≡ false
    → Float.lt (finite s m) (finite w v) ≡ false
unfolding Float.lt
not_below_trans s t w m x v h k = ground arith

-- What a new maximum covers: the reading and the maximum before it.
covers_higher :
    (m x v : Float64)
    → usable m ≡ true
    → usable x ≡ true
    → usable v ≡ true
    → Float.lt m x ≡ false
    → Float.lt x v ≡ false
    → Float.lt m v ≡ false
covers_higher m x v um ux uv k l =
    let (s, a, em) = finite_of_usable m um in
    let (t, b, ex) = finite_of_usable x ux in
    let (w, c, ev) = finite_of_usable v uv in
    rw (em, ev) (not_below_trans s t w a b c (rw (ex, ev) at l) (rw (em, ex) at k))

covers_lower :
    (m x v : Float64)
    → usable m ≡ true
    → usable x ≡ true
    → usable v ≡ true
    → Float.lt x v ≡ true
    → Float.lt m v ≡ false
    → Float.lt m x ≡ false
covers_lower m x v um ux uv l k =
    let (s, a, em) = finite_of_usable m um in
    let (t, b, ex) = finite_of_usable x ux in
    let (w, c, ev) = finite_of_usable v uv in
    rw (em, ex) (below_of_below s t w a b c (rw (ex, ev) at l) (rw (em, ev) at k))

and_no : (b : Bool) → not (b && false) ≡ true
and_no b = ground arith

irrefl_finite : (s : Bool) (n : ℕ) → Float.lt (finite s n) (finite s n) ≡ false
unfolding Float.lt
irrefl_finite s n = ground arith

irrefl : (x : Float64) → usable x ≡ true → Float.lt x x ≡ false
irrefl x u = let (s, n, e) = finite_of_usable x u in rw e (irrefl_finite s n)

not_below : (m v : Float64) → Float.lt m v ≡ false → covers (some m) (some v) ≡ true
not_below m v k = rw k (and_no (usable v))

of_covers :
    (m v : Float64) → usable v ≡ true → covers (some m) (some v) ≡ true → Float.lt m v ≡ false
of_covers m v u c = elim (Bool-cases (Float.lt m v)) [
  | inl l ↦ absurd (false≢true (rw (u, l) at c))
  | inr l ↦ l
]

uncounted : (v : Float64) (top : Option Float64) → usable v ≡ false → covers top (some v) ≡ true
uncounted v none u = rw u refl
uncounted v (some m) u = rw u refl

not_empty : (v : Float64) → usable v ≡ true → covers none (some v) ≡ true → {A : Type 0} → A
not_empty v u c = absurd (false≢true (rw u at c))

lower_covered :
    (v x : Float64) (top : Option Float64)
    → usable v ≡ true
    → usable x ≡ true
    → IsUsable top
    → Float.lt x v ≡ true
    → covers top (some v) ≡ true
    → covers top (some x) ≡ true
lower_covered v x none u ux ut l c = not_empty v u c
lower_covered v x (some m) u ux ut l c =
    not_below m x (covers_lower m x v ut ux u l (of_covers m v u c))

higher_covered :
    (v x : Float64) (top : Option Float64)
    → usable v ≡ true
    → usable x ≡ true
    → IsUsable top
    → Float.lt x v ≡ false
    → covers top (some x) ≡ true
    → covers top (some v) ≡ true
higher_covered v x none u ux ut l c = not_empty x ux c
higher_covered v x (some m) u ux ut l c =
    not_below m v (covers_higher m x v ut ux u (of_covers m x ux c) l)

take_covers :
    (r o top : Option Float64)
    → IsUsable o
    → IsUsable top
    → covers top (take_reading r o) ≡ true
    → (covers top r ≡ true) × (covers top o ≡ true)
take_covers none o top uo ut c = (refl, c)
take_covers (some v) none top uo ut c = elim (Bool-cases (usable v)) [
  | inl u ↦ (rw u at c, refl)
  | inr u ↦ (uncounted v top u, refl)
]
take_covers (some v) (some x) top uo ut c = elim (Bool-cases (usable v)) [
  | inr u ↦ (uncounted v top u, rw u at c)
  | inl u ↦ elim (Bool-cases (Float.lt x v)) [
    | inl l ↦ let c' = rw (u, l) at c in (c', lower_covered v x top u uo ut l c')
    | inr l ↦ let c' = rw (u, l) at c in (higher_covered v x top u uo ut l c', c')
  ]
]

max_reading-covers :
    (rs : List (Option Float64)) (o : Option Float64)
    → IsUsable o
    → (all (covers (max_reading rs o)) rs ≡ true) × (covers (max_reading rs o) o ≡ true)
unfolding max_reading
max_reading-covers [] none u = (refl, refl)
max_reading-covers [] (some x) u = (refl, not_below x x (irrefl x u))
max_reading-covers (r ∷ rs) o u =
    let ut = take_reading-IsUsable r o u in
    let rest = max_reading-covers rs (take_reading r o) ut in
    let here = take_covers r o _ u (max_reading-IsUsable rs (take_reading r o) ut) rest.1 in
    (rw here.0 rest.0, here.1)

-- The value is one of the readings.
abbrev pub IsAmong : Float64 → List (Option Float64) → Type 0
IsAmong v [] = ⊥
IsAmong v (r ∷ rs) = (r ≡ some v) ⊎ IsAmong v rs

abbrev pub IsReading : Option Float64 → List (Option Float64) → Type 0
IsReading none rs = Unit
IsReading (some v) rs = IsAmong v rs

take_reading_cases : (r o : Option Float64) → (take_reading r o ≡ r) ⊎ (take_reading r o ≡ o)
take_reading_cases none o = inr refl
take_reading_cases (some v) none = elim (Bool-cases (usable v)) [
  | inl u ↦ inl (rw u refl)
  | inr u ↦ inr (rw u refl)
]
take_reading_cases (some v) (some x) = elim (Bool-cases (usable v)) [
  | inr u ↦ inr (rw u refl)
  | inl u ↦ elim (Bool-cases (Float.lt x v)) [
    | inl l ↦ inl (rw (u, l) refl)
    | inr l ↦ inr (rw (u, l) refl)
  ]
]

max_reading_origin :
    (rs : List (Option Float64)) (o : Option Float64) (v : Float64)
    → max_reading rs o ≡ some v
    → (o ≡ some v) ⊎ IsAmong v rs
unfolding max_reading
max_reading_origin [] o v h = inl h
max_reading_origin (r ∷ rs) o v h = elim (max_reading_origin rs (take_reading r o) v h) [
  | inr later ↦ inr (inr later)
  | inl here ↦ elim (take_reading_cases r o) [
    | inl e ↦ inr (inl (sym e ∙ here))
    | inr e ↦ inl (sym e ∙ here)
  ]
]

max_reading-IsReading : (rs : List (Option Float64)) → IsReading (max_reading rs none) rs
max_reading-IsReading rs = go (max_reading rs none) refl
  where
    go : (o : Option Float64) → max_reading rs none ≡ o → IsReading o rs
    go none h = tt
    go (some v) h = elim (max_reading_origin rs none v h) [ inl e ↦ cc | inr a ↦ a ]

-- The temperature that maxNvidiaGPUTemperature reports is one of the readings and usable, and no usable reading of
-- a line of the output exceeds it; it reports none only if no line has a usable reading.
pub hottest_gpu_reported :
    (parse_float : String → Option Float64) (output : String)
    → IsReading
        (max_nvidia_gpu_temperature parse_float output)
        (readings parse_float (split b'\n' output))
      × IsUsable (max_nvidia_gpu_temperature parse_float output)
      × (all
            (covers (max_nvidia_gpu_temperature parse_float output))
            (readings parse_float (split b'\n' output))
          ≡ true)
unfolding max_nvidia_gpu_temperature
hottest_gpu_reported parse_float output =
    let lines = readings parse_float (split b'\n' output) in
    (
      max_reading-IsReading lines,
      max_reading-IsUsable lines none tt,
      (max_reading-covers lines none tt).0,
    )
