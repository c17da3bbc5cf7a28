-- ===== src/Hal/Posix/Lines.antt =====
-- hal/posix/vl_hal_posix.c: the loop over the lines of /proc/cpuinfo comes to its end.
use vecti_license.Base.{
  ℕ, zero, suc, ◌≤◌, ◌≡◌, refl, arith, inl, inr, Bool-cases, Option-cases, List, [], ◌∷◌, length,
  ◌==◌, some, none,
}
use vecti_license.Hal.Posix.Segments.{fgets, before_nul, serial_line, serial_loop}

fgets-shortens : (room : ℕ) (file : List ℕ) → length (fgets room file).1 ≤ length file
unfolding fgets
fgets-shortens zero file = omega arith
fgets-shortens (suc room) [] = omega arith
fgets-shortens (suc room) (c ∷ file) = elim (Bool-cases (c == 10)) [
  | inl e ↦ rw e (omega arith)
  | inr e ↦ rw e (omega (arith, fgets-shortens room file))
]

-- A line takes a character at least.
fgets-takes : (room c : ℕ) (file : List ℕ) → length (fgets (suc room) (c ∷ file)).1 ≤ length file
unfolding fgets
fgets-takes room c file = elim (Bool-cases (c == 10)) [
  | inl e ↦ rw e (omega arith)
  | inr e ↦ rw e (fgets-shortens room file)
]

-- The runs of the C loop, without fuel: `Runs cap n file value` is a run of `n` calls of fgets that
-- return a line, from the position where `file` is left. It leaves `value` in `out`, and is over by
-- the end of the file or by `break`.
pub data Runs (cap : ℕ) : ℕ → List ℕ → List ℕ → Type 0 where
  at_end : Runs cap 0 [] []
  breaks :
      (c : ℕ) (file value : List ℕ)
      → serial_line cap (before_nul (fgets 255 (c ∷ file)).0) ≡ some value
      → Runs cap 1 (c ∷ file) value
  continues :
      (n c : ℕ) (file value : List ℕ)
      → serial_line cap (before_nul (fgets 255 (c ∷ file)).0) ≡ none
      → Runs cap n (fgets 255 (c ∷ file)).1 value
      → Runs cap (suc n) (c ∷ file) value

-- A run is the only one from its position.
Runs-unique :
    (cap : ℕ) {n m : ℕ} {file value other : List ℕ}
    → Runs cap n file value
    → Runs cap m file other
    → value ≡ other
Runs-unique cap at_end at_end = refl
Runs-unique cap (breaks c file v e) (breaks c' file' w f) = cc
Runs-unique cap (breaks c file v e) (continues m c' file' w f q) = cc
Runs-unique cap (continues n c file v e r) (breaks c' file' w f) = cc
Runs-unique cap (continues n c file v e r) (continues m c' file' w f q) = Runs-unique cap r q

serial_loop-Runs :
    (fuel cap : ℕ) (file : List ℕ)
    → length file ≤ fuel
    → (n : ℕ) × (n ≤ length file) × Runs cap n file (serial_loop fuel cap file)
unfolding serial_loop
serial_loop-Runs zero cap [] h = (0, omega arith, at_end)
serial_loop-Runs (suc fuel) cap [] h = (0, omega arith, at_end)
serial_loop-Runs zero cap (c ∷ file) h = absurd (omega arith)
serial_loop-Runs (suc fuel) cap (c ∷ file) h =
    let takes = fgets-takes 254 c file in
    let rest = (fgets 255 (c ∷ file)).1 in
    let (n, short, run) = serial_loop-Runs fuel cap rest (omega arith) in
    elim (Option-cases (serial_line cap (before_nul (fgets 255 (c ∷ file)).0))) [
      | inl e ↦ (suc n, omega arith, rw (e, serial_loop) (continues n c file _ e run))
      | inr (value, e) ↦ (1, omega arith, rw (e, serial_loop) (breaks c file value e))
    ]

-- The loop over the lines of /proc/cpuinfo, which has no bound in the source, is over after at most
-- as many lines as the file has characters: there is a finite run, to the end of the file or to a
-- serial. With the length of the file as fuel, or more, the model computes what this run leaves, and
-- no run leaves anything else.
pub serial_loop_ends :
    (fuel cap : ℕ) (file : List ℕ)
    → length file ≤ fuel
    → ((n : ℕ) × (n ≤ length file) × Runs cap n file (serial_loop fuel cap file))
      × ((n : ℕ) (value : List ℕ) → Runs cap n file value → value ≡ serial_loop fuel cap file)
serial_loop_ends fuel cap file h =
    let (n, short, run) = serial_loop-Runs fuel cap file h in
    ((n, short, run), λ m value other. Runs-unique cap other run)
