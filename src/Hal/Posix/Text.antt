-- ===== src/Hal/Posix/Text.antt =====
-- hal/posix/vl_hal_posix.c: read_text_file, and the C string calls that the file uses.
use vecti_license.Base.{
  ℕ, zero, suc, ◌≤◌, ◌≡◌, refl, arith, inl, inr, Bool-cases, take_all, length-take,
}
use vecti_license.Base.{Bool, true, false, Option, none, some, List, []}
use vecti_license.Base.{◌==◌, ◌||◌, if◌then◌else◌, length, take, get_or}
pub use vecti_license.Base.Text.{starts_with, same_text}
use vecti_license.Hal.Posix.{Os}

-- '\n', '\r', ' ' and '\t'
abbrev pub is_trimmed : ℕ → Bool
is_trimmed c = c == 10 || (c == 13 || (c == 32 || c == 9))

-- while (n > 0 && ...) n--;
unfoldable pub trim_loop : ℕ → List ℕ → ℕ
trim_loop zero out = 0
trim_loop (suc n) out =
    let rest = trim_loop n out in if is_trimmed (get_or out n 0) then rest else suc n

-- What is left of the bytes that fread has filled in
abbrev pub trimmed : List ℕ → List ℕ
trimmed out = take (trim_loop (length out) out) out

-- read_text_file: the text in `out`, whose length is *out_len; `none` is -1.
unfoldable pub read_text_file : {W : Type 0} → Os W → List ℕ → ℕ → W → Option (List ℕ)
read_text_file os path cap w = read (os.read_file path w)
  where
    read : Option (List ℕ) → Option (List ℕ)
    read none = none
    read (some bytes) = some (trimmed (take cap bytes))

pub trim_loop-le : (n : ℕ) (out : List ℕ) → trim_loop n out ≤ n
unfolding trim_loop
trim_loop-le zero out = omega arith
trim_loop-le (suc n) out = elim (Bool-cases (is_trimmed (get_or out n 0))) [
  | inl blank ↦ rw blank (omega (arith, trim_loop-le n out))
  | inr kept ↦ rw kept (omega arith)
]

pub trimmed_nil : trimmed [] ≡ []
unfolding trim_loop
trimmed_nil = refl

-- A text that does not end in a blank is kept whole.
pub trimmed_whole :
    (out : List ℕ) (last : ℕ)
    → length out ≡ suc last
    → is_trimmed (get_or out last 0) ≡ false
    → trimmed out ≡ out
unfolding trim_loop
trimmed_whole out last size kept = rw (size, kept) (take_all (suc last) out (omega (arith, size)))

-- One that ends in a blank loses it.
pub trimmed_blank :
    (out : List ℕ) (last : ℕ)
    → length out ≡ suc last
    → is_trimmed (get_or out last 0) ≡ true
    → length (trimmed out) ≤ last
unfolding trim_loop
trimmed_blank out last size blank =
    rw (size, blank) (omega (arith, length-take (trim_loop last out) out, trim_loop-le last out))
