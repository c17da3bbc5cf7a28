-- ===== src/Hal.antt =====
-- hal/: the identity and storage that the platforms supply. What the parts share: a callback's
-- answer is its status, the output buffer after the call, and *out_len after it.
pub mod Single
pub mod Stm32
pub mod Nxp
pub mod Rp2040
pub mod Esp32
pub mod Posix
pub mod None
use vecti_license.Base.{ℕ, List, [], ◌∷◌, bit_and, bit_or}
use vecti_license.Api.{Status, Segment}

-- What time(NULL) returns
pub data Time : Type 0 where
  before_epoch since_epoch : ℕ → Time

abbrev pub Answer : Type 0
Answer = Status × List ℕ × ℕ

-- for (i = 0; i < n; i++) any |= p[i];
abbrev pub or_all : List ℕ → ℕ → ℕ
or_all [] any = any
or_all (x ∷ p) any = or_all p (bit_or any x)

-- for (i = 0; i < n; i++) all &= p[i];
abbrev pub and_all : List ℕ → ℕ → ℕ
and_all [] all = all
and_all (x ∷ p) all = and_all p (bit_and all x)

-- A callback over memory that is not the world's: vl_compute_fingerprint calls it with the buffer
-- as it stands, here `before`, and with *out_len at 0.
abbrev pub reader : {W : Type 0} → (ℕ → ℕ → List ℕ → ℕ → Answer) → List ℕ → ℕ → ℕ → W → Segment × W
reader read before idx cap w =
    let (st, out, len) = read idx cap before 0 in
    (record { status = st; bytes = out; len = len }, w)
