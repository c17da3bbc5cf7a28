-- ===== src/Hal/Posix.antt =====
-- hal/posix/vl_hal_posix.c; MacOs has the identity of macOS, the rest is Linux or shared. The calls of
-- the C library are a parameter: `Os` is what they read from and do to the world `W`. A path or a name
-- is the list of its characters. g_ctx, which read_id_segment changes, is carried beside the world.
pub mod Text
pub mod Interfaces
pub mod Segments
pub mod State
pub mod Lines
pub mod Stored
pub mod Reading
pub mod Identity
pub mod MacOs
mod Tests
use vecti_license.Base.{ℕ, Bool, Option, List}
use vecti_license.Hal.{Time}

-- The calls of the C library
pub record Os (W : Type 0) : Type 0 where
  -- fopen(path, "rb") and the whole of the file, `none` if it cannot be opened
  pub read_file : List ℕ → W → Option (List ℕ)
  -- opendir(path) and the names that readdir yields, in its order
  pub list_dir : List ℕ → W → Option (List (List ℕ))
  -- fopen(path, "wb"), fwrite and fclose: `none` if it cannot be opened, else the number of bytes
  -- written and whether the file was closed without an error
  pub write_file : List ℕ → List ℕ → W → Option (ℕ × Bool) × W
  pub time : W → Time

-- vl_posix_ctx_t, as the texts before the NUL of its arrays
pub record PosixCtx : Type 0 where
  pub iface : List ℕ
  pub state : List ℕ
