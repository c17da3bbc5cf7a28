-- ===== src/Util.antt =====
-- core/vl_util.c: the constant-time compare and the wipe.
-- A pointer to bytes is `none` for NULL, else the bytes from it on.
pub mod Equal
mod Tests
use vecti_license.Base.{ℕ, zero, suc, ◌+◌, ◌-◌, ◌*◌, ◌/◌, ◌%◌, ◌^◌, bit_and, bit_or, bit_xor}
use vecti_license.Base.{
  Option, none, some, List, [], ◌∷◌, ◌++◌, ◌==◌, if◌then◌else◌, drop, replicate,
}

-- vl_secure_wipe(p, len): what `p` points at afterwards
unfoldable pub secure_wipe : Option (List ℕ) → ℕ → Option (List ℕ)
secure_wipe none len = none
secure_wipe (some p) len = if len == 0 then some p else some (replicate len 0 ++ drop len p)

-- The loop over `i < len`, in a uint8_t `diff`. A caller has `len` bytes at both pointers: the last
-- clause, a read past the end of one, is excluded where the loop is reasoned about.
unfoldable pub diff_loop : ℕ → List ℕ → List ℕ → ℕ → ℕ
diff_loop zero pa pb diff = diff
diff_loop (suc n) (x ∷ pa) (y ∷ pb) diff =
    diff_loop n pa pb (bit_or diff (bit_xor x y % 2 ^ 8) % 2 ^ 8)
diff_loop (suc n) pa pb diff = diff

-- vl_ct_eq(a, b, len), in uint32_t arithmetic at the end
unfoldable pub ct_eq : Option (List ℕ) → Option (List ℕ) → ℕ → ℕ
ct_eq none b len = 0
ct_eq (some pa) none len = 0
ct_eq (some pa) (some pb) len =
    if len == 0 then 0 else bit_and ((diff_loop len pa pb 0 + 2 ^ 32 - 1) % 2 ^ 32 / 2 ^ 8) 1
