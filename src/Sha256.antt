-- ===== src/Sha256.antt =====
-- core/vl_sha256.c and vl_sha256.h: SHA-256, with the buffering of `Hash`.
-- `Ctx.count` is the context's `bit_count`. A NULL pointer is `none`.
pub mod Digest
mod Tests
use vecti_license.Base.{
  ℕ, zero, suc, ◌+◌, ◌-◌, ◌*◌, ◌/◌, ◌%◌, ◌^◌, bit_and, bit_or, bit_xor, List, [], ◌∷◌,
}
use vecti_license.Base.{◌++◌, length, get_or, take, drop, replicate, Option, none, some}
use vecti_license.Hash.{
  Ctx, Words, words_list, load_words, store_words, length_field, absorb, close,
}

-- VL_SHA256_BLOCK_LEN
abbrev pub block_len : ℕ
block_len = 64

-- The offset of the length field in the last block
abbrev pub limit : ℕ
limit = 56

-- K256
abbrev k256 : List ℕ
k256 =
    0x428a2f98 ∷ 0x71374491 ∷ 0xb5c0fbcf ∷ 0xe9b5dba5 ∷ 0x3956c25b ∷ 0x59f111f1 ∷ 0x923f82a4
    ∷ 0xab1c5ed5 ∷ 0xd807aa98 ∷ 0x12835b01 ∷ 0x243185be ∷ 0x550c7dc3 ∷ 0x72be5d74 ∷ 0x80deb1fe
    ∷ 0x9bdc06a7 ∷ 0xc19bf174 ∷ 0xe49b69c1 ∷ 0xefbe4786 ∷ 0x0fc19dc6 ∷ 0x240ca1cc ∷ 0x2de92c6f
    ∷ 0x4a7484aa ∷ 0x5cb0a9dc ∷ 0x76f988da ∷ 0x983e5152 ∷ 0xa831c66d ∷ 0xb00327c8 ∷ 0xbf597fc7
    ∷ 0xc6e00bf3 ∷ 0xd5a79147 ∷ 0x06ca6351 ∷ 0x14292967 ∷ 0x27b70a85 ∷ 0x2e1b2138 ∷ 0x4d2c6dfc
    ∷ 0x53380d13 ∷ 0x650a7354 ∷ 0x766a0abb ∷ 0x81c2c92e ∷ 0x92722c85 ∷ 0xa2bfe8a1 ∷ 0xa81a664b
    ∷ 0xc24b8b70 ∷ 0xc76c51a3 ∷ 0xd192e819 ∷ 0xd6990624 ∷ 0xf40e3585 ∷ 0x106aa070 ∷ 0x19a4c116
    ∷ 0x1e376c08 ∷ 0x2748774c ∷ 0x34b0bcb5 ∷ 0x391c0cb3 ∷ 0x4ed8aa4a ∷ 0x5b9cca4f ∷ 0x682e6ff3
    ∷ 0x748f82ee ∷ 0x78a5636f ∷ 0x84c87814 ∷ 0x8cc70208 ∷ 0x90befffa ∷ 0xa4506ceb ∷ 0xbef9a3f7
    ∷ 0xc67178f2 ∷ []

-- uint32_t addition, complement and rotation
abbrev add32 : ℕ → ℕ → ℕ
add32 x y = (x + y) % 2 ^ 32

abbrev not32 : ℕ → ℕ
not32 x = 2 ^ 32 - 1 - x

rotr32 : ℕ → ℕ → ℕ
rotr32 x n = bit_or (x / 2 ^ n) (x * 2 ^ (32 - n) % 2 ^ 32)

xor_three : ℕ → ℕ → ℕ → ℕ
xor_three x y z = bit_xor (bit_xor x y) z

-- The message schedule: `w` is built up from index 16 on, `left` entries to come.
schedule : ℕ → List ℕ → List ℕ
schedule zero w = w
schedule (suc left) w =
    let i = length w in
    let a = get_or w (i - 15) 0 in
    let b = get_or w (i - 2) 0 in
    let s0 = xor_three (rotr32 a 7) (rotr32 a 18) (a / 2 ^ 3) in
    let s1 = xor_three (rotr32 b 17) (rotr32 b 19) (b / 2 ^ 10) in
    schedule left (w ++ add32 (add32 (add32 (get_or w (i - 16) 0) s0) (get_or w (i - 7) 0)) s1 ∷ [])

round : Words → ℕ → ℕ → Words
round v k w =
    let big1 = xor_three (rotr32 v.e 6) (rotr32 v.e 11) (rotr32 v.e 25) in
    let ch = bit_xor (bit_and v.e v.f) (bit_and (not32 v.e) v.g) in
    let t1 = add32 (add32 (add32 (add32 v.h big1) ch) k) w in
    let big0 = xor_three (rotr32 v.a 2) (rotr32 v.a 13) (rotr32 v.a 22) in
    let maj = xor_three (bit_and v.a v.b) (bit_and v.a v.c) (bit_and v.b v.c) in
    let t2 = add32 big0 maj in
    record {
      a = add32 t1 t2;
      b = v.a;
      c = v.b;
      d = v.c;
      e = add32 v.d t1;
      f = v.e;
      g = v.f;
      h = v.g;
    }

rounds : List ℕ → List ℕ → Words → Words
rounds (k ∷ ks) (w ∷ ws) v = rounds ks ws (round v k w)
rounds ks ws v = v

-- sha256_compress(state, block)
unfoldable pub compress : Words → List ℕ → Words
unfolding rotr32 xor_three schedule round rounds
compress s block =
    let v = rounds k256 (schedule 48 (load_words 4 16 block)) s in
    record {
      a = add32 s.a v.a;
      b = add32 s.b v.b;
      c = add32 s.c v.c;
      d = add32 s.d v.d;
      e = add32 s.e v.e;
      f = add32 s.f v.f;
      g = add32 s.g v.g;
      h = add32 s.h v.h;
    }

abbrev pub initial : Words
initial = record {
  a = 0x6a09e667;
  b = 0xbb67ae85;
  c = 0x3c6ef372;
  d = 0xa54ff53a;
  e = 0x510e527f;
  f = 0x9b05688c;
  g = 0x1f83d9ab;
  h = 0x5be0cd19;
}

-- vl_sha256_init: the buffer's bytes are left as they are.
unfoldable pub sha256_init : Option (Ctx Words) → Option (Ctx Words)
sha256_init none = none
sha256_init (some ctx) = some (record ctx { state = initial; count = 0; buffer_len = 0 })

-- vl_sha256_update; an empty piece is a no-op.
unfoldable pub sha256_update : Option (Ctx Words) → Option (List ℕ) → Option (Ctx Words)
sha256_update none p = none
sha256_update (some ctx) none = some ctx
sha256_update (some ctx) (some []) = some ctx
sha256_update (some ctx) (some (x ∷ xs)) =
    let p = x ∷ xs in
    some (
      absorb block_len compress
        (record ctx { count = (ctx.count + length p * 8 % 2 ^ 64) % 2 ^ 64 }) p)

-- The context as `vl_secure_wipe` leaves it
abbrev pub wiped : Ctx Words
wiped = record {
  state = record { a = 0; b = 0; c = 0; d = 0; e = 0; f = 0; g = 0; h = 0 };
  count = 0;
  buffer = replicate block_len 0;
  buffer_len = 0;
}

-- vl_sha256_final: what is in `out` and in the context afterwards
unfoldable pub sha256_final :
    Option (Ctx Words) → Option (List ℕ) → Option (List ℕ) × Option (Ctx Words)
sha256_final none out = (out, none)
sha256_final (some ctx) none = (none, some ctx)
sha256_final (some ctx) (some out) =
    let field = length_field 8 ctx.count in
    (some (store_words 4 (close block_len compress limit field ctx)), some wiped)

-- vl_sha256, with what the stack held where the context is laid
unfoldable pub sha256 : Ctx Words → Option (List ℕ) → Option (List ℕ) → Option (List ℕ)
sha256 stack msg out = (sha256_final (sha256_update (sha256_init (some stack)) msg) out).0
