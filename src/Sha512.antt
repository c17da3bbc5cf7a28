-- ===== src/Sha512.antt =====
-- core/vl_sha512.c and vl_sha512.h: SHA-512, with the buffering of `Hash`.
-- `Ctx.count` is the context's `byte_count`. A NULL pointer is `none`.
pub mod Digest
mod Tests
use vecti_license.Base.{
  ℕ, zero, suc, ◌+◌, ◌-◌, ◌*◌, ◌/◌, ◌%◌, ◌^◌, bit_and, bit_or, bit_xor, List, [], ◌∷◌,
}
use vecti_license.Base.{◌++◌, length, get_or, take, drop, replicate, Option, none, some}
use vecti_license.Hash.{
  Ctx, Words, words_list, load_words, store_words, length_field, absorb, close,
}

-- VL_SHA512_BLOCK_LEN
abbrev pub block_len : ℕ
block_len = 128

-- The offset of the length field in the last block
abbrev pub limit : ℕ
limit = 112

-- K512
abbrev k512 : List ℕ
k512 =
    0x428a2f98d728ae22 ∷ 0x7137449123ef65cd ∷ 0xb5c0fbcfec4d3b2f ∷ 0xe9b5dba58189dbbc
    ∷ 0x3956c25bf348b538 ∷ 0x59f111f1b605d019 ∷ 0x923f82a4af194f9b ∷ 0xab1c5ed5da6d8118
    ∷ 0xd807aa98a3030242 ∷ 0x12835b0145706fbe ∷ 0x243185be4ee4b28c ∷ 0x550c7dc3d5ffb4e2
    ∷ 0x72be5d74f27b896f ∷ 0x80deb1fe3b1696b1 ∷ 0x9bdc06a725c71235 ∷ 0xc19bf174cf692694
    ∷ 0xe49b69c19ef14ad2 ∷ 0xefbe4786384f25e3 ∷ 0x0fc19dc68b8cd5b5 ∷ 0x240ca1cc77ac9c65
    ∷ 0x2de92c6f592b0275 ∷ 0x4a7484aa6ea6e483 ∷ 0x5cb0a9dcbd41fbd4 ∷ 0x76f988da831153b5
    ∷ 0x983e5152ee66dfab ∷ 0xa831c66d2db43210 ∷ 0xb00327c898fb213f ∷ 0xbf597fc7beef0ee4
    ∷ 0xc6e00bf33da88fc2 ∷ 0xd5a79147930aa725 ∷ 0x06ca6351e003826f ∷ 0x142929670a0e6e70
    ∷ 0x27b70a8546d22ffc ∷ 0x2e1b21385c26c926 ∷ 0x4d2c6dfc5ac42aed ∷ 0x53380d139d95b3df
    ∷ 0x650a73548baf63de ∷ 0x766a0abb3c77b2a8 ∷ 0x81c2c92e47edaee6 ∷ 0x92722c851482353b
    ∷ 0xa2bfe8a14cf10364 ∷ 0xa81a664bbc423001 ∷ 0xc24b8b70d0f89791 ∷ 0xc76c51a30654be30
    ∷ 0xd192e819d6ef5218 ∷ 0xd69906245565a910 ∷ 0xf40e35855771202a ∷ 0x106aa07032bbd1b8
    ∷ 0x19a4c116b8d2d0c8 ∷ 0x1e376c085141ab53 ∷ 0x2748774cdf8eeb99 ∷ 0x34b0bcb5e19b48a8
    ∷ 0x391c0cb3c5c95a63 ∷ 0x4ed8aa4ae3418acb ∷ 0x5b9cca4f7763e373 ∷ 0x682e6ff3d6b2b8a3
    ∷ 0x748f82ee5defb2fc ∷ 0x78a5636f43172f60 ∷ 0x84c87814a1f0ab72 ∷ 0x8cc702081a6439ec
    ∷ 0x90befffa23631e28 ∷ 0xa4506cebde82bde9 ∷ 0xbef9a3f7b2c67915 ∷ 0xc67178f2e372532b
    ∷ 0xca273eceea26619c ∷ 0xd186b8c721c0c207 ∷ 0xeada7dd6cde0eb1e ∷ 0xf57d4f7fee6ed178
    ∷ 0x06f067aa72176fba ∷ 0x0a637dc5a2c898a6 ∷ 0x113f9804bef90dae ∷ 0x1b710b35131c471b
    ∷ 0x28db77f523047d84 ∷ 0x32caab7b40c72493 ∷ 0x3c9ebe0a15c9bebc ∷ 0x431d67c49c100d4c
    ∷ 0x4cc5d4becb3e42b6 ∷ 0x597f299cfc657e2a ∷ 0x5fcb6fab3ad6faec ∷ 0x6c44198c4a475817 ∷ []

-- uint64_t addition, complement and rotation
abbrev add64 : ℕ → ℕ → ℕ
add64 x y = (x + y) % 2 ^ 64

abbrev not64 : ℕ → ℕ
not64 x = 2 ^ 64 - 1 - x

rotr64 : ℕ → ℕ → ℕ
rotr64 x n = bit_or (x / 2 ^ n) (x * 2 ^ (64 - n) % 2 ^ 64)

xor_three : ℕ → ℕ → ℕ → ℕ
xor_three x y z = bit_xor (bit_xor x y) z

-- The message schedule: `w` is built up from index 16 on, `left` entries to come.
schedule : ℕ → List ℕ → List ℕ
schedule zero w = w
schedule (suc left) w =
    let i = length w in
    let a = get_or w (i - 15) 0 in
    let b = get_or w (i - 2) 0 in
    let s0 = xor_three (rotr64 a 1) (rotr64 a 8) (a / 2 ^ 7) in
    let s1 = xor_three (rotr64 b 19) (rotr64 b 61) (b / 2 ^ 6) in
    schedule left (w ++ add64 (add64 (add64 (get_or w (i - 16) 0) s0) (get_or w (i - 7) 0)) s1 ∷ [])

round : Words → ℕ → ℕ → Words
round v k w =
    let big1 = xor_three (rotr64 v.e 14) (rotr64 v.e 18) (rotr64 v.e 41) in
    let ch = bit_xor (bit_and v.e v.f) (bit_and (not64 v.e) v.g) in
    let t1 = add64 (add64 (add64 (add64 v.h big1) ch) k) w in
    let big0 = xor_three (rotr64 v.a 28) (rotr64 v.a 34) (rotr64 v.a 39) in
    let maj = xor_three (bit_and v.a v.b) (bit_and v.a v.c) (bit_and v.b v.c) in
    let t2 = add64 big0 maj in
    record {
      a = add64 t1 t2;
      b = v.a;
      c = v.b;
      d = v.c;
      e = add64 v.d t1;
      f = v.e;
      g = v.f;
      h = v.g;
    }

rounds : List ℕ → List ℕ → Words → Words
rounds (k ∷ ks) (w ∷ ws) v = rounds ks ws (round v k w)
rounds ks ws v = v

-- sha512_compress(state, block)
pub compress : Words → List ℕ → Words
unfolding rotr64 xor_three schedule round rounds
compress s block =
    let v = rounds k512 (schedule 64 (load_words 8 16 block)) s in
    record {
      a = add64 s.a v.a;
      b = add64 s.b v.b;
      c = add64 s.c v.c;
      d = add64 s.d v.d;
      e = add64 s.e v.e;
      f = add64 s.f v.f;
      g = add64 s.g v.g;
      h = add64 s.h v.h;
    }

abbrev pub initial : Words
initial = record {
  a = 0x6a09e667f3bcc908;
  b = 0xbb67ae8584caa73b;
  c = 0x3c6ef372fe94f82b;
  d = 0xa54ff53a5f1d36f1;
  e = 0x510e527fade682d1;
  f = 0x9b05688c2b3e6c1f;
  g = 0x1f83d9abfb41bd6b;
  h = 0x5be0cd19137e2179;
}

-- vl_sha512_init: the buffer's bytes are left as they are.
unfoldable pub sha512_init : Option (Ctx Words) → Option (Ctx Words)
sha512_init none = none
sha512_init (some ctx) = some (record ctx { state = initial; count = 0; buffer_len = 0 })

-- vl_sha512_update; an empty piece is a no-op.
unfoldable pub sha512_update : Option (Ctx Words) → Option (List ℕ) → Option (Ctx Words)
sha512_update none p = none
sha512_update (some ctx) none = some ctx
sha512_update (some ctx) (some []) = some ctx
sha512_update (some ctx) (some (x ∷ xs)) =
    let p = x ∷ xs in
    some (absorb block_len compress (record ctx { count = (ctx.count + length p) % 2 ^ 64 }) p)

-- The context as `vl_secure_wipe` leaves it
abbrev pub wiped : Ctx Words
wiped = record {
  state = record { a = 0; b = 0; c = 0; d = 0; e = 0; f = 0; g = 0; h = 0 };
  count = 0;
  buffer = replicate block_len 0;
  buffer_len = 0;
}

-- vl_sha512_final: what is in `out` and in the context afterwards
unfoldable pub sha512_final :
    Option (Ctx Words) → Option (List ℕ) → Option (List ℕ) × Option (Ctx Words)
sha512_final none out = (out, none)
sha512_final (some ctx) none = (none, some ctx)
sha512_final (some ctx) (some out) =
    let field =
      length_field 8 (ctx.count / 2 ^ 61) ++ length_field 8 (ctx.count * 2 ^ 3 % 2 ^ 64) in
    (some (store_words 8 (close block_len compress limit field ctx)), some wiped)

-- vl_sha512, with what the stack held where the context is laid
unfoldable pub sha512 : Ctx Words → Option (List ℕ) → Option (List ℕ) → Option (List ℕ)
sha512 stack msg out = (sha512_final (sha512_update (sha512_init (some stack)) msg) out).0
