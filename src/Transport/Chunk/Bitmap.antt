-- ===== src/Transport/Chunk/Bitmap.antt =====
-- transport/vl_chunk.c: the bitmap of the chunks that have been received, and their count.
use vecti_license.Base.{
  ℕ, zero, suc, ◌+◌, ◌*◌, ◌/◌, ◌%◌, ◌^◌, ◌<◌, ◌≤◌, ◌≡◌, ◌≢◌, inl, inr, refl, ap,
}
use vecti_license.Base.{◌∙◌, sym, arith, ◌==◌, ◌!=◌, ◌||◌, Bool, true, false, Bool-cases, ==_iff}
use vecti_license.Base.{
  ◌⊎◌, bit_and, bit_or, List, [], ◌∷◌, length, get_or, set, get_or-set_self, get_or-set_ne,
}
use vecti_license.Base.{if◌then◌else◌}
use vecti_license.Base.Bits.{bit_and_mask}
use vecti_license.Base.Table.{holds_below, holds_below_at}
use vecti_license.Transport.Chunk.{Chunk, is_seen, mask, store_chunk}

abbrev agree : Bool → Bool → Bool
agree true b = b
agree false true = false
agree false false = true

agree-eq : (a b : Bool) → agree a b ≡ true → a ≡ b
agree-eq true true h = refl
agree-eq true false h = cc
agree-eq false true h = cc
agree-eq false false h = refl

-- Setting bit i of a byte, and reading bit j
abbrev bit_at : ℕ → ℕ → Bool
bit_at b j = bit_and b (2 ^ j % 2 ^ 8) != 0

abbrev set_bit : ℕ → ℕ → ℕ
set_bit b i = bit_or b (2 ^ i % 2 ^ 8) % 2 ^ 8

abbrev set_bit_holds : ℕ → Bool
set_bit_holds n =
    agree (bit_at (set_bit (n / 64) (n / 8 % 8)) (n % 8))
      (n / 8 % 8 == n % 8 || bit_at (n / 64) (n % 8))

set_bit_table : holds_below set_bit_holds 16384 ≡ true
unfolding holds_below
set_bit_table = refl

set_bit_at :
    (n : ℕ)
    → n < 16384
    → bit_at (set_bit (n / 64) (n / 8 % 8)) (n % 8)
      ≡ (n / 8 % 8 == n % 8 || bit_at (n / 64) (n % 8))
set_bit_at n h = agree-eq _ _ (holds_below_at set_bit_holds 16384 set_bit_table n h)

bit_at-set_bit :
    (b i j : ℕ) → b < 256 → i < 8 → j < 8 → bit_at (set_bit b i) j ≡ (i == j || bit_at b j)
bit_at-set_bit b i j hb hi hj =
    let n = b * 64 + i * 8 + j in
    let eb : n / 64 ≡ b = omega arith in
    let ei : n / 8 % 8 ≡ i = omega arith in
    let ej : n % 8 ≡ j = omega arith in rw (eb, ei, ej) at (set_bit_at n (omega arith))

-- Every entry of the bitmap is a byte.
abbrev pub HasBytes : Chunk → Type 0
HasBytes c = (k : ℕ) → get_or c.seen k 0 < 256

position : (seq : ℕ) → seq < 192 → bit_and seq 7 ≡ seq % 8
position seq h = bit_and_mask 3 8 seq (omega arith)

mask_at : (seq : ℕ) → seq < 192 → mask seq ≡ 2 ^ (seq % 8) % 2 ^ 8
mask_at seq h = ap (λ k. 2 ^ k % 2 ^ 8) (position seq h)

is_seen_at :
    (c : Chunk) (seq : ℕ)
    → seq < 192
    → is_seen c seq ≡ bit_at (get_or c.seen (seq / 2 ^ 3) 0) (seq % 8)
is_seen_at c seq h = ap (λ m. bit_and (get_or c.seen (seq / 2 ^ 3) 0) m != 0) (mask_at seq h)

stored_seen :
    (c : Chunk) (seq : ℕ) (data' : List ℕ)
    → seq < 192
    → (store_chunk c seq data').seen
      ≡ set c.seen (seq / 2 ^ 3) (set_bit (get_or c.seen (seq / 2 ^ 3) 0) (seq % 8))
unfolding store_chunk
stored_seen c seq data' h =
    ap (λ m. set c.seen (seq / 2 ^ 3) (bit_or (get_or c.seen (seq / 2 ^ 3) 0) m % 2 ^ 8))
      (mask_at seq h)

get_or-set_byte :
    (xs : List ℕ) (i j v : ℕ)
    → ((k : ℕ) → get_or xs k 0 < 256)
    → v < 256
    → get_or (set xs i v) j 0 < 256
get_or-set_byte [] i j v h b = h j
get_or-set_byte (x ∷ xs) zero zero v h b = b
get_or-set_byte (x ∷ xs) zero (suc j) v h b = h (suc j)
get_or-set_byte (x ∷ xs) (suc i) zero v h b = h 0
get_or-set_byte (x ∷ xs) (suc i) (suc j) v h b = get_or-set_byte xs i j v (λ k. h (suc k)) b

pub store_chunk-HasBytes :
    (c : Chunk) (seq : ℕ) (data' : List ℕ) → HasBytes c → HasBytes (store_chunk c seq data')
unfolding store_chunk
store_chunk-HasBytes c seq data' h k = get_or-set_byte c.seen (seq / 2 ^ 3) k _ h (omega arith)

-- After a chunk is stored, its bit is set, and all others are what they were.
pub is_seen-store_chunk :
    (c : Chunk) (seq q : ℕ) (data' : List ℕ)
    → length c.seen ≡ 24
    → HasBytes c
    → seq < 192
    → q < 192
    → is_seen (store_chunk c seq data') q ≡ (seq == q || is_seen c q)
is_seen-store_chunk c seq q data' len bytes hs hq =
    is_seen_at (store_chunk c seq data') q hq
    ∙ ap (λ xs. bit_at (get_or xs (q / 2 ^ 3) 0) (q % 8)) (stored_seen c seq data' hs)
    ∙ go (Bool-cases (seq / 2 ^ 3 == q / 2 ^ 3))
    ∙ ap (λ b. seq == q || b) (sym (is_seen_at c q hq))
  where
    old : ℕ
    old = get_or c.seen (seq / 2 ^ 3) 0

    go :
        ((seq / 2 ^ 3 == q / 2 ^ 3) ≡ true) ⊎ ((seq / 2 ^ 3 == q / 2 ^ 3) ≡ false)
        → bit_at (get_or (set c.seen (seq / 2 ^ 3) (set_bit old (seq % 8))) (q / 2 ^ 3) 0) (q % 8)
          ≡ (seq == q || bit_at (get_or c.seen (q / 2 ^ 3) 0) (q % 8))
    go (inl same) =
        let e : seq / 2 ^ 3 ≡ q / 2 ^ 3 = ground arith in
        let low : (seq % 8 == q % 8) ≡ (seq == q) = ground arith in
        rw
          (
            ← e,
            get_or-set_self c.seen (seq / 2 ^ 3) (set_bit old (seq % 8)) 0 (omega arith),
            bit_at-set_bit old (seq % 8) (q % 8) (bytes (seq / 2 ^ 3)) (omega arith) (omega arith),
            low,
          )
          refl
    go (inr other) =
        let ne : seq / 2 ^ 3 ≢ q / 2 ^ 3 = ground arith in
        let apart : (seq == q) ≡ false = ground arith in
        rw (get_or-set_ne c.seen (seq / 2 ^ 3) (q / 2 ^ 3) (set_bit old (seq % 8)) 0 ne, apart) refl

-- The chunks below `n` that `p` holds of
pub count_below : (ℕ → Bool) → ℕ → ℕ
count_below p zero = 0
count_below p (suc n) = (if p n then 1 else 0) + count_below p n

pub count_below-le : (p : ℕ → Bool) (n : ℕ) → count_below p n ≤ n
unfolding count_below
count_below-le p zero = omega arith
count_below-le p (suc n) = ground (arith, count_below-le p n)

pub count_below_all : (p : ℕ → Bool) (n : ℕ) → (count_below p n == n) ≡ holds_below p n
unfolding count_below holds_below
count_below_all p zero = refl
count_below_all p (suc n) = ground (arith, count_below-le p n, count_below_all p n)

pub count_below_same :
    (p q : ℕ → Bool) (n : ℕ) → ((i : ℕ) → i < n → p i ≡ q i) → count_below p n ≡ count_below q n
unfolding count_below
count_below_same p q zero h = refl
count_below_same p q (suc n) h =
    ground (arith, h n (omega arith), count_below_same p q n (λ i k. h i (omega arith)))

pub count_below_more :
    (p q : ℕ → Bool) (n s : ℕ)
    → s < n
    → p s ≡ false
    → ((i : ℕ) → i < n → q i ≡ (s == i || p i))
    → count_below q n ≡ count_below p n + 1
unfolding count_below
count_below_more p q zero s lt new h = absurd (omega arith)
count_below_more p q (suc n) s lt new h = elim (Bool-cases (s == n)) [
  | inl last ↦
      let e : s ≡ n = (==_iff s n).0 last in
      let rest =
        count_below_same q p n
          (λ i k. h i (omega arith) ∙ let ne : (s == i) ≡ false = ground arith in rw ne refl) in
      let here : p n ≡ false = ap p (sym e) ∙ new in ground (arith, h n (omega arith), here, rest)
  | inr before ↦
      let rest = count_below_more p q n s (ground arith) new (λ i k. h i (omega arith)) in
      ground (arith, h n (omega arith), rest)
]

pub count_below_none : (p : ℕ → Bool) (n : ℕ) → ((i : ℕ) → p i ≡ false) → count_below p n ≡ 0
unfolding count_below
count_below_none p zero h = refl
count_below_none p (suc n) h = rw (h n) (omega (arith, count_below_none p n h))
