-- ===== src/Hal/Rp2040/Record.antt =====
-- hal/rp2040/vl_hal_rp2040.c: a record written to the flash is the record read from it.
use vecti_license.Base.{
  ℕ, zero, suc, ◌+◌, ◌^◌, ◌<◌, ◌≤◌, ◌≡◌, refl, sym, ap, ◌∙◌, arith, inl, inr, true, false,
  Bool-cases,
}
use vecti_license.Base.{
  List, [], ◌∷◌, ◌++◌, All, length, take, drop, get_or, ltb, ◌==◌, ◌!=◌, ◌||◌, ==_iff,
  length-append, length-set, length-take, length-drop, take-append_exact, drop-append_exact,
  take-append-drop, set_same, get_or-set_self,
}
use vecti_license.Base.Words.{le_bytes, le_word_bytes, le_word_lem}
use vecti_license.Base.Digits.{Below}
use vecti_license.Api.{ok}
use vecti_license.Hal.Rp2040.{
  rp_magic, RpRecord, word_at, record_of, record_bytes, close_blob, checked_record, record_read,
  page_of, same_memory, Sdk, record_write,
}
use mathlib.Core.List.{append_assoc}

-- What a C vl_rp_record_t can hold, and what record_read makes sure of
pub record IsRecord (rec : RpRecord) : Type 0 where
  pub is_magic : rec.magic ≡ rp_magic
  pub mark : rec.hwm < 2 ^ 32
  pub short : rec.blob_len ≤ 160
  pub sized : length rec.blob ≡ 161
  pub closed : get_or rec.blob 160 1 ≡ 0
  pub padded : length rec.padding ≡ 3

record_of-record_bytes :
    (rec : RpRecord) (tail : List ℕ) → IsRecord rec → record_of (record_bytes rec ++ tail) ≡ rec
unfolding le_bytes
record_of-record_bytes rec tail r =
    let magic = le_word_bytes rec.magic (rw r.is_magic (omega arith)) in
    let mark = le_word_bytes rec.hwm r.mark in
    let len = le_word_bytes rec.blob_len (omega (arith, r.short)) in
    let text : take 161 ((rec.blob ++ rec.padding) ++ tail) ≡ rec.blob =
      rw (append_assoc rec.blob rec.padding tail)
        (take-append_exact 161 rec.blob (rec.padding ++ tail) r.sized) in
    let pad : take 3 (drop 161 ((rec.blob ++ rec.padding) ++ tail)) ≡ rec.padding =
      rw
        (
          append_assoc rec.blob rec.padding tail,
          drop-append_exact 161 rec.blob (rec.padding ++ tail) r.sized,
        )
        (take-append_exact 3 rec.padding tail r.padded) in
    rw (magic, mark, len, text, pad) refl

close_blob-IsRecord : (rec : RpRecord) → IsRecord rec → close_blob rec ≡ rec
close_blob-IsRecord rec r =
    ap (λ b. record rec { blob = b }) (set_same rec.blob 160 0 1 (omega (arith, r.sized)) r.closed)

-- Whatever the flash holds, record_read yields a record.
checked_record-IsRecord :
    (rec : RpRecord)
    → rec.hwm < 2 ^ 32
    → length rec.blob ≡ 161
    → length rec.padding ≡ 3
    → IsRecord (checked_record rec)
unfolding checked_record
checked_record-IsRecord rec mark sized padded =
    elim (Bool-cases (rec.magic != rp_magic || ltb 160 rec.blob_len)) [
      | inl bad ↦ rw bad (record {
        is_magic = refl;
        mark = omega arith;
        short = omega arith;
        sized = refl;
        closed = refl;
        padded = refl;
      })
      | inr good ↦ rw good (record {
        is_magic = ground arith;
        mark = mark;
        short = ground arith;
        sized = length-set rec.blob 160 0 ∙ sized;
        closed = get_or-set_self rec.blob 160 0 1 (omega arith);
        padded = padded;
      })
    ]

checked_record_same : (rec : RpRecord) → IsRecord rec → checked_record rec ≡ rec
unfolding checked_record
checked_record_same rec r =
    let magic = r.is_magic in
    let short = r.short in
    let same_magic : (rec.magic != rp_magic) ≡ false = rw magic refl in
    let fits : ltb 160 rec.blob_len ≡ false = ground arith in
    rw (same_magic, fits) (close_blob-IsRecord rec r)

record_read-record_bytes :
    (rec : RpRecord) (tail : List ℕ) → IsRecord rec → record_read (record_bytes rec ++ tail) ≡ rec
unfolding record_read
record_read-record_bytes rec tail r =
    ap checked_record (record_of-record_bytes rec tail r) ∙ checked_record_same rec r

get_or-Below : (p : List ℕ) (i : ℕ) → All (Below 256) p → get_or p i 0 < 256
get_or-Below [] i h = omega arith
get_or-Below (x ∷ p) zero h = h.0
get_or-Below (x ∷ p) (suc i) h = get_or-Below p i h.1

word_at-lt : (p : List ℕ) (i : ℕ) → All (Below 256) p → word_at p i < 2 ^ 32
word_at-lt p i h =
    let b0 = get_or-Below p i h in
    let b1 = get_or-Below p (1 + i) h in
    let b2 = get_or-Below p (2 + i) h in
    let b3 = get_or-Below p (3 + i) h in
    omega (
      arith,
      le_word_lem (get_or p i 0) (get_or p (1 + i) 0) (get_or p (2 + i) 0) (get_or p (3 + i) 0) b0
          b1 b2 b3,
    )

pub record_read-IsRecord :
    (p : List ℕ) → 176 ≤ length p → All (Below 256) p → IsRecord (record_read p)
unfolding record_read
record_read-IsRecord p long bytes =
    checked_record-IsRecord (record_of p) (word_at-lt p 4 bytes)
      (length-take 161 (drop 12 p) ∙ omega (arith, length-drop 12 p))
      (length-take 3 (drop 173 p) ∙ omega (arith, length-drop 173 p))

same_memory→eq : (a b : List ℕ) → same_memory a b ≡ true → a ≡ b
unfolding same_memory
same_memory→eq [] [] e = refl
same_memory→eq [] (y ∷ b) e = cc
same_memory→eq (x ∷ a) [] e = cc
same_memory→eq (x ∷ a) (y ∷ b) e = elim (Bool-cases (x == y)) [
  | inl same ↦ rw ((==_iff x y).0 same) (ap (λ r. y ∷ r) (same_memory→eq a b (rw same at e)))
  | inr other ↦ cc (rw other at e)
]

length-record_bytes : (rec : RpRecord) → IsRecord rec → length (record_bytes rec) ≡ 176
unfolding le_bytes
length-record_bytes rec r = omega (arith, length-append rec.blob rec.padding, r.sized, r.padded)

-- A write that succeeds is read back.
pub record_write_reads :
    {W : Type 0} (sdk : Sdk W) (rec : RpRecord) (w : W) {w' : W}
    → IsRecord rec
    → record_write sdk rec w ≡ (ok, w')
    → record_read (sdk.xip w') ≡ rec
unfolding record_write
record_write_reads sdk rec w {w'} r e =
    let fits : ltb 256 (length (record_bytes rec)) ≡ false =
      ground (arith, length-record_bytes rec r) in
    let tried = rw fits at e in
    let (irq, w1) = sdk.save_and_disable_interrupts w in
    let w3 =
      sdk.restore_interrupts irq
        (sdk.flash_range_program (page_of rec) (sdk.flash_range_erase w1)) in
    elim (Bool-cases (same_memory (take 256 (sdk.xip w3)) (page_of rec))) [
      | inl same ↦
          let after : w3 ≡ w' = ap (λ t. t.1) (rw same at tried) in
          let holds = same_memory→eq (take 256 (sdk.xip w3)) (page_of rec) same in
          rw (← after) (
            ap record_read (
              sym (take-append-drop 256 (sdk.xip w3))
              ∙ ap (λ t. t ++ drop 256 (sdk.xip w3)) holds
              ∙ append_assoc (record_bytes rec) _ (drop 256 (sdk.xip w3)))
            ∙ record_read-record_bytes rec _ r)
      | inr other ↦ cc (rw other at tried)
    ]
