-- ===== src/Hash/Padding.antt =====
-- The padding of FIPS 180-4, and the final step of the buffered code held to it.
use vecti_license.Base.{
  ℕ, ◌+◌, ◌-◌, ◌*◌, ◌/◌, ◌%◌, ◌<◌, ◌≤◌, List, [], ◌∷◌, ◌++◌, ◌≡◌, sym, ap, ◌∙◌,
}
use vecti_license.Base.{length, length-append, take, length-take, arith, ap₂}
use vecti_license.Base.{ltb, Bool-cases, ltb→lt, ltb-false→le, inl, inr, if◌then◌else◌, replicate}
use vecti_license.Base.{
  take-append_exact, drop-append_exact, length-replicate, replicate-add, take_all, set,
}
use vecti_license.Hash.{Ctx, write_at, close}
use vecti_license.Hash.Blocks.{compress_blocks, compress_blocks-append}
use vecti_license.Hash.Stream.{Holds}
use vecti_license.Hash.Stream.Buffer.{set-write_at, write_at-write_at, write_at_end}
use mathlib.Core.List.{append_assoc}
use native.Mathlib.Nat.{mul-add-mod_self_right, mod-eq_of_lt, mul-div_cancel}

-- The number of zero bytes between the 0x80 and the length field.
abbrev pub zeros : ℕ → ℕ → ℕ → ℕ
zeros block_len limit n =
    let r = n % block_len + 1 in if ltb limit r then block_len - r + limit else limit - r

abbrev pub padded : ℕ → ℕ → List ℕ → List ℕ → List ℕ
padded block_len limit field msg =
    msg ++ (0x80 ∷ (replicate (zeros block_len limit (length msg)) 0 ++ field))

module _ {S : Type 0} (block_len : ℕ) (compress : S → List ℕ → S) (init : S) where
  -- The padded message, compressed block by block.
  unfoldable pub digest_state : ℕ → List ℕ → List ℕ → S
  digest_state limit field msg =
      compress_blocks block_len compress (length (padded block_len limit field msg) / block_len)
        init (padded block_len limit field msg)

  module _ (limit : ℕ) (field msg : List ℕ) (c : Ctx S) (h : Holds block_len compress init msg c)
      (fits : limit + length field ≡ block_len) where
    short_mod : length msg % block_len ≡ c.buffer_len
    short_mod =
        ap (λ n. n % block_len) sizes
        ∙ mul-add-mod_self_right h.blocks block_len c.buffer_len
        ∙ mod-eq_of_lt h.partial
      where
        sizes : length msg ≡ h.blocks * block_len + c.buffer_len
        sizes =
            ap length h.split
            ∙ omega (
              arith,
              length-append h.whole (take c.buffer_len c.buffer),
              length-take c.buffer_len c.buffer,
              h.sized,
              h.partial,
              h.buffered,
            )

    digest_tail :
        (m : ℕ) (tail : List ℕ)
        → padded block_len limit field msg ≡ h.whole ++ tail
        → length tail ≡ m * block_len
        → digest_state limit field msg ≡ compress_blocks block_len compress m c.state tail
    unfolding digest_state
    digest_tail m tail same sized =
        ap₂ (λ n b. compress_blocks block_len compress n init b) count same
        ∙ compress_blocks-append block_len compress h.blocks m init h.whole tail h.sized
        ∙ ap (λ st. compress_blocks block_len compress m st tail) (sym h.compressed)
      where
        total : length (padded block_len limit field msg) ≡ (h.blocks + m) * block_len
        total = ap length same ∙ omega (arith, length-append h.whole tail, h.sized, sized)

        count : length (padded block_len limit field msg) / block_len ≡ h.blocks + m
        count =
            ap (λ n. n / block_len) total ∙ mul-div_cancel (h.blocks + m) (omega (arith, h.partial))

    -- The 0x80 and the zeros that follow it, as the code writes them.
    marked :
        (k : ℕ)
        → c.buffer_len + 1 + k ≤ block_len
        → write_at (c.buffer_len + 1) (replicate k 0) (set c.buffer c.buffer_len 0x80)
          ≡ write_at c.buffer_len (0x80 ∷ replicate k 0) c.buffer
    marked k room =
        ap (write_at (c.buffer_len + 1) (replicate k 0))
          (set-write_at c.buffer_len 0x80 c.buffer (omega (arith, h.partial, h.buffered)))
        ∙ write_at-write_at c.buffer_len (c.buffer_len + 1) (0x80 ∷ []) (replicate k 0) c.buffer
            (omega arith) (omega (arith, length-replicate {A = ℕ} k 0, h.buffered))

    padded-whole :
        (k : ℕ)
        → zeros block_len limit (length msg) ≡ k
        → padded block_len limit field msg
          ≡ h.whole ++ (take c.buffer_len c.buffer ++ (0x80 ∷ (replicate k 0 ++ field)))
    padded-whole k e =
        ap₂ (λ m z. m ++ (0x80 ∷ (replicate z 0 ++ field))) h.split e
        ∙ append_assoc h.whole (take c.buffer_len c.buffer) (0x80 ∷ (replicate k 0 ++ field))

    -- What the code compresses last where the length field fits behind the 0x80.
    short_tail :
        (k : ℕ)
        → c.buffer_len + 1 + k ≡ limit
        → write_at limit field
            (write_at (c.buffer_len + 1) (replicate k 0) (set c.buffer c.buffer_len 0x80))
          ≡ take c.buffer_len c.buffer ++ (0x80 ∷ (replicate k 0 ++ field))
    short_tail k e =
        ap (write_at limit field) (marked k (omega arith))
        ∙ write_at-write_at c.buffer_len limit (0x80 ∷ replicate k 0) field c.buffer
            (omega (arith, length-replicate {A = ℕ} k 0)) (omega (arith, h.buffered))
        ∙ write_at_end c.buffer_len (0x80 ∷ (replicate k 0 ++ field)) c.buffer (
            omega (
              arith,
              length-append (replicate k 0) field,
              length-replicate {A = ℕ} k 0,
              h.buffered,
            ))

    one_block :
        (k : ℕ)
        → c.buffer_len + 1 + k ≡ limit
        → close block_len compress limit field c ≡ digest_state limit field msg
    unfolding close compress_blocks
    one_block k e = elim (Bool-cases (ltb limit (c.buffer_len + 1))) [
      | inl over ↦ absurd (omega (arith, ltb→lt limit (c.buffer_len + 1) over))
      | inr room ↦
          rw (room, left, short_tail k e, digest_tail 1 tail (padded-whole k zeros_k) sized)
            (ap (compress c.state) (sym (take_all block_len tail (omega (arith, sized)))))
    ]
      where
        left : limit - (c.buffer_len + 1) ≡ k
        left = omega arith

        zeros_k : zeros block_len limit (length msg) ≡ k
        zeros_k = rw short_mod (ground arith)

        tail : List ℕ
        tail = take c.buffer_len c.buffer ++ (0x80 ∷ (replicate k 0 ++ field))

        sized : length tail ≡ 1 * block_len
        sized = omega (
          arith,
          length-append (take c.buffer_len c.buffer) (0x80 ∷ (replicate k 0 ++ field)),
          length-append (replicate k 0) field,
          length-replicate {A = ℕ} k 0,
          length-take c.buffer_len c.buffer,
          h.buffered,
          h.partial,
        )

    two_blocks :
        (k : ℕ)
        → limit < c.buffer_len + 1
        → c.buffer_len + 1 + k ≡ block_len
        → close block_len compress limit field c ≡ digest_state limit field msg
    unfolding close compress_blocks
    two_blocks k over e = elim (Bool-cases (ltb limit (c.buffer_len + 1))) [
      | inr room ↦ absurd (omega (arith, ltb-false→le limit (c.buffer_len + 1) room))
      | inl long ↦
          rw (long, left, full, last, digest_tail 2 (first ++ second) whole_padded total)
            (ap₂ (λ a b. compress (compress c.state a) b)
              (sym (take-append_exact block_len first second first_sized))
              (sym (
                ap (take block_len) (drop-append_exact block_len first second first_sized)
                ∙ take_all block_len second (omega (arith, second_sized)))))
    ]
      where
        left : block_len - (c.buffer_len + 1) ≡ k
        left = omega arith

        first : List ℕ
        first = take c.buffer_len c.buffer ++ (0x80 ∷ replicate k 0)

        second : List ℕ
        second = replicate limit 0 ++ field

        first_sized : length first ≡ block_len
        first_sized = omega (
          arith,
          length-append (take c.buffer_len c.buffer) (0x80 ∷ replicate k 0),
          length-replicate {A = ℕ} k 0,
          length-take c.buffer_len c.buffer,
          h.buffered,
          h.partial,
        )

        second_sized : length second ≡ block_len
        second_sized =
            omega (arith, length-append (replicate limit 0) field, length-replicate {A = ℕ} limit 0)

        total : length (first ++ second) ≡ 2 * block_len
        total = omega (arith, length-append first second, first_sized, second_sized)

        full : write_at (c.buffer_len + 1) (replicate k 0) (set c.buffer c.buffer_len 0x80) ≡ first
        full =
            marked k (omega arith)
            ∙ write_at_end c.buffer_len (0x80 ∷ replicate k 0) c.buffer
                (omega (arith, length-replicate {A = ℕ} k 0, h.buffered))

        last : write_at limit field (write_at 0 (replicate limit 0) first) ≡ second
        last =
            write_at-write_at 0 limit (replicate limit 0) field first
              (omega (arith, length-replicate {A = ℕ} limit 0)) (omega (arith, first_sized))
            ∙ write_at_end 0 second first (omega (arith, second_sized, first_sized))

        zeros_k : zeros block_len limit (length msg) ≡ k + limit
        zeros_k = rw short_mod (ground arith)

        pieces : 0x80 ∷ (replicate (k + limit) 0 ++ field) ≡ (0x80 ∷ replicate k 0) ++ second
        pieces =
            rw replicate-add
              (ap (λ t. 0x80 ∷ t) (append_assoc (replicate k 0) (replicate limit 0) field))

        whole_padded : padded block_len limit field msg ≡ h.whole ++ (first ++ second)
        whole_padded =
            padded-whole (k + limit) zeros_k
            ∙ ap (λ t. h.whole ++ (take c.buffer_len c.buffer ++ t)) pieces
            ∙ ap (λ t. h.whole ++ t)
                (sym (append_assoc (take c.buffer_len c.buffer) (0x80 ∷ replicate k 0) second))

    -- The final step gives the digest of the message that the context holds.
    pub close-digest : close block_len compress limit field c ≡ digest_state limit field msg
    close-digest = elim (Bool-cases (ltb limit (c.buffer_len + 1))) [
      | inl over ↦
          two_blocks (block_len - (c.buffer_len + 1)) (ltb→lt limit (c.buffer_len + 1) over)
            (omega (arith, h.partial))
      | inr room ↦
          one_block (limit - (c.buffer_len + 1))
            (omega (arith, ltb-false→le limit (c.buffer_len + 1) room))
    ]
