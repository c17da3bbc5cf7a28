-- ===== src/Hash/Stream/Buffer.antt =====
-- Writes into the block buffer.
use vecti_license.Base.{ℕ, zero, suc, ◌+◌, ◌<◌, ◌≤◌, List, [], ◌∷◌, ◌++◌, ◌≡◌, refl, sym, ap, ◌∙◌}
use vecti_license.Base.{length, length-append, take, drop, length-take, length-drop, arith}
use vecti_license.Base.{take-append_exact, set, drop_all, drop-drop, ap₂, drop-append_exact}
use vecti_license.Hash.{write_at}
use mathlib.Core.List.{append_assoc, append-nil}
use native.Mathlib.Nat.{suc-add}

module _ (at : ℕ) (bytes buffer : List ℕ) (fits : at + length bytes ≤ length buffer) where
  pub length-write_at : length (write_at at bytes buffer) ≡ length buffer
  length-write_at = omega (
    arith,
    length-append (take at buffer) (bytes ++ drop (at + length bytes) buffer),
    length-append bytes (drop (at + length bytes) buffer),
    length-take at buffer,
    length-drop (at + length bytes) buffer,
  )

  pub take-write_at : take (at + length bytes) (write_at at bytes buffer) ≡ take at buffer ++ bytes
  take-write_at =
      ap (take (at + length bytes)) (sym (append_assoc (take at buffer) bytes _))
      ∙ take-append_exact (at + length bytes) (take at buffer ++ bytes) _
          (omega (arith, length-append (take at buffer) bytes, length-take at buffer))

pub set-write_at :
    (at v : ℕ) (buffer : List ℕ)
    → at < length buffer
    → set buffer at v ≡ write_at at (v ∷ []) buffer
set-write_at at v [] h = absurd (omega arith)
set-write_at zero v (x ∷ buffer) h = refl
set-write_at (suc at) v (x ∷ buffer) h =
    rw suc-add (ap (λ r. x ∷ r) (set-write_at at v buffer (omega arith)))

-- Two writes, the second just behind the first, are one.
pub write_at-write_at :
    (at next : ℕ) (xs ys buffer : List ℕ)
    → next ≡ at + length xs
    → next + length ys ≤ length buffer
    → write_at next ys (write_at at xs buffer) ≡ write_at at (xs ++ ys) buffer
write_at-write_at at next xs ys buffer e fits =
    ap₂ (λ a b. a ++ (ys ++ b)) front back
    ∙ append_assoc (take at buffer) xs _
    ∙ ap (λ t. take at buffer ++ t) (sym (append_assoc xs ys _))
  where
    first : at + length xs ≤ length buffer
    first = omega (arith, e)

    front : take next (write_at at xs buffer) ≡ take at buffer ++ xs
    front = ap (λ n. take n (write_at at xs buffer)) e ∙ take-write_at at xs buffer first

    past : drop next (write_at at xs buffer) ≡ drop next buffer
    past =
        ap (drop next) (sym (append_assoc (take at buffer) xs _))
        ∙ drop-append_exact next (take at buffer ++ xs) (drop (at + length xs) buffer)
            (omega (arith, e, length-append (take at buffer) xs, length-take at buffer))
        ∙ ap (λ n. drop n buffer) (sym e)

    behind : next + length ys ≡ at + length (xs ++ ys)
    behind = omega (arith, e, length-append xs ys)

    back : drop (next + length ys) (write_at at xs buffer) ≡ drop (at + length (xs ++ ys)) buffer
    back =
        sym (drop-drop (length ys) next (write_at at xs buffer))
        ∙ ap (drop (length ys)) past
        ∙ drop-drop (length ys) next buffer
        ∙ ap (λ n. drop n buffer) behind

-- A write up to the end of the buffer.
pub write_at_end :
    (at : ℕ) (bytes buffer : List ℕ)
    → at + length bytes ≡ length buffer
    → write_at at bytes buffer ≡ take at buffer ++ bytes
write_at_end at bytes buffer e =
    ap (λ t. take at buffer ++ (bytes ++ t)) (drop_all (at + length bytes) buffer (omega arith))
    ∙ ap (λ t. take at buffer ++ t) (append-nil bytes)
