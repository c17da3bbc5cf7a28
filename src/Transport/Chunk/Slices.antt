-- ===== src/Transport/Chunk/Slices.antt =====
-- transport/vl_chunk.c: the bytes of the buffer, one by one, after a memcpy and in a memcmp.
use vecti_license.Base.{
  ℕ, zero, suc, ◌+◌, ◌-◌, ◌*◌, ◌<◌, ◌≤◌, ◌≡◌, refl, sym, ap, ap₂, ◌∙◌, arith, min,
}
use vecti_license.Base.{true, List, [], ◌∷◌, ◌++◌, length, get_or, take, drop}
use vecti_license.Base.{length-take, length-drop}
use vecti_license.Hash.{write_at}
use vecti_license.Transport.Chunk.{same_bytes}
use native.Mathlib.Nat.{zero-add, suc-add}

pub get_or-take : (n : ℕ) (xs : List ℕ) (k : ℕ) → k < n → get_or (take n xs) k 0 ≡ get_or xs k 0
get_or-take zero xs k h = absurd (omega arith)
get_or-take (suc n) [] k h = refl
get_or-take (suc n) (x ∷ xs) zero h = refl
get_or-take (suc n) (x ∷ xs) (suc k) h = get_or-take n xs k (omega arith)

pub get_or-drop : (n : ℕ) (xs : List ℕ) (k : ℕ) → get_or (drop n xs) k 0 ≡ get_or xs (n + k) 0
get_or-drop zero xs k = rw zero-add
get_or-drop (suc n) [] k = refl
get_or-drop (suc n) (x ∷ xs) k = rw suc-add (get_or-drop n xs k)

get_or-append_left :
    (xs ys : List ℕ) (k : ℕ) → k < length xs → get_or (xs ++ ys) k 0 ≡ get_or xs k 0
get_or-append_left [] ys k h = absurd (omega arith)
get_or-append_left (x ∷ xs) ys zero h = refl
get_or-append_left (x ∷ xs) ys (suc k) h = get_or-append_left xs ys k (omega arith)

get_or-append_right : (xs ys : List ℕ) (k : ℕ) → get_or (xs ++ ys) (length xs + k) 0 ≡ get_or ys k 0
get_or-append_right [] ys k = rw zero-add
get_or-append_right (x ∷ xs) ys k = rw suc-add (get_or-append_right xs ys k)

length-take_le : (n : ℕ) (xs : List ℕ) → n ≤ length xs → length (take n xs) ≡ n
length-take_le n xs h = omega (arith, length-take n xs)

-- A copy inside the buffer leaves the bytes before it, and those behind it, and puts its own between.
pub get_or-write_at_before :
    (off : ℕ) (data' buf : List ℕ) (i : ℕ)
    → off ≤ length buf
    → i < off
    → get_or (write_at off data' buf) i 0 ≡ get_or buf i 0
get_or-write_at_before off data' buf i h k =
    get_or-append_left (take off buf) _ i (omega (arith, length-take_le off buf h))
    ∙ get_or-take off buf i k

pub get_or-write_at_inside :
    (off : ℕ) (data' buf : List ℕ) (k : ℕ)
    → off ≤ length buf
    → k < length data'
    → get_or (write_at off data' buf) (off + k) 0 ≡ get_or data' k 0
get_or-write_at_inside off data' buf k h inside =
    let behind = drop (off + length data') buf in
    ap (λ n. get_or (write_at off data' buf) (n + k) 0) (sym (length-take_le off buf h))
    ∙ get_or-append_right (take off buf) (data' ++ behind) k
    ∙ get_or-append_left data' behind k inside

pub get_or-write_at_behind :
    (off : ℕ) (data' buf : List ℕ) (i : ℕ)
    → off ≤ length buf
    → off + length data' ≤ i
    → get_or (write_at off data' buf) i 0 ≡ get_or buf i 0
get_or-write_at_behind off data' buf i h past =
    let behind = drop (off + length data') buf in
    let k = i - (off + length data') in
    let e : i ≡ length (take off buf) + (length data' + k) =
      omega (arith, length-take_le off buf h) in
    ap (λ n. get_or (write_at off data' buf) n 0) e
    ∙ get_or-append_right (take off buf) (data' ++ behind) (length data' + k)
    ∙ get_or-append_right data' behind k
    ∙ get_or-drop (off + length data') buf k
    ∙ ap (λ n. get_or buf n 0) (omega arith)

pub same_bytes-true :
    (xs ys : List ℕ) (len : ℕ)
    → len ≤ length xs
    → len ≤ length ys
    → ((k : ℕ) → k < len → get_or xs k 0 ≡ get_or ys k 0)
    → same_bytes xs ys len ≡ true
unfolding same_bytes
same_bytes-true [] ys zero h k e = refl
same_bytes-true [] ys (suc len) h k e = absurd (omega arith)
same_bytes-true (x ∷ xs) [] zero h k e = refl
same_bytes-true (x ∷ xs) [] (suc len) h k e = absurd (omega arith)
same_bytes-true (x ∷ xs) (y ∷ ys) zero h k e = refl
same_bytes-true (x ∷ xs) (y ∷ ys) (suc len) h k e =
    let head : x ≡ y = e 0 (omega arith) in
    let rest =
      same_bytes-true xs ys len (omega arith) (omega arith) (λ i l. e (suc i) (omega arith)) in
    let less : suc len - 1 ≡ len = omega arith in ground arith

pub eq_of_bytes :
    (xs ys : List ℕ)
    → length xs ≡ length ys
    → ((k : ℕ) → k < length xs → get_or xs k 0 ≡ get_or ys k 0)
    → xs ≡ ys
eq_of_bytes [] [] h e = refl
eq_of_bytes [] (y ∷ ys) h e = absurd (omega arith)
eq_of_bytes (x ∷ xs) [] h e = absurd (omega arith)
eq_of_bytes (x ∷ xs) (y ∷ ys) h e =
    ap₂ (λ z zs. z ∷ zs) (e 0 (omega arith))
      (eq_of_bytes xs ys (omega arith) (λ k l. e (suc k) (omega arith)))

-- The bytes of the chunk with the number `seq`, as a sender cuts them from the text
pub piece : ℕ → List ℕ → ℕ → List ℕ
piece cs text seq = take cs (drop (seq * cs) text)

pub length-piece :
    (cs : ℕ) (text : List ℕ) (seq : ℕ)
    → length (piece cs text seq) ≡ min cs (length text - seq * cs)
unfolding piece
length-piece cs text seq =
    omega (arith, length-take cs (drop (seq * cs) text), length-drop (seq * cs) text)

pub get_or-piece :
    (cs : ℕ) (text : List ℕ) (seq k : ℕ)
    → k < cs
    → get_or (piece cs text seq) k 0 ≡ get_or text (seq * cs + k) 0
unfolding piece
get_or-piece cs text seq k h =
    get_or-take cs (drop (seq * cs) text) k h ∙ get_or-drop (seq * cs) text k
