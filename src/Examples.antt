-- ===== src/Examples.antt =====
-- What the two processes of examples/send_seq.rs and examples/recv_seq.rs write and check.
pub mod Sends
pub mod Tests
use memequeue.Prelude.{
  ℕ, zero, suc, ◌+◌, ◌-◌, ◌*◌, ◌%◌, ◌^◌, ◌≤◌, ◌<◌, ◌≡◌, ◌==◌, ◌&&◌, Bool, true, false, refl, ap,
  ◌∙◌, arith, ==_iff, leb, if◌then◌else◌, Option, some, none, List, [], ◌∷◌, ◌++◌, length, take,
  drop, length-append, length-drop, drop-append, le_bytes, from_le, length-le_bytes,
  from_le-le_bytes, word_size,
}

-- `*byte = idx as u8` for each byte, from an index on
unfoldable pub fill_bytes : ℕ → List ℕ → List ℕ
fill_bytes idx [] = []
fill_bytes idx (b ∷ bs) = (idx % 256) ∷ fill_bytes (idx + 1) bs

-- `none` is the failed assertion.
unfoldable pub fill_buf : List ℕ → Option (List ℕ)
unfolding fill_bytes
fill_buf buf =
    if leb word_size (length buf)
    then some (le_bytes word_size (length buf) ++ fill_bytes 0 (drop word_size buf))
    else none

unfoldable pub check_bytes : ℕ → List ℕ → Bool
check_bytes idx [] = true
check_bytes idx (b ∷ bs) = b == idx % 256 && check_bytes (idx + 1) bs

-- Whether all assertions hold.
unfoldable pub check_buf : List ℕ → Bool
unfolding check_bytes
check_buf buf =
    leb word_size (length buf)
    && from_le (take word_size buf) == length buf
    && check_bytes 0 (drop word_size buf)

length-fill_bytes : (idx : ℕ) (bs : List ℕ) → length (fill_bytes idx bs) ≡ length bs
unfolding fill_bytes
length-fill_bytes idx [] = refl
length-fill_bytes idx (b ∷ bs) = ap suc (length-fill_bytes (idx + 1) bs)

check_bytes-fill_bytes : (idx : ℕ) (bs : List ℕ) → check_bytes idx (fill_bytes idx bs) ≡ true
unfolding check_bytes fill_bytes
check_bytes-fill_bytes idx [] = refl
check_bytes-fill_bytes idx (b ∷ bs) =
    rw ((==_iff (idx % 256) (idx % 256)).1 refl, check_bytes-fill_bytes (idx + 1) bs)

take-append : (xs ys : List ℕ) → take (length xs) (xs ++ ys) ≡ xs
take-append [] ys = refl
take-append (x ∷ xs) ys = ap (λ zs. x ∷ zs) (take-append xs ys)

-- A buffer of 8 bytes or more, fewer than 2^64, is filled to the same length, and checked.
pub check_buf-fill_buf :
    (buf : List ℕ)
    → word_size ≤ length buf
    → length buf < 2 ^ 64
    → (filled : List ℕ) × (fill_buf buf ≡ some filled)
      × (length filled ≡ length buf)
      × (check_buf filled ≡ true)
unfolding fill_buf check_buf
check_buf-fill_buf buf enough small =
    let n : ℕ = length buf in
    let word : List ℕ = le_bytes word_size n in
    let body : List ℕ = fill_bytes 0 (drop word_size buf) in
    let n_word : length word ≡ word_size = length-le_bytes word_size n in
    let n_all : length (word ++ body) ≡ n = omega (
      arith,
      length-append word body,
      n_word,
      length-fill_bytes 0 (drop word_size buf),
      length-drop word_size buf,
      enough,
    ) in
    let long : leb word_size n ≡ true = ground (arith, enough) in
    let front : take word_size (word ++ body) ≡ word = rw n_word at (take-append word body) in
    let behind : drop word_size (word ++ body) ≡ body = rw n_word at (drop-append word body) in
    (
      word ++ body,
      rw long,
      n_all,
      rw (n_all, long, front, behind, from_le-le_bytes word_size n small, (==_iff n n).1 refl)
          (check_bytes-fill_bytes 0 (drop word_size buf)),
    )
