-- ===== src/Memory.antt =====
-- The bytes of the queue's file behind `left` and `right` of src/lib.rs. The two mappings lie side by
-- side and show the same `size` bytes, so the byte at offset `o` from `left` is the file's `o % size`.
pub mod Laws
use memequeue.Prelude.{
  ℕ, zero, suc, ◌+◌, ◌%◌, List, [], ◌∷◌, ◌==◌, if◌then◌else◌, le_bytes, from_le, word_size,
}

abbrev pub Bytes : Type 0
Bytes = ℕ → ℕ

abbrev pub update : Bytes → ℕ → ℕ → Bytes
update m i b j = if i == j then b else m j

module _ (size : ℕ) where
  -- `slice::from_raw_parts(left + o, n)`
  unfoldable pub load : Bytes → ℕ → ℕ → List ℕ
  load m o zero = []
  load m o (suc n) = m (o % size) ∷ load m (o + 1) n

  -- `copy_nonoverlapping` of `bs` to `left + o`
  unfoldable pub store : Bytes → ℕ → List ℕ → Bytes
  store m o [] = m
  store m o (b ∷ bs) = store (update m (o % size) b) (o + 1) bs

  -- `read_unaligned` and `write_unaligned` of a `usize`, the low byte first
  unfoldable pub load_usize : Bytes → ℕ → ℕ
  load_usize m o = from_le (load m o word_size)

  unfoldable pub store_usize : Bytes → ℕ → ℕ → Bytes
  store_usize m o n = store m o (le_bytes word_size n)
