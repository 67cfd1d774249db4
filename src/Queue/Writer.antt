-- ===== src/Queue/Writer.antt =====
-- `MemeWriter` of src/lib.rs.
pub mod Steps
pub mod After
pub mod Loop
pub mod Write
pub mod Room
pub mod Total
use memequeue.Prelude.{
  ℕ, zero, suc, List, [], ◌∷◌, Option, none, some, ◌||◌, min, ltb, leb, if◌then◌else◌, ◌==◌, length,
  take, drop, add32, sub32, as_u32, add64, sub64, u32_max, word_size,
}
use memequeue.Memory.{store}
use memequeue.Io.{IoError, ok, err, ◌>>=◌}
use memequeue.Control.{Side, load_offset, cached_offset, fix_offsets}
use memequeue.Process.{World, Peer, with_header, unlock, lock, wait}
use memequeue.Queue.Types.{MemeQueue, MemeWriter, Done, sync_load}

module _ (q : MemeQueue) where
  -- `end - right_ptr` in `write`
  unfoldable pub space_left : ℕ → ℕ → ℕ
  space_left left_offset right_offset =
      let end = add64 q.left.ptr (add64 left_offset q.left.size) in
      let right_bound = add64 q.right.ptr q.right.size in
      sub64 (min end right_bound) (add64 q.left.ptr right_offset)

  -- `copy_nonoverlapping(buf_part, right_ptr, len)` and `total_written += len`
  unfoldable pub copy_part : ℕ → List ℕ → MemeWriter → World → Done ℕ IoError
  copy_part right_offset part wr w =
      let right_ptr = add64 q.left.ptr right_offset in
      (
        ok (length part),
        record wr { total_written = add32 wr.total_written (as_u32 (length part)) },
        record w { bytes = store q.left.size w.bytes (sub64 right_ptr q.left.ptr) part },
      )

  -- The branch of `write` at the end of the mappings, with the left lock held.
  unfoldable pub rebase : ℕ → MemeWriter → World → MemeWriter × World
  unfolding load_offset fix_offsets
  rebase right_offset wr w =
      let size = as_u32 q.left.size in
      let left_offset = load_offset Side.left w.header in
      let new_left_offset = sub32 left_offset size in
      let new_right_offset = sub32 (sub32 right_offset wr.total_written) size in
      (
        record wr { right_offset = new_right_offset },
        with_header (fix_offsets new_left_offset new_right_offset) w,
      )

  module _ (peer : Peer) where
    -- `left_offset` in `write`: the cached one if it leaves room for `n` bytes
    unfoldable pub cached_or_synced : Option ℕ → ℕ → ℕ → World → ℕ × World
    unfolding sync_load
    cached_or_synced none right_offset n w = sync_load peer Side.left w
    cached_or_synced (some offset) right_offset n w =
        if ltb (add64 right_offset n) (add64 offset q.left.size)
        then (offset, w)
        else sync_load peer Side.left w

    unfoldable pub writer_left_offset : ℕ → ℕ → World → ℕ × World
    unfolding cached_offset cached_or_synced
    writer_left_offset right_offset n w =
        cached_or_synced (cached_offset Side.left w.header) right_offset n w

    -- A round of the loop of `write`, behind the choice of the left offset; `again` is the next round.
    unfoldable pub write_round :
        ℕ
        → (MemeWriter → World → Option (Done ℕ IoError))
        → List ℕ
        → MemeWriter
        → ℕ
        → ℕ × World
        → Option (Done ℕ IoError)
    unfolding space_left copy_part rebase lock unlock wait
    write_round fuel again buf wr right_offset (left_offset, w) =
        let space = space_left left_offset right_offset in
        if ltb 0 space
        then some (copy_part right_offset (take (min space (length buf)) buf) wr w)
        else if leb q.left.size left_offset
        then (lock peer fuel Side.left w >>= λ w'.
            let (wr', w₂) = rebase right_offset wr w' in again wr' (unlock Side.left w₂))
        else (wait peer fuel q.spin_on_wait Side.left left_offset w >>= λ (waited, w').
            elim waited [ err e ↦ some (err e, wr, w') | ok _ ↦ again wr w' ])

    -- The loop of `write`. `none` when the fuel runs out before it returns.
    unfoldable pub write_loop : ℕ → List ℕ → MemeWriter → World → Option (Done ℕ IoError)
    unfolding writer_left_offset write_round
    write_loop zero buf wr w = none
    write_loop (suc fuel) buf wr w =
        let right_offset = add32 wr.right_offset wr.total_written in
        write_round fuel (write_loop fuel buf) buf wr right_offset
          (writer_left_offset right_offset (length buf) w)

    -- `Write::write` of `MemeWriter`
    unfoldable pub write : ℕ → List ℕ → MemeWriter → World → Option (Done ℕ IoError)
    unfolding write_loop
    write fuel buf wr w =
        let next_total_written = add64 wr.total_written (length buf) in
        if ltb u32_max next_total_written || ltb (sub64 q.left.size word_size) next_total_written
        then some (err IoError.other, wr, w)
        else write_loop fuel buf wr w

    -- The standard library's `write_all`, where `write` never reports an interruption. Each round
    -- writes a byte or ends, so that `length buf` rounds are enough.
    unfoldable pub write_all_rounds :
        ℕ → ℕ → List ℕ → MemeWriter → World → Option (Done (Unit {0}) IoError)
    unfolding write
    write_all_rounds rounds fuel [] wr w = some (ok tt, wr, w)
    write_all_rounds zero fuel (b ∷ bs) wr w = none
    write_all_rounds (suc rounds) fuel (b ∷ bs) wr w = write fuel (b ∷ bs) wr w >>= λ (r, wr', w').
        elim r [
          | err e ↦ some (err e, wr', w')
          | ok n ↦
              let rest = write_all_rounds rounds fuel (drop n (b ∷ bs)) wr' w' in
              if n == 0 then some (err IoError.write_zero, wr', w') else rest
        ]

    unfoldable pub write_all : ℕ → List ℕ → MemeWriter → World → Option (Done (Unit {0}) IoError)
    unfolding write_all_rounds
    write_all fuel buf = write_all_rounds (length buf) fuel buf
