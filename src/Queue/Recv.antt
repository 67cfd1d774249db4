-- ===== src/Queue/Recv.antt =====
-- `MemeQueue::recv` of src/lib.rs.
pub mod Refine
use memequeue.Prelude.{
  ℕ, zero, suc, ◌+◌, List, Option, none, some, ltb, if◌then◌else◌, length, add32, as_u32, word_size,
}
use memequeue.Memory.{load, load_usize}
use memequeue.Io.{IoError, Result, ok, err, ◌>>=◌, propagate}
use memequeue.Control.{Side, load_offset, cached_offset, commit_offset}
use memequeue.Process.{World, Peer, with_header, unlock, lock, wait, notify}
use memequeue.Queue.Types.{MemeQueue, sync_load}

-- `slice`: the message that stands at `left_offset`
unfoldable pub message_at : MemeQueue → ℕ → World → List ℕ
unfolding load load_usize
message_at q left_offset w =
    let size = load_usize q.left.size w.bytes left_offset in
    load q.left.size w.bytes (left_offset + word_size) size

module _ (q : MemeQueue) (peer : Peer) {R E : Type 0} (from : IoError → E)
    (cb : List ℕ → Result R E) where
  -- The branch of `recv` that has a message, with the left lock held.
  unfoldable pub take_message : ℕ → World → Result R E × World
  take_message left_offset w =
      let slice = message_at q left_offset w in
      let res = cb slice in
      let next = add32 (add32 left_offset word_size) (as_u32 (length slice)) in
      let w₁ = unlock Side.left (with_header (commit_offset Side.left next) w) in
      let (notified, w₂) = notify peer Side.left w₁ in (propagate from notified res, w₂)

-- `held` is what the others do while this process has the left lock: nobody moves the offsets down.
module _ (q : MemeQueue) (peer held : Peer) where
  -- `right_offset` in `recv`
  unfoldable pub newer_or_synced : Option ℕ → ℕ → World → ℕ × World
  unfolding sync_load
  newer_or_synced none left_offset w = sync_load held Side.right w
  newer_or_synced (some cached) left_offset w =
      if ltb left_offset cached then (cached, w) else sync_load held Side.right w

  unfoldable pub reader_right_offset : ℕ → World → ℕ × World
  unfolding cached_offset newer_or_synced
  reader_right_offset left_offset w =
      newer_or_synced (cached_offset Side.right w.header) left_offset w

  module _ {R E : Type 0} (from : IoError → E) (cb : List ℕ → Result R E) where
    -- A round of the loop, with the left lock held; `again` is the next round.
    unfoldable pub recv_round :
        ℕ → (World → Option (Result R E × World)) → ℕ → ℕ × World → Option (Result R E × World)
    recv_round fuel again left_offset (right_offset, w) =
        if ltb left_offset right_offset
        then some (take_message q peer from cb left_offset w)
        else (wait peer fuel q.spin_on_wait Side.right right_offset (unlock Side.left w)
            >>= λ (waited, w'). elim waited [ err e ↦ some (err (from e), w') | ok _ ↦ again w' ])

    -- `none` when the fuel runs out before a message comes.
    unfoldable pub recv : ℕ → World → Option (Result R E × World)
    unfolding recv_round load_offset
    recv zero w = none
    recv (suc fuel) w = lock peer fuel Side.left w >>= λ w'.
        let left_offset = load_offset Side.left w'.header in
        recv_round fuel (recv fuel) left_offset (reader_right_offset left_offset w')
