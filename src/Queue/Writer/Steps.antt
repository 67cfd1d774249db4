-- ===== src/Queue/Writer/Steps.antt =====
-- The steps of `write` keep the writer's invariant.
use memequeue.Prelude.{
  ℕ, ◌+◌, ◌*◌, ◌-◌, ◌≤◌, ◌≡◌, refl, sym, ◌∙◌, List, ◌++◌, arith, length, length-append, min,
  word_size, sub64, add64, sub32, as_u32,
}
use memequeue.Memory.Laws.{load-mirror, load-store_behind}
use memequeue.Io.{ok}
use memequeue.Control.{load_offset, fix_offsets}
use memequeue.Process.{World}
use memequeue.Queue.Types.{MemeQueue, MemeWriter}
use memequeue.Queue.Frames.{Message, Frames-le, Frames-store, Frames-mirror}
use memequeue.Queue.Inv.{IsMapped, Writing}
use memequeue.Queue.Writer.{space_left, copy_part, rebase}

module _ (q : MemeQueue) (mapped : IsMapped q) where
  -- No pointer of `write` wraps.
  pub space_left_lem :
      (lo ro : ℕ)
      → lo ≤ 2 * q.left.size
      → ro ≤ 2 * q.left.size
      → ro ≤ lo + q.left.size
      → space_left q lo ro ≡ min (lo + q.left.size) (2 * q.left.size) - ro
  unfolding space_left
  space_left_lem lo ro a b c = omega arith

  -- What `write` copies joins the pending bytes.
  pub copy_part-Writing :
      (wr : MemeWriter) (w : World) (pending : List ℕ) (xs : List Message) (part : List ℕ)
      → Writing q wr w pending xs
      → length pending + length part + word_size ≤ q.left.size
      → w.header.right.offset + length pending + length part ≤ 2 * q.left.size
      → w.header.right.offset + length pending + length part ≤ w.header.left.offset + q.left.size
      → let (r, wr', w') = copy_part q (w.header.right.offset + length pending) part wr w in
        (r ≡ ok (length part)) × Writing q wr' w' (pending ++ part) xs
  unfolding copy_part
  copy_part-Writing wr w pending xs part i h k l =
      let o : ℕ = w.header.right.offset + length pending in
      let e : sub64 (add64 q.left.ptr o) q.left.ptr ≡ o = omega arith in
      let n : length (pending ++ part) ≡ length pending + length part =
        length-append pending part in
      rw e (
        refl,
        record {
          holds = record {
            frames =
                Frames-store q.left.size w.bytes w.header.left.offset w.header.right.offset xs o
                  part i.holds.frames (omega arith) (omega arith);
            header = i.holds.header;
          };
          pend = record {
            start = i.pend.start;
            count = omega (arith, n);
            written =
                load-store_behind q.left.size w.bytes w.header.right.offset pending part
                  i.pend.written (omega arith);
            end_in_mappings = omega (arith, n);
            end_in_ring = omega (arith, n);
            limited = omega (arith, n);
          };
        },
      )

  -- If the left offset is a ring's size or more, `rebase` moves both offsets down by that size, and the
  -- messages and the bytes pending behind them stay what they were.
  pub rebase-Writing :
      (wr : MemeWriter) (w : World) (pending : List ℕ) (xs : List Message)
      → Writing q wr w pending xs
      → q.left.size ≤ w.header.left.offset
      → let (wr', w') = rebase q (w.header.right.offset + length pending) wr w in
        Writing q wr' w' pending xs
        × (w'.header.right.offset + q.left.size ≡ w.header.right.offset)
        × (w'.header.left.offset + q.left.size ≡ w.header.left.offset)
  unfolding rebase load_offset fix_offsets
  rebase-Writing wr w pending xs i h =
      let S : ℕ = q.left.size in
      let l : ℕ = w.header.left.offset in
      let r : ℕ = w.header.right.offset in
      let le : l ≤ r = Frames-le S w.bytes l r xs i.holds.frames in
      let new_left : sub32 l (as_u32 S) ≡ l - S = omega arith in
      let new_right : sub32 (sub32 (r + length pending) wr.total_written) (as_u32 S) ≡ r - S =
        omega arith in
      let l_back : l - S + S ≡ l = omega arith in
      let r_back : r - S + S ≡ r = omega arith in
      rw (new_left, new_right)
        (
          record {
            holds = record {
              frames =
                  Frames-mirror S w.bytes (l - S) (r - S) xs (rw (l_back, r_back) i.holds.frames);
              header = omega arith;
            };
            pend = record {
              start = refl;
              count = i.pend.count;
              written =
                  sym (load-mirror S w.bytes (r - S) (length pending)) ∙ rw r_back i.pend.written;
              end_in_mappings = omega arith;
              end_in_ring = omega arith;
              limited = i.pend.limited;
            };
          },
          omega arith,
          omega arith,
        )
