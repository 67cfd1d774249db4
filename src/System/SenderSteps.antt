-- ===== src/System/SenderSteps.antt =====
-- The steps of the process with the right lock, and of the others on locks, keep the invariant.
use memequeue.Prelude.{
  ℕ, ◌+◌, ◌^◌, ◌≤◌, ◌<◌, ◌≡◌, refl, ap, arith, List, [], ◌∷◌, ◌++◌, append-nil, append_assoc,
  length, length-take, take, drop, min, leb, leb→le, true, false, word_size, take-append-drop,
}
use memequeue.Memory.{load}
use memequeue.Control.{load_offset, commit_offset}
use memequeue.Process.{World}
use memequeue.Process.Stable.{SameQueue}
use memequeue.Queue.Types.{MemeQueue, MemeWriter}
use memequeue.Queue.Frames.{Message, Frames-le}
use memequeue.Queue.Inv.{IsMapped, Holds-SameQueue, Pending, Writing}
use memequeue.Queue.Writer.{space_left, copy_part, writer_left_offset}
use memequeue.Queue.Peers.{idle}
use memequeue.Queue.Writer.Steps.{space_left_lem, copy_part-Writing, rebase-Writing}
use memequeue.Queue.Send.{publish}
use memequeue.Queue.Send.Refine.{publish-Holds}
use memequeue.System.{
  Sender, no_sender, writing, chosen, rebasing, Receiver, no_receiver, lent, entered, seen, reading,
  System, place, too_much, began, chose, copied, moved_down, published,
}
use memequeue.System.Keeps.{
  SenderInv, ReceiverInv, Inv, Looks, Looks-Holds, Pending-kept, SenderInv-Looks, ReceiverInv-Looks,
  writer_left_offset-IsChoice,
}

module _ (q : MemeQueue) (mapped : IsMapped q) where
  -- A sender that writes and publishes leaves the receiver's message the first.
  ReceiverInv-kept :
      (w w' : World) (xs added : List Message) (rc : Receiver)
      → w'.header.left.offset ≡ w.header.left.offset
      → w.header.right.offset ≤ w'.header.right.offset
      → ReceiverInv q w xs rc
      → ReceiverInv q w' (xs ++ added) rc
  ReceiverInv-kept w w' xs added no_receiver l r i = tt
  ReceiverInv-kept w w' xs added lent l r i = tt
  ReceiverInv-kept w w' xs added (entered lo) l r i = omega arith
  ReceiverInv-kept w w' xs added (seen lo ro) l r (a, b) = (omega arith, λ lt. omega (arith, b lt))
  ReceiverInv-kept w w' xs added (reading lo slice) l r (a, (rest, e)) =
      (omega arith, (rest ++ added, ap (λ ys. ys ++ added) e))

  place_lem :
      (wr : MemeWriter) (w : World) (pending : List ℕ)
      → Pending q wr w pending
      → place wr ≡ w.header.right.offset + length pending
  place_lem wr w pending p = omega (arith, p, mapped)

  fits_lem :
      (wr : MemeWriter) (w : World) (pending buf : List ℕ)
      → Pending q wr w pending
      → length buf < 2 ^ 63
      → too_much q wr buf ≡ false
      → length pending + length buf + word_size ≤ q.left.size
  fits_lem wr w pending buf p small e = ground (arith, p, mapped, e)

  module _ (s : System) (i : Inv q s) where
    -- What the sender knows while it writes.
    in_writing :
        {wr : MemeWriter} {pending : List ℕ}
        → s.sender ≡ writing wr pending
        → Pending q wr s.world pending
    in_writing e = rw e at i.sending

    pub start_send-Inv : s.sender ≡ no_sender → Inv q (began q s)
    unfolding load_offset load
    start_send-Inv e = record {
      contents = i.contents;
      holds = i.holds;
      log = i.log;
      sending = record {
        start = refl;
        count = refl;
        written = refl;
        end_in_mappings = omega (arith, i.holds.header);
        end_in_ring = omega (arith, i.holds.header);
        limited = omega (arith, mapped);
      };
      receiving = i.receiving;
    }

    -- The writer's invariant, as the lemmas of Queue/Writer take it.
    as_Writing :
        {wr : MemeWriter} {pending : List ℕ}
        → Pending q wr s.world pending
        → Writing q wr s.world pending i.contents
    as_Writing p = record { holds = i.holds; pend = p }

    pub choose-Inv :
        (buf : List ℕ) {wr : MemeWriter} {pending : List ℕ}
        → s.sender ≡ writing wr pending
        → length buf < 2 ^ 63
        → too_much q wr buf ≡ false
        → Inv q (chose q s buf wr pending)
    choose-Inv buf {wr} {pending} e small fine =
        let p = in_writing e in
        let fits = fits_lem wr s.world pending buf p small fine in
        let n : length buf ≤ q.left.size = omega (arith, fits) in
        let (l, low, room) =
          writer_left_offset-IsChoice q mapped wr s.world pending i.contents (as_Writing p)
            (length buf) n in
        let w' : World =
          (writer_left_offset q idle (s.world.header.right.offset + length pending) (length buf)
            s.world).1 in
        rw (place_lem wr s.world pending p) (record {
          contents = i.contents;
          holds = Looks-Holds q s.world w' i.contents l i.holds;
          log = i.log;
          sending = (
            Pending-kept q wr s.world w' pending l.same_bytes l.same_right
                (omega (arith, l.same_left)) p,
            omega (arith, low, l.same_left),
            omega (arith, room, l.same_right),
            fits,
          );
          receiving = ReceiverInv-Looks q s.world w' i.contents s.receiver l i.receiving;
        })

    pub copy-Inv :
        {lo : ℕ} {buf : List ℕ} {wr : MemeWriter} {pending : List ℕ}
        → s.sender ≡ chosen lo buf wr pending
        → Inv q (copied q s lo buf wr pending)
    unfolding copy_part
    copy-Inv {lo} {buf} {wr} {pending} e =
        let (p, low, room, fits) : SenderInv q s.world s.receiver (chosen lo buf wr pending) =
          rw e at i.sending in
        let ro : ℕ = s.world.header.right.offset + length pending in
        let part : List ℕ = take (min (space_left q lo ro) (length buf)) buf in
        let le =
          Frames-le q.left.size s.world.bytes s.world.header.left.offset s.world.header.right.offset
            i.contents i.holds.frames in
        let space =
          space_left_lem q mapped lo ro (omega (arith, low, le, i.holds.header)) (omega (arith, p))
            room in
        let n = length-take (min (space_left q lo ro) (length buf)) buf in
        let (_, c) =
          copy_part-Writing q mapped wr s.world pending i.contents part (as_Writing p)
            (omega (arith, n, fits)) (omega (arith, n, space, p))
            (omega (arith, n, space, low, p)) in
        let w' : World = (copy_part q ro part wr s.world).2 in
        rw (place_lem wr s.world pending p) (record {
          contents = i.contents;
          holds = c.holds;
          log = i.log;
          sending = c.pend;
          receiving =
              rw append-nil at (
                ReceiverInv-kept s.world w' i.contents [] s.receiver refl (omega arith)
                  i.receiving);
        })

    pub move_down-Inv :
        {wr : MemeWriter} {pending : List ℕ}
        → s.sender ≡ rebasing wr pending
        → Inv q (moved_down q s wr pending)
    move_down-Inv {wr} {pending} e =
        let (p, high, _) : SenderInv q s.world s.receiver (rebasing wr pending) =
          rw e at i.sending in
        let (c, _, _) = rebase-Writing q mapped wr s.world pending i.contents (as_Writing p) high in
        rw (place_lem wr s.world pending p) (record {
          contents = i.contents;
          holds = c.holds;
          log = i.log;
          sending = c.pend;
          receiving = tt;
        })

    pub publish-Inv :
        {wr : MemeWriter} {pending : List ℕ}
        → s.sender ≡ writing wr pending
        → word_size ≤ length pending
        → Inv q (published q s wr pending)
    unfolding publish commit_offset
    publish-Inv {wr} {pending} e long =
        let p = in_writing e in
        let word : List ℕ = take word_size pending in
        let body : List ℕ = drop word_size pending in
        let whole : word ++ body ≡ pending = take-append-drop word_size pending in
        let n : length word ≡ word_size = omega (arith, length-take word_size pending) in
        let h =
          publish-Holds q mapped wr s.world word body i.contents n (rw whole (as_Writing p)) in
        record {
          contents = i.contents ++ body ∷ [];
          holds = h;
          log = rw (i.log, append_assoc);
          sending = tt;
          receiving =
              ReceiverInv-kept s.world (publish q wr s.world) i.contents (body ∷ []) s.receiver refl
                (omega (arith, place_lem wr s.world pending p)) i.receiving;
        }

    pub synchronise-Inv : (w' : World) → SameQueue s.world w' → Inv q (record s { world = w' })
    synchronise-Inv w' same =
        let l : Looks q s.world w' = record {
          same_bytes = same.bytes;
          same_left = same.left_offset;
          same_right = same.right_offset;
          header = λ h. ground (arith, h, same);
        } in
        record {
          contents = i.contents;
          holds = Holds-SameQueue q s.world w' i.contents same i.holds;
          log = i.log;
          sending = SenderInv-Looks q s.world w' s.receiver s.sender l i.sending;
          receiving = ReceiverInv-Looks q s.world w' i.contents s.receiver l i.receiving;
        }

    pub lock_left-Inv :
        {lo : ℕ} {buf : List ℕ} {wr : MemeWriter} {pending : List ℕ}
        → s.sender ≡ chosen lo buf wr pending
        → leb q.left.size lo ≡ true
        → Inv q (record s { sender = rebasing wr pending; receiver = lent })
    lock_left-Inv {lo} {buf} {wr} {pending} e high =
        let (p, low, _, _) : SenderInv q s.world s.receiver (chosen lo buf wr pending) =
          rw e at i.sending in
        record {
          contents = i.contents;
          holds = i.holds;
          log = i.log;
          sending = (p, omega (arith, low, leb→le _ _ high), refl);
          receiving = tt;
        }

    -- The sender goes on, or gives up, with the memory as it is.
    pub resume-Inv :
        (sd : Sender) → SenderInv q s.world s.receiver sd → Inv q (record s { sender = sd })
    resume-Inv sd j = record {
      contents = i.contents;
      holds = i.holds;
      log = i.log;
      sending = j;
      receiving = i.receiving;
    }

    pub wait_left-Inv :
        {lo : ℕ} {buf : List ℕ} {wr : MemeWriter} {pending : List ℕ}
        → s.sender ≡ chosen lo buf wr pending
        → Inv q (record s { sender = writing wr pending })
    wait_left-Inv {lo} {buf} {wr} {pending} e =
        let (p, _, _, _) : SenderInv q s.world s.receiver (chosen lo buf wr pending) =
          rw e at i.sending in
        resume-Inv (writing wr pending) p
