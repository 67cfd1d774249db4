-- ===== src/System/ReceiverSteps.antt =====
-- The steps of the process with the left lock keep the invariant.
use memequeue.Prelude.{
  ℕ, ◌+◌, ◌≤◌, ◌<◌, ◌≡◌, ◌≢◌, refl, sym, ap, ◌∙◌, arith, List, [], ◌∷◌, ◌++◌, append_assoc, length,
  ltb, ltb→lt, true, word_size, add32, as_u32,
}
use memequeue.Control.{Side, load_offset, commit_offset}
use memequeue.Process.{World}
use memequeue.Queue.Types.{MemeQueue}
use memequeue.Queue.Frames.{Message}
use memequeue.Queue.Inv.{IsMapped, Holds}
use memequeue.Queue.Peers.{idle}
use memequeue.Queue.Recv.{message_at, reader_right_offset}
use memequeue.Queue.Recv.Refine.{message_at_lem}
use memequeue.System.{
  Sender, no_sender, writing, chosen, rebasing, Receiver, no_receiver, lent, entered, seen, reading,
  System, commit_taken, looked, took,
}
use memequeue.System.Keeps.{
  SenderInv, ReceiverInv, Inv, Looks-Holds, Pending-kept, reader_right_offset-IsSight,
}

module _ (q : MemeQueue) (mapped : IsMapped q) where
  -- Taking a message lets the left offset grow, which the sender does not mind unless it moves all down.
  SenderInv-kept :
      (w w' : World) (rc rc' : Receiver) (sd : Sender)
      → w'.bytes ≡ w.bytes
      → w'.header.right.offset ≡ w.header.right.offset
      → w.header.left.offset ≤ w'.header.left.offset
      → rc ≢ lent
      → SenderInv q w rc sd
      → SenderInv q w' rc' sd
  SenderInv-kept w w' rc rc' no_sender b r l ne i = tt
  SenderInv-kept w w' rc rc' (writing wr pending) b r l ne i =
      Pending-kept q wr w w' pending b r l i
  SenderInv-kept w w' rc rc' (chosen lo buf wr pending) b r l ne (p, h, k, m) =
      (Pending-kept q wr w w' pending b r l p, omega arith, omega arith, m)
  SenderInv-kept w w' rc rc' (rebasing wr pending) b r l ne (p, h, e) = absurd (ne e)

  -- If the offsets differ, there is a first message, and it stands at the left one.
  first_message :
      (lo : ℕ) (w : World) (xs : List Message)
      → Holds q w xs
      → w.header.left.offset ≡ lo
      → lo < w.header.right.offset
      → (rest : List Message) × (xs ≡ message_at q lo w ∷ rest)
  first_message lo w [] h e lt = absurd (omega (arith, h.frames))
  first_message lo w (x ∷ rest) h e lt =
      let (slice, _) = message_at_lem q mapped w x rest h in
      (rest, ap (λ y. y ∷ rest) (sym slice ∙ ap (λ l. message_at q l w) e))

  not_lent : {rc rc' : Receiver} → rc ≡ rc' → rc' ≢ lent → rc ≢ lent
  not_lent e ne h = ne (sym e ∙ h)

  module _ (s : System) (i : Inv q s) where
    pub look-Inv : {lo : ℕ} → s.receiver ≡ entered lo → Inv q (looked q s lo)
    look-Inv {lo} e =
        let (l, seen_more) = reader_right_offset-IsSight q s.world i.contents i.holds lo in
        let w' : World = (reader_right_offset q idle idle lo s.world).1 in
        let at_left : s.world.header.left.offset ≡ lo = rw e at i.receiving in
        record {
          contents = i.contents;
          holds = Looks-Holds q s.world w' i.contents l i.holds;
          log = i.log;
          sending =
              SenderInv-kept s.world w' s.receiver _ s.sender l.same_bytes l.same_right
                (omega (arith, l.same_left)) (not_lent e (λ h. cc)) i.sending;
          receiving = (l.same_left ∙ at_left, λ lt. omega (arith, seen_more lt, l.same_right));
        }

    pub start_recv-Inv :
        s.receiver ≡ no_receiver
        → Inv q (record s { receiver = entered (load_offset Side.left s.world.header) })
    unfolding load_offset
    start_recv-Inv e = record {
      contents = i.contents;
      holds = i.holds;
      log = i.log;
      sending =
          SenderInv-kept s.world s.world s.receiver _ s.sender refl refl (omega arith)
            (not_lent e (λ h. cc)) i.sending;
      receiving = refl;
    }

    pub wait_right-Inv :
        {lo ro : ℕ} → s.receiver ≡ seen lo ro → Inv q (record s { receiver = no_receiver })
    wait_right-Inv e = record {
      contents = i.contents;
      holds = i.holds;
      log = i.log;
      sending =
          SenderInv-kept s.world s.world s.receiver _ s.sender refl refl (omega arith)
            (not_lent e (λ h. cc)) i.sending;
      receiving = tt;
    }

    pub read-Inv :
        {lo ro : ℕ}
        → s.receiver ≡ seen lo ro
        → ltb lo ro ≡ true
        → Inv q (record s { receiver = reading lo (message_at q lo s.world) })
    read-Inv {lo} {ro} e some_message =
        let (at_left, more) : ReceiverInv q s.world i.contents (seen lo ro) = rw e at i.receiving in
        let first =
          first_message lo s.world i.contents i.holds at_left (more (ltb→lt _ _ some_message)) in
        record {
          contents = i.contents;
          holds = i.holds;
          log = i.log;
          sending =
              SenderInv-kept s.world s.world s.receiver _ s.sender refl refl (omega arith)
                (not_lent e (λ h. cc)) i.sending;
          receiving = (at_left, first);
        }

    pub took-Inv :
        {lo : ℕ} {slice : Message} → s.receiver ≡ reading lo slice → Inv q (took q s lo slice)
    unfolding commit_taken commit_offset
    took-Inv {lo} {slice} e =
        let (at_left, (rest, first)) : ReceiverInv q s.world i.contents (reading lo slice) =
          rw e at i.receiving in
        let h : Holds q s.world (slice ∷ rest) = rw first at i.holds in
        let (_, le) = message_at_lem q mapped s.world slice rest h in
        let next : add32 (add32 lo word_size) (as_u32 (length slice))
            ≡ s.world.header.left.offset + word_size + length slice =
          omega (arith, h.header, mapped, at_left, le) in
        let w' : World = commit_taken lo slice s.world in
        record {
          contents = rest;
          holds = record {
            frames = rw next h.frames.2;
            header = ground (arith, next, h.header, le);
          };
          log =
              i.log
              ∙ ap (λ xs. s.received ++ xs) first
              ∙ sym (append_assoc s.received (slice ∷ []) rest);
          sending =
              SenderInv-kept s.world w' s.receiver no_receiver s.sender refl refl
                (omega (arith, next)) (not_lent e (λ h. cc)) i.sending;
          receiving = tt;
        }
