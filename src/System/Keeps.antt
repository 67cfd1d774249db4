-- ===== src/System/Keeps.antt =====
-- The invariant of the system, and what its looks at the other side keep.
use memequeue.Prelude.{
  ℕ, ◌+◌, ◌≤◌, ◌<◌, ◌≡◌, refl, inl, inr, Bool-cases, Option, some, none, arith, List, ◌∷◌, ◌++◌,
  length, ltb, ltb→lt, add64, word_size,
}
use memequeue.Control.{Side, cached_offset, sync_load_offset}
use memequeue.Process.{World, interfere}
use memequeue.Queue.Types.{MemeQueue, MemeWriter, sync_load}
use memequeue.Queue.Frames.{Message}
use memequeue.Queue.Inv.{IsMapped, IsHeader, Holds, Pending, Writing}
use memequeue.Queue.Writer.{cached_or_synced, writer_left_offset}
use memequeue.Queue.Recv.{newer_or_synced, reader_right_offset}
use memequeue.Queue.Peers.{idle}
use memequeue.System.{
  Sender, no_sender, writing, chosen, rebasing, Receiver, no_receiver, lent, entered, seen, reading,
  System,
}

module _ (q : MemeQueue) where
  -- What the sender knows of the memory.
  abbrev pub SenderInv : World → Receiver → Sender → Type 0
  SenderInv w rc no_sender = Unit
  SenderInv w rc (writing wr pending) = Pending q wr w pending
  SenderInv w rc (chosen lo buf wr pending) =
      Pending q wr w pending
      × (lo ≤ w.header.left.offset)
      × (w.header.right.offset + length pending ≤ lo + q.left.size)
      × (length pending + length buf + word_size ≤ q.left.size)
  SenderInv w rc (rebasing wr pending) =
      Pending q wr w pending × (q.left.size ≤ w.header.left.offset) × (rc ≡ lent)

  -- What the receiver knows: the left offset, and in the callback the first message.
  abbrev pub ReceiverInv : World → List Message → Receiver → Type 0
  ReceiverInv w xs no_receiver = Unit
  ReceiverInv w xs lent = Unit
  ReceiverInv w xs (entered lo) = w.header.left.offset ≡ lo
  ReceiverInv w xs (seen lo ro) =
      (w.header.left.offset ≡ lo) × (lo < ro → lo < w.header.right.offset)
  ReceiverInv w xs (reading lo slice) =
      (w.header.left.offset ≡ lo) × ((rest : List Message) × (xs ≡ slice ∷ rest))

  pub record Inv (s : System) : Type 0 where
    pub contents : List Message
    pub holds : Holds q s.world contents
    pub log : s.sent ≡ s.received ++ contents
    pub sending : SenderInv s.world s.receiver s.sender
    pub receiving : ReceiverInv s.world contents s.receiver

  -- A step that changes at most the caches of the offsets, the locks and the waiters.
  pub record Looks (w w' : World) : Type 0 where
    pub same_bytes : w'.bytes ≡ w.bytes
    pub same_left : w'.header.left.offset ≡ w.header.left.offset
    pub same_right : w'.header.right.offset ≡ w.header.right.offset
    pub header : IsHeader q.left.size w.header → IsHeader q.left.size w'.header

  pub Looks-Holds : (w w' : World) (xs : List Message) → Looks w w' → Holds q w xs → Holds q w' xs
  Looks-Holds w w' xs l h = record {
    frames = rw (l.same_bytes, l.same_left, l.same_right) h.frames;
    header = l.header h.header;
  }

  -- Bytes pending depend on the bytes and the right offset, and on the left one, which may grow.
  pub Pending-kept :
      (wr : MemeWriter) (w w' : World) (pending : List ℕ)
      → w'.bytes ≡ w.bytes
      → w'.header.right.offset ≡ w.header.right.offset
      → w.header.left.offset ≤ w'.header.left.offset
      → Pending q wr w pending
      → Pending q wr w' pending
  Pending-kept wr w w' pending b r l p = record {
    start = omega (arith, p.start);
    count = p.count;
    written = rw (b, r) p.written;
    end_in_mappings = omega (arith, p.end_in_mappings);
    end_in_ring = omega (arith, p.end_in_ring);
    limited = p.limited;
  }

  pub SenderInv-Looks :
      (w w' : World) (rc : Receiver) (sd : Sender)
      → Looks w w'
      → SenderInv w rc sd
      → SenderInv w' rc sd
  SenderInv-Looks w w' rc no_sender l i = tt
  SenderInv-Looks w w' rc (writing wr pending) l i =
      Pending-kept wr w w' pending l.same_bytes l.same_right (omega (arith, l.same_left)) i
  SenderInv-Looks w w' rc (chosen lo buf wr pending) l (p, a, b, c) = (
    Pending-kept wr w w' pending l.same_bytes l.same_right (omega (arith, l.same_left)) p,
    omega (arith, l.same_left),
    omega (arith, l.same_right),
    c,
  )
  SenderInv-Looks w w' rc (rebasing wr pending) l (p, a, b) = (
    Pending-kept wr w w' pending l.same_bytes l.same_right (omega (arith, l.same_left)) p,
    omega (arith, l.same_left),
    b,
  )

  pub ReceiverInv-Looks :
      (w w' : World) (xs : List Message) (rc : Receiver)
      → Looks w w'
      → ReceiverInv w xs rc
      → ReceiverInv w' xs rc
  ReceiverInv-Looks w w' xs no_receiver l i = tt
  ReceiverInv-Looks w w' xs lent l i = tt
  ReceiverInv-Looks w w' xs (entered lo) l i = omega (arith, l.same_left)
  ReceiverInv-Looks w w' xs (seen lo ro) l (a, b) =
      (omega (arith, l.same_left), λ lt. omega (arith, b lt, l.same_right))
  ReceiverInv-Looks w w' xs (reading lo slice) l (a, b) = (omega (arith, l.same_left), b)

  Looks-refl : (w : World) → Looks w w
  Looks-refl w = record { same_bytes = refl; same_left = refl; same_right = refl; header = λ h. h }

  sync_load-Looks : (side : Side) (w : World) → Looks w (sync_load idle side w).1
  unfolding sync_load sync_load_offset interfere
  sync_load-Looks Side.left w = record {
    same_bytes = refl;
    same_left = refl;
    same_right = refl;
    header = λ h. ground (arith, h);
  }
  sync_load-Looks Side.right w = record {
    same_bytes = refl;
    same_left = refl;
    same_right = refl;
    header = λ h. ground (arith, h);
  }

  -- The sender's choice of a left offset.
  module _ (mapped : IsMapped q) (wr : MemeWriter) (w : World) (pending : List ℕ)
      (xs : List Message) (i : Writing q wr w pending xs) (n : ℕ) where
    -- A left offset for `write` to go by: no further than the real one, and the room that it leaves
    -- does not end before the place to write.
    abbrev IsChoice : ℕ × World → Type 0
    IsChoice (lo, w') =
        Looks w w'
        × (lo ≤ w.header.left.offset)
        × (w.header.right.offset + length pending ≤ lo + q.left.size)

    synced-IsChoice : IsChoice (sync_load idle Side.left w)
    unfolding sync_load sync_load_offset interfere
    synced-IsChoice = (sync_load-Looks Side.left w, omega arith, omega (arith, i.pend.end_in_ring))

    cached_or_synced-IsChoice :
        (cached : Option ℕ)
        → ((c : ℕ) → cached ≡ some c → c ≤ w.header.left.offset)
        → n ≤ q.left.size
        → IsChoice (cached_or_synced q idle cached (w.header.right.offset + length pending) n w)
    unfolding cached_or_synced
    cached_or_synced-IsChoice none old h = synced-IsChoice
    cached_or_synced-IsChoice (some c) old h =
        let ro : ℕ = w.header.right.offset + length pending in
        let le' = old c refl in
        elim (Bool-cases (ltb (add64 ro n) (add64 c q.left.size))) [
          | inl room ↦
              rw room
                (Looks-refl w, le', omega (arith, ltb→lt _ _ room, mapped, i.pend, i.holds.header))
          | inr short ↦ rw short synced-IsChoice
        ]

    pub writer_left_offset-IsChoice :
        n ≤ q.left.size
        → IsChoice (writer_left_offset q idle (w.header.right.offset + length pending) n w)
    unfolding writer_left_offset cached_offset
    writer_left_offset-IsChoice h =
        cached_or_synced-IsChoice (cached_offset Side.left w.header)
          (λ c e. ground (arith, i.holds.header)) h

  -- The receiver's choice of a right offset.
  module _ (w : World) (xs : List Message) (h : Holds q w xs) where
    abbrev IsSight : ℕ → ℕ × World → Type 0
    IsSight lo (ro, w') = Looks w w' × (lo < ro → lo < w.header.right.offset)

    synced-IsSight : (lo : ℕ) → IsSight lo (sync_load idle Side.right w)
    unfolding sync_load sync_load_offset interfere
    synced-IsSight lo = (sync_load-Looks Side.right w, λ lt. lt)

    newer_or_synced-IsSight :
        (cached : Option ℕ) (lo : ℕ)
        → ((c : ℕ) → cached ≡ some c → c ≤ w.header.right.offset)
        → IsSight lo (newer_or_synced q idle idle cached lo w)
    unfolding newer_or_synced
    newer_or_synced-IsSight none lo old = synced-IsSight lo
    newer_or_synced-IsSight (some c) lo old = elim (Bool-cases (ltb lo c)) [
      | inl newer ↦ rw newer (Looks-refl w, λ lt. omega (arith, old c refl))
      | inr older ↦ rw older (synced-IsSight lo)
    ]

    pub reader_right_offset-IsSight : (lo : ℕ) → IsSight lo (reader_right_offset q idle idle lo w)
    unfolding reader_right_offset cached_offset
    reader_right_offset-IsSight lo =
        newer_or_synced-IsSight (cached_offset Side.right w.header) lo
          (λ c e. ground (arith, h.header))
