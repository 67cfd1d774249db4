-- ===== src/Queue/Writer/After.antt =====
-- What the receiver does while `write` runs keeps the writer's invariant.
use memequeue.Prelude.{
  ℕ, ◌+◌, ◌≤◌, ◌<◌, ◌≡◌, ◌⊎◌, refl, inl, inr, List, arith, length, ltb, drop, drop-drop, add64,
  Bool-cases, ltb→lt, Option, some, none,
}
use memequeue.Control.{Side, cached_offset, sync_load_offset}
use memequeue.Process.{World, Peer, interfere}
use memequeue.Process.Stable.{SameQueue}
use memequeue.Queue.Types.{MemeQueue, MemeWriter, sync_load}
use memequeue.Queue.Frames.{Message, Frames-le}
use memequeue.Queue.Inv.{IsMapped, Writing, Writing-SameQueue, IsReceiver}
use memequeue.Queue.Writer.{cached_or_synced, writer_left_offset}

module _ (q : MemeQueue) where
  -- The writer's invariant after others have run: they have taken some messages.
  pub record After (wr : MemeWriter) (w : World) (pending : List ℕ) (xs : List Message)
      : Type 0 where
    pub taken : ℕ
    pub writing : Writing q wr w pending (drop taken xs)

  pub After-here :
      (wr : MemeWriter) (w : World) (pending : List ℕ) (xs : List Message)
      → Writing q wr w pending xs
      → After wr w pending xs
  After-here wr w pending xs i = record { taken = 0; writing = i }

  pub After-trans :
      (wr : MemeWriter) (w : World) (pending : List ℕ) (taken : ℕ) (xs : List Message)
      → After wr w pending (drop taken xs)
      → After wr w pending xs
  After-trans wr w pending taken xs a = record {
    taken = taken + a.taken;
    writing = rw drop-drop at a.writing;
  }

  pub After-SameQueue :
      (wr : MemeWriter) (w w' : World) (pending : List ℕ) (xs : List Message)
      → SameQueue w w'
      → After wr w pending xs
      → After wr w' pending xs
  After-SameQueue wr w w' pending xs s a = record {
    taken = a.taken;
    writing = Writing-SameQueue q wr w w' pending (drop a.taken xs) s a.writing;
  }

  module _ (peer : Peer) (receiver : IsReceiver q peer) where
    pub interfere-After :
        (wr : MemeWriter) (w : World) (pending : List ℕ) (xs : List Message)
        → Writing q wr w pending xs
        → After wr (interfere peer w) pending xs
    unfolding interfere
    interfere-After wr w pending xs i =
        let r = receiver w xs i.holds in
        record {
          taken = r.taken;
          writing = record {
            holds = record { frames = r.holds.frames; header = r.holds.header };
            pend = record {
              start = omega (arith, r.same_right);
              count = i.pend.count;
              written = rw (r.same_bytes, r.same_right) i.pend.written;
              end_in_mappings = omega (arith, r.same_right);
              end_in_ring = omega (arith, r.same_right, r.left_grows);
              limited = i.pend.limited;
            };
          };
        }

    pub After-interfere :
        (wr : MemeWriter) (w : World) (pending : List ℕ) (xs : List Message)
        → After wr w pending xs
        → After wr (interfere peer w) pending xs
    After-interfere wr w pending xs a =
        After-trans wr (interfere peer w) pending a.taken xs
          (interfere-After wr w pending (drop a.taken xs) a.writing)

    sync_load-After :
        (wr : MemeWriter) (w : World) (pending : List ℕ) (xs : List Message)
        → After wr w pending xs
        → let (lo, w') = sync_load peer Side.left w in
          After wr w' pending xs × (lo ≡ w'.header.left.offset)
    unfolding sync_load sync_load_offset
    sync_load-After wr w pending xs a =
        let b = After-interfere wr w pending xs a in
        (
          record {
            taken = b.taken;
            writing = record {
              holds = record {
                frames = b.writing.holds.frames;
                header = ground (arith, b.writing);
              };
              pend = record {
                start = b.writing.pend.start;
                count = b.writing.pend.count;
                written = b.writing.pend.written;
                end_in_mappings = b.writing.pend.end_in_mappings;
                end_in_ring = b.writing.pend.end_in_ring;
                limited = b.writing.pend.limited;
              };
            };
          },
          refl,
        )

    -- A left offset for `write` to go by: no further than the real one, and the room that it leaves
    -- does not end before the place to write.
    abbrev pub IsChosen : MemeWriter → List ℕ → List Message → ℕ × World → Type 0
    IsChosen wr pending xs (lo, w) =
        After wr w pending xs
        × (lo ≤ w.header.left.offset)
        × (w.header.right.offset + length pending ≤ lo + q.left.size)

    synced-IsChosen :
        (wr : MemeWriter) (w : World) (pending : List ℕ) (xs : List Message)
        → After wr w pending xs
        → IsChosen wr pending xs (sync_load peer Side.left w)
    synced-IsChosen wr w pending xs a =
        let (b, e) = sync_load-After wr w pending xs a in
        (b, omega arith, omega (arith, b.writing.pend.end_in_ring))

    cached_or_synced-IsChosen :
        IsMapped q
        → (cached : Option ℕ) (wr : MemeWriter) (w : World) (pending : List ℕ) (xs : List Message)
          (n : ℕ)
        → ((c : ℕ) → cached ≡ some c → c ≤ w.header.left.offset)
        → After wr w pending xs
        → n ≤ q.left.size
        → IsChosen wr pending xs
            (cached_or_synced q peer cached (w.header.right.offset + length pending) n w)
    unfolding cached_or_synced
    cached_or_synced-IsChosen mapped none wr w pending xs n old a h =
        synced-IsChosen wr w pending xs a
    cached_or_synced-IsChosen mapped (some c) wr w pending xs n old a h =
        let ro : ℕ = w.header.right.offset + length pending in
        let le =
          Frames-le q.left.size w.bytes w.header.left.offset w.header.right.offset (drop a.taken xs)
            a.writing.holds.frames in
        let le' = old c refl in
        elim (Bool-cases (ltb (add64 ro n) (add64 c q.left.size))) [
          | inl room ↦ rw room (
            a,
            le',
            omega (arith, ltb→lt _ _ room, mapped, a.writing.pend, a.writing.holds.header),
          )
          | inr short ↦ rw short (synced-IsChosen wr w pending xs a)
        ]

    pub writer_left_offset-IsChosen :
        IsMapped q
        → (wr : MemeWriter) (w : World) (pending : List ℕ) (xs : List Message) (n : ℕ)
        → After wr w pending xs
        → n ≤ q.left.size
        → IsChosen wr pending xs
            (writer_left_offset q peer (w.header.right.offset + length pending) n w)
    unfolding writer_left_offset cached_offset
    writer_left_offset-IsChosen mapped wr w pending xs n a h =
        cached_or_synced-IsChosen mapped (cached_offset Side.left w.header) wr w pending xs n
          (λ c e. ground (arith, a.writing.holds.header)) a h

    -- Where it is older than the call, it leaves room for all `n` bytes.
    cached_or_synced_recent :
        IsMapped q
        → (cached : Option ℕ) (wr : MemeWriter) (w : World) (pending : List ℕ) (xs : List Message)
          (n : ℕ)
        → ((c : ℕ) → cached ≡ some c → c ≤ w.header.left.offset)
        → After wr w pending xs
        → n ≤ q.left.size
        → let ro = w.header.right.offset + length pending in
          let lo = (cached_or_synced q peer cached ro n w).0 in
          (ro + n < lo + q.left.size) ⊎ (w.header.left.offset ≤ lo)
    unfolding cached_or_synced sync_load sync_load_offset interfere
    cached_or_synced_recent mapped none wr w pending xs n old a h =
        inr (receiver w (drop a.taken xs) a.writing.holds).left_grows
    cached_or_synced_recent mapped (some c) wr w pending xs n old a h =
        let ro : ℕ = w.header.right.offset + length pending in
        let le =
          Frames-le q.left.size w.bytes w.header.left.offset w.header.right.offset (drop a.taken xs)
            a.writing.holds.frames in
        let le' = old c refl in
        elim (Bool-cases (ltb (add64 ro n) (add64 c q.left.size))) [
          | inl room ↦
              rw room (
                inl
                  (omega (arith, ltb→lt _ _ room, mapped, a.writing.pend, a.writing.holds.header)))
          | inr short ↦ rw short (inr (receiver w (drop a.taken xs) a.writing.holds).left_grows)
        ]

    pub writer_left_offset_recent :
        IsMapped q
        → (wr : MemeWriter) (w : World) (pending : List ℕ) (xs : List Message) (n : ℕ)
        → After wr w pending xs
        → n ≤ q.left.size
        → let ro = w.header.right.offset + length pending in
          let lo = (writer_left_offset q peer ro n w).0 in
          (ro + n < lo + q.left.size) ⊎ (w.header.left.offset ≤ lo)
    unfolding writer_left_offset cached_offset
    writer_left_offset_recent mapped wr w pending xs n a h =
        cached_or_synced_recent mapped (cached_offset Side.left w.header) wr w pending xs n
          (λ c e. ground (arith, a.writing.holds.header)) a h
