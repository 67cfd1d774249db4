-- ===== src/Queue/Recv/Refine.antt =====
-- `recv` takes the first message of the queue.
use memequeue.Prelude.{
  ℕ, zero, suc, ◌+◌, ◌≤◌, ◌<◌, ◌≡◌, refl, sym, ap, ◌∙◌, inl, inr, List, [], ◌∷◌, ◌++◌, append-nil,
  append_assoc, arith, length, Option, some, none, ltb, ltb→lt, lt→ltb, ◌≢◌, Bool-cases, word_size,
  le_bytes, from_le, from_le-le_bytes, add32, as_u32,
}
use memequeue.Memory.{load_usize}
use memequeue.Io.{IoError, Result, IfSome, Ends->>=, Ends-of_ne_none, returned, propagate}
use memequeue.Control.{Side, load_offset, sync_load_offset, cached_offset, commit_offset, set_lock}
use memequeue.Process.{wait, World, Peer, with_header, interfere, lock, unlock}
use memequeue.Process.Stable.{
  SameQueue, lock_keeps, wait_keeps, Waited, notify_keeps, unlock-SameQueue, set_lock-SameQueue,
  lock_free,
}
use memequeue.Queue.Types.{MemeQueue, sync_load}
use memequeue.Queue.Frames.{Message, Frames-le}
use memequeue.Queue.Inv.{IsMapped, Holds, Holds-SameQueue, IsSender, IsHeldSender}
use memequeue.Queue.Recv.{
  newer_or_synced, reader_right_offset, message_at, take_message, recv_round, recv,
}

-- The memory holds the messages, with some added behind them.
pub record Grown (q : MemeQueue) (xs : List Message) (w : World) : Type 0 where
  pub added : List Message
  pub holds : Holds q w (xs ++ added)

Grown-SameQueue :
    (q : MemeQueue) (xs : List Message) (w w' : World)
    → SameQueue w w'
    → Grown q xs w
    → Grown q xs w'
Grown-SameQueue q xs w w' s g = record {
  added = g.added;
  holds = Holds-SameQueue q w w' (xs ++ g.added) s g.holds;
}

-- What a call of `recv` has done when it returns: of the messages there were and some added, the
-- callback got the first, its result is returned, and the others are left.
pub record Got {R E : Type 0} (q : MemeQueue) (cb : Message → Result R E) (xs : List Message)
    (d : Result R E × World) : Type 0 where
  pub added : List Message
  pub message : Message
  pub rest : List Message
  pub split : xs ++ added ≡ message ∷ rest
  pub returned : d.0 ≡ cb message
  pub holds : Holds q d.1 rest

module _ (q : MemeQueue) (mapped : IsMapped q) where
  -- The first message is what stands at the left offset.
  pub message_at_lem :
      (w : World) (x : Message) (xs : List Message)
      → Holds q w (x ∷ xs)
      → (message_at q w.header.left.offset w ≡ x)
        × (w.header.left.offset + word_size + length x ≤ w.header.right.offset)
  unfolding message_at load_usize
  message_at_lem w x xs h =
      let (word, body, rest) = h.frames in
      let le =
        Frames-le q.left.size w.bytes (w.header.left.offset + word_size + length x)
          w.header.right.offset xs rest in
      let n : from_le (le_bytes word_size (length x)) ≡ length x =
        from_le-le_bytes word_size (length x) (omega (arith, h.header, mapped)) in
      (rw (word, n) body, le)

module _ (q : MemeQueue) (mapped : IsMapped q) (peer : Peer) (sender : IsSender q peer) where
  pub Grown-interfere :
      (xs : List Message) (w : World) → Grown q xs w → Grown q xs (interfere peer w)
  unfolding interfere
  Grown-interfere xs w g =
      let s = sender w (xs ++ g.added) g.holds in
      let h : Holds q (interfere peer w) ((xs ++ g.added) ++ s.added) = record {
        frames = s.holds.frames;
        header = s.holds.header;
      } in
      record { added = g.added ++ s.added; holds = rw append_assoc at h }

  -- Past the callback, the message is gone from the queue.
  take_first-Got :
      {R E : Type 0} (from : IoError → E) (cb : Message → Result R E) (w : World) (x : Message)
      (rest : List Message)
      → Holds q w (x ∷ rest)
      → let (r, w') = take_message q peer from cb w.header.left.offset w in
        (r ≡ cb x) × Grown q rest w'
  unfolding take_message commit_offset
  take_first-Got from cb w x rest h =
      let (slice, le) = message_at_lem q mapped w x rest h in
      let l : ℕ = w.header.left.offset in
      let next : add32 (add32 l word_size) (as_u32 (length x)) ≡ l + word_size + length x =
        omega (arith, h.header, mapped) in
      let h₁ : Holds q (with_header (commit_offset Side.left (l + word_size + length x)) w) rest =
        record { frames = h.frames.2; header = ground (arith, h.header, le) } in
      let w₁ : World = with_header (commit_offset Side.left (l + word_size + length x)) w in
      let w₂ : World = unlock Side.left w₁ in
      let g₁ : Grown q rest w₁ = record { added = []; holds = rw append-nil h₁ } in
      let (notified, g₂) =
        notify_keeps peer (Grown q rest) (Grown-SameQueue q rest) (Grown-interfere rest) Side.left
          w₂ (Grown-SameQueue q rest w₁ w₂ (unlock-SameQueue Side.left w₁) g₁) in
      rw (slice, next) (ap (λ p. propagate from p (cb x)) notified, g₂)

  -- The queue is not empty, so a message is taken and given to the callback.
  take_message-Got :
      {R E : Type 0} (from : IoError → E) (cb : Message → Result R E) (w : World)
      (xs added ys : List Message)
      → xs ++ added ≡ ys
      → Holds q w ys
      → w.header.left.offset < w.header.right.offset
      → Got q cb xs (take_message q peer from cb w.header.left.offset w)
  take_message-Got from cb w xs added [] e h lt = absurd (omega (arith, h.frames))
  take_message-Got from cb w xs added (x ∷ rest) e h lt =
      let (returned, g) = take_first-Got from cb w x rest h in
      record {
        added = added ++ g.added;
        message = x;
        rest = rest ++ g.added;
        split = sym (append_assoc xs added g.added) ∙ ap (λ l. l ++ g.added) e;
        returned = returned;
        holds = g.holds;
      }

  module _ (held : Peer) (held_sender : IsHeldSender q held) where
    -- A right offset for `recv` to go by: the left offset has not moved.
    abbrev IsNewer : List Message → ℕ → ℕ × World → Type 0
    IsNewer xs lo (ro, w) =
        Grown q xs w × (w.header.left.offset ≡ lo) × (lo < ro → lo < w.header.right.offset)

    synced-IsNewer :
        (w : World) (xs : List Message)
        → Grown q xs w
        → IsNewer xs w.header.left.offset (sync_load held Side.right w)
    unfolding sync_load sync_load_offset interfere
    synced-IsNewer w xs g =
        let (s, same) = held_sender w (xs ++ g.added) g.holds in
        let h : Holds q (sync_load held Side.right w).1 ((xs ++ g.added) ++ s.added) = record {
          frames = s.holds.frames;
          header = ground (arith, s.holds.header);
        } in
        (record { added = g.added ++ s.added; holds = rw append_assoc at h }, same, λ lt. lt)

    newer_or_synced-IsNewer :
        (cached : Option ℕ) (w : World) (xs : List Message)
        → ((c : ℕ) → cached ≡ some c → c ≤ w.header.right.offset)
        → Grown q xs w
        → IsNewer xs w.header.left.offset
            (newer_or_synced q peer held cached w.header.left.offset w)
    unfolding newer_or_synced
    newer_or_synced-IsNewer none w xs old g = synced-IsNewer w xs g
    newer_or_synced-IsNewer (some c) w xs old g = elim (Bool-cases (ltb w.header.left.offset c)) [
      | inl newer ↦ rw newer (g, refl, λ lt. omega (arith, old c refl))
      | inr older ↦ rw older (synced-IsNewer w xs g)
    ]

    reader_right_offset-IsNewer :
        (w : World) (xs : List Message)
        → Grown q xs w
        → IsNewer xs w.header.left.offset (reader_right_offset q peer held w.header.left.offset w)
    unfolding reader_right_offset cached_offset
    reader_right_offset-IsNewer w xs g =
        newer_or_synced-IsNewer (cached_offset Side.right w.header) w xs
          (λ c e. ground (arith, g.holds.header)) g

    -- If the queue holds `xs` and what senders have added, then, whatever senders do meanwhile, a `recv`
    -- that returns has given the first message to the callback, taken it off and left the rest.
    pub recv-Got :
        {R E : Type 0} (from : IoError → E) (cb : Message → Result R E) (fuel : ℕ) (w : World)
        (xs : List Message)
        → Grown q xs w
        → IfSome (Got q cb xs) (recv q peer held from cb fuel w)
    unfolding recv recv_round load_offset
    recv-Got from cb zero w xs g = tt
    recv-Got from cb (suc fuel) w xs g =
        Ends->>= Unit (Grown q xs) (Got q cb xs) (lock peer fuel Side.left w) _
          (lock_keeps peer (Grown q xs) (Grown-SameQueue q xs) (Grown-interfere xs) fuel Side.left w
            g)
          (λ w₁ g₁.
            let lo : ℕ = w₁.header.left.offset in
            let (ro, w₂) = reader_right_offset q peer held lo w₁ in
            let (g₂, same, seen) = reader_right_offset-IsNewer w₁ xs g₁ in
            elim (Bool-cases (ltb lo ro)) [
              | inl ready ↦ rw ready (
                  rw same at (
                    take_message-Got from cb w₂ xs g₂.added (xs ++ g₂.added) refl g₂.holds
                      (omega (arith, same, seen (ltb→lt _ _ ready)))))
              | inr empty ↦ rw empty (
                  let w₃ : World = unlock Side.left w₂ in
                  Ends->>= Unit (Waited (Grown q xs)) (Got q cb xs)
                    (wait peer fuel q.spin_on_wait Side.right ro w₃) _
                    (wait_keeps peer (Grown q xs) (Grown-SameQueue q xs) (Grown-interfere xs) fuel
                      q.spin_on_wait Side.right ro w₃
                      (Grown-SameQueue q xs w₂ w₃ (unlock-SameQueue Side.left w₂) g₂))
                    (λ d c. rw (c.0) (recv-Got from cb fuel d.1 xs c.1)))
            ])

    -- A message that is there is seen.
    synced_sees :
        (w : World) (x : Message) (xs : List Message)
        → Grown q (x ∷ xs) w
        → w.header.left.offset < (sync_load held Side.right w).0
    unfolding sync_load sync_load_offset interfere
    synced_sees w x xs g =
        let (s, same) = held_sender w (x ∷ xs ++ g.added) g.holds in
        let (_, le) = message_at_lem q mapped (held w) x ((xs ++ g.added) ++ s.added) s.holds in
        omega (arith, same, le)

    newer_or_synced_sees :
        (cached : Option ℕ) (w : World) (x : Message) (xs : List Message)
        → Grown q (x ∷ xs) w
        → w.header.left.offset < (newer_or_synced q peer held cached w.header.left.offset w).0
    unfolding newer_or_synced
    newer_or_synced_sees none w x xs g = synced_sees w x xs g
    newer_or_synced_sees (some c) w x xs g = elim (Bool-cases (ltb w.header.left.offset c)) [
      | inl newer ↦ rw newer (ltb→lt _ _ newer)
      | inr older ↦ rw older (synced_sees w x xs g)
    ]

    recv_ne_none :
        {R E : Type 0} (from : IoError → E) (cb : Message → Result R E) (fuel : ℕ) (w : World)
        (x : Message) (xs : List Message)
        → Holds q w (x ∷ xs)
        → (interfere peer w).header.left.lock ≡ 0
        → recv q peer held from cb (suc fuel) w ≢ none
    unfolding recv recv_round load_offset reader_right_offset
    recv_ne_none from cb fuel w x xs h free =
        let w₁ : World = with_header (set_lock Side.left 1) (interfere peer w) in
        let g : Grown q (x ∷ xs) w₁ =
          Grown-SameQueue q (x ∷ xs) (interfere peer w) w₁
            (set_lock-SameQueue Side.left 1 (interfere peer w))
            (Grown-interfere (x ∷ xs) w (record { added = []; holds = rw append-nil h })) in
        let sees = newer_or_synced_sees (cached_offset Side.right w₁.header) w₁ x xs g in
        rw (lock_free peer fuel Side.left w free, lt→ltb _ _ sees) (λ e. cc)

    -- With a message in the queue and the left lock free, `recv` returns after one round of the loop,
    -- whatever senders do meanwhile, and has given the first message to the callback and left the rest.
    pub recv_returns :
        {R E : Type 0} (from : IoError → E) (cb : Message → Result R E) (fuel : ℕ) (w : World)
        (x : Message) (xs : List Message)
        → Holds q w (x ∷ xs)
        → (interfere peer w).header.left.lock ≡ 0
        → (d : Result R E × World) × (recv q peer held from cb (suc fuel) w ≡ some d)
          × Got q cb (x ∷ xs) d
    recv_returns from cb fuel w x xs h free =
        returned (Got q cb (x ∷ xs)) (recv q peer held from cb (suc fuel) w) (
          Ends-of_ne_none ⊥ (Got q cb (x ∷ xs)) (recv q peer held from cb (suc fuel) w)
            (recv-Got from cb (suc fuel) w (x ∷ xs)
              (record { added = []; holds = rw append-nil h }))
            (recv_ne_none from cb fuel w x xs h free))
