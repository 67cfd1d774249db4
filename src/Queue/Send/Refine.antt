-- ===== src/Queue/Send/Refine.antt =====
-- `send` puts one message at the end of the queue, or none.
use memequeue.Prelude.{
  ℕ, ◌+◌, ◌≡◌, refl, ◌∙◌, ap, List, [], ◌∷◌, ◌++◌, append-nil, arith, length, length-append,
  replicate, drop, drop-drop, drop-min, drop-append_le, min, word_size, le_bytes, length-le_bytes,
  sub64, add32,
}
use memequeue.Memory.{load, store, store_usize}
use memequeue.Memory.Laws.{load-behind, load-store, load-store_above}
use memequeue.Io.{IoError, Result, ok, err, IfSome, Ends, Ends->>=, propagate}
use memequeue.Control.{Side, load_offset, commit_offset}
use memequeue.Process.{World, Peer, interfere, lock, unlock, notify}
use memequeue.Process.Stable.{SameQueue, lock_keeps, notify_keeps, unlock-SameQueue}
use memequeue.Queue.Types.{MemeQueue, MemeWriter, Callback}
use memequeue.Queue.Frames.{Message, Frames-snoc, Frames-store}
use memequeue.Queue.Inv.{IsMapped, Holds, Holds-SameQueue, Writing, IsReceiver}
use memequeue.Queue.Writer.{write_all}
use memequeue.Queue.Writer.After.{After}
use memequeue.Queue.Writer.Write.{WroteAll, WriteEnds, write-Wrote, write_all-WroteAll}
use memequeue.Queue.Send.{publish, run_callback, end_send, send}
use memequeue.Queue.Send.Callbacks.{Writes, HasSlices, message_limit, Ran, run_callback-Ran}

module _ (q : MemeQueue) (mapped : IsMapped q) where
  -- If the invariant of a write in progress holds and what is pending is a word of eight bytes and a
  -- body, then `publish` makes the body the last message of the queue.
  pub publish-Holds :
      (wr : MemeWriter) (w : World) (word body : List ℕ) (xs : List Message)
      → length word ≡ word_size
      → Writing q wr w (word ++ body) xs
      → Holds q (publish q wr w) (xs ++ body ∷ [])
  unfolding publish store_usize commit_offset
  publish-Holds wr w word body xs e i =
      let S : ℕ = q.left.size in
      let r : ℕ = w.header.right.offset in
      let l : ℕ = w.header.left.offset in
      let n : length (word ++ body) ≡ word_size + length body =
        omega (arith, length-append {0} word body) in
      let n_size : sub64 wr.total_written word_size ≡ length body = omega (arith, i.pend, mapped) in
      let n_end : add32 wr.right_offset wr.total_written ≡ r + word_size + length body =
        omega (arith, i.pend, mapped) in
      let size_word : List ℕ = le_bytes word_size (length body) in
      let n_word : length size_word ≡ word_size = length-le_bytes word_size (length body) in
      let body_at : load S w.bytes (r + word_size) (length body) ≡ body =
        rw e at (load-behind S w.bytes r word body i.pend.written) in
      rw (n_size, n_end, i.pend.start)
        (record {
          frames =
              Frames-snoc S (store S w.bytes r size_word) l r xs body
                (Frames-store S w.bytes l r xs r size_word i.holds.frames (omega arith)
                  (omega (arith, i.pend)))
                (rw n_word at (load-store S w.bytes r size_word (omega (arith, mapped))))
                (load-store_above S w.bytes (r + word_size) (length body) r size_word (omega arith)
                    (omega (arith, i.pend, n))
                  ∙ body_at);
          header = ground (arith, i.pend, i.holds.header, n);
        })

-- The memory holds what is left of the messages after some of the first have been taken.
pub record Taken (q : MemeQueue) (xs : List Message) (w : World) : Type 0 where
  pub taken : ℕ
  pub holds : Holds q w (drop taken xs)

Taken-SameQueue :
    (q : MemeQueue) (xs : List Message) (w w' : World)
    → SameQueue w w'
    → Taken q xs w
    → Taken q xs w'
Taken-SameQueue q xs w w' s t = record {
  taken = t.taken;
  holds = Holds-SameQueue q w w' (drop t.taken xs) s t.holds;
}

Taken-interfere :
    (q : MemeQueue) (peer : Peer)
    → IsReceiver q peer
    → (xs : List Message) (w : World) → Taken q xs w
    → Taken q xs (interfere peer w)
unfolding interfere
Taken-interfere q peer receiver xs w t =
    let r = receiver w (drop t.taken xs) t.holds in
    record {
      taken = t.taken + r.taken;
      holds =
          let h : Holds q (interfere peer w) (drop r.taken (drop t.taken xs)) = record {
            frames = r.holds.frames;
            header = r.holds.header;
          } in
          rw drop-drop at h;
    }

-- One message comes behind those of which some were taken.
Taken-snoc :
    (q : MemeQueue) (xs : List Message) (w : World) (n : ℕ) (x : Message)
    → Holds q w (drop n xs ++ x ∷ [])
    → Taken q (xs ++ x ∷ []) w
Taken-snoc q xs w n x h = record {
  taken = min n (length xs);
  holds = rw (drop-min n xs, drop-append_le (min n (length xs)) xs (x ∷ []) (omega arith)) at h;
}

-- The message that `send` adds: none if the callback has failed.
abbrev pub sent {ℓ κ} : {R : Type ℓ} {E : Type κ} → Result R E → Message → List Message
sent (ok r) bytes = bytes ∷ []
sent (err e) bytes = []

module _ (q : MemeQueue) {R E : Type 0} where
  -- What a call of `send` has done when it returns: it gives the callback's result, and the bytes that
  -- the callback wrote are one message behind all others, which the receiver goes on to take.
  pub record Delivered (cb : Callback R E) (xs : List Message) (d : Result R E × World)
      : Type 0 where
    pub bytes : Message
    pub writes : Writes (message_limit q) d.0 word_size cb bytes
    pub queue : Taken q (xs ++ sent d.0 bytes) d.1

module _ (q : MemeQueue) (mapped : IsMapped q) (peer : Peer) (receiver : IsReceiver q peer)
    {R E : Type 0} (from : IoError → E) where
  -- `end_send` adds what is pending to the queue if the callback has returned `ok`.
  end_send-Taken :
      (res : Result R E) (wr : MemeWriter) (w : World) (word body : List ℕ) (xs : List Message)
      → length word ≡ word_size
      → After q wr w (word ++ body) xs
      → let (r, w') = end_send q peer from res wr w in (r ≡ res) × Taken q (xs ++ sent res body) w'
  unfolding end_send
  end_send-Taken (err e) wr w word body xs n a =
      let t : Taken q xs w = record { taken = a.taken; holds = a.writing.holds } in
      (
        refl,
        Taken-SameQueue q (xs ++ []) w (unlock Side.right w) (unlock-SameQueue Side.right w)
            (rw append-nil t),
      )
  end_send-Taken (ok r) wr w word body xs n a =
      let w₁ : World = publish q wr w in
      let ys : List Message = xs ++ body ∷ [] in
      let t : Taken q ys w₁ =
        Taken-snoc q xs w₁ a.taken body
          (publish-Holds q mapped wr w word body (drop a.taken xs) n a.writing) in
      let (notified, t') =
        notify_keeps peer (Taken q ys) (Taken-SameQueue q ys) (Taken-interfere q peer receiver ys)
          Side.right w₁ t in
      let w₂ : World = (notify peer Side.right w₁).1 in
      (
        ap (λ p. propagate from p (ok r)) notified,
        Taken-SameQueue q ys w₂ (unlock Side.right w₂) (unlock-SameQueue Side.right w₂) t',
      )

  module _ (stuck : Type 0) (fuel : ℕ) (xs : List Message)
      (writes : WriteEnds q mapped peer receiver stuck fuel xs) where
    send-Ends :
        (cb : Callback R E) (w : World)
        → HasSlices cb
        → Ends stuck (Taken q xs) (lock peer fuel Side.right w)
        → Ends stuck (Delivered q cb xs) (send q peer from fuel cb w)
    unfolding send load_offset
    send-Ends cb w slices locks =
        let word : List ℕ = replicate word_size 0 in
        Ends->>= stuck (Taken q xs) (Delivered q cb xs) (lock peer fuel Side.right w) _ locks
          (λ w₁ t.
            let wr : MemeWriter = record {
              total_written = 0;
              right_offset = w₁.header.right.offset;
            } in
            let a : After q wr w₁ [] xs = record {
              taken = t.taken;
              writing = record {
                holds = t.holds;
                pend = record {
                  start = refl;
                  count = refl;
                  written = unfold load in refl;
                  end_in_mappings = omega arith;
                  end_in_ring = omega arith;
                  limited = omega (arith, mapped);
                };
              };
            } in
            Ends->>= stuck (WroteAll q mapped peer receiver word xs) (Delivered q cb xs)
              (write_all q peer fuel word wr w₁) _
              (write_all-WroteAll q mapped peer receiver stuck fuel xs writes word wr w₁ [] a
                (omega (arith, mapped)))
              (λ d i. rw (i.0) (
                Ends->>= stuck (Ran q mapped peer receiver cb word xs) (Delivered q cb xs)
                  (run_callback q peer fuel cb d.1 d.2) _
                  (run_callback-Ran q mapped peer receiver stuck fuel xs writes cb d.1 d.2 word
                    slices i.1)
                  (λ e c.
                    let (same, t') = end_send-Taken e.0 e.1 e.2 word c.added xs refl c.after in
                    record { bytes = c.added; writes = rw same c.writes; queue = rw same t' }))))

  -- If the callback writes slices shorter than 2^63 bytes and the queue holds `xs`, then, whatever a
  -- receiver does meanwhile, a `send` that returns has delivered: what the callback wrote is the last
  -- message behind a rest of `xs` if the callback succeeded, else only the rest is there.
  pub send-Delivered :
      (fuel : ℕ) (cb : Callback R E) (w : World) (xs : List Message)
      → HasSlices cb
      → Holds q w xs
      → IfSome (Delivered q cb xs) (send q peer from fuel cb w)
  send-Delivered fuel cb w xs slices h =
      send-Ends Unit fuel xs
        (λ buf wr w pending. write-Wrote q mapped peer receiver fuel buf wr w pending xs) cb w
        slices
        (lock_keeps peer (Taken q xs) (Taken-SameQueue q xs) (Taken-interfere q peer receiver xs)
          fuel Side.right w (record { taken = 0; holds = h }))
