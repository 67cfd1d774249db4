-- ===== src/System/SendRuns.antt =====
-- A call of `send` with nobody else at work is a run of the system.
use memequeue.Prelude.{
  ℕ, ◌≤◌, ◌≡◌, refl, sym, ap, subst, List, [], ◌∷◌, ◌++◌, arith, length, drop, replicate, word_size,
  some,
}
use memequeue.Io.{IoError, Result, ok, err, IfSome, Ends->>=, propagate, ◌>>=◌}
use memequeue.Control.{Side, load_offset}
use memequeue.Process.{World, unlock, lock, notify}
use memequeue.Process.Stable.{
  SameQueue, SameQueue-trans, unlock-SameQueue, lock_keeps, notify_keeps,
}
use memequeue.Queue.Types.{MemeQueue, MemeWriter, Callback, Done}
use memequeue.Queue.Writer.{write_all}
use memequeue.Queue.Send.{publish, run_callback, end_send, send}
use memequeue.Queue.Send.Callbacks.{HasSlices}
use memequeue.Queue.Frames.{Message}
use memequeue.Queue.Peers.{idle}
use memequeue.System.{
  no_sender, writing, no_receiver, System, began, published, start_send, commit_send, fail_send,
  synchronise, Runs, done, then_step,
}
use memequeue.System.RecvRuns.{SameQueue-refl, idle-SameQueue, from-SameQueue}
use memequeue.System.WriteRuns.{Alone, Alone-trans}
use memequeue.System.CallbackRuns.{AllRun, write_all-AllRun, CallbackRun, run_callback-CallbackRun}

module _ (q : MemeQueue) {R E : Type 0} (from : IoError → E) where
  -- What `send` adds to the messages sent, by its result.
  abbrev pub Logged : List Message → List Message → Result R E → Type 0
  Logged before after (ok r) = (m : Message) × (after ≡ before ++ m ∷ [])
  Logged before after (err e) = after ≡ before

  -- The run of a `send` from `s` that has returned `d`.
  pub record SendRun (s : System) (d : Result R E × World) : Type 0 where
    pub end : System
    pub runs : Runs q s end
    pub world : end.world ≡ d.1
    pub sent : Logged s.sent end.sent d.0
    pub received : end.received ≡ s.received
    pub sender : end.sender ≡ no_sender
    pub receiver : end.receiver ≡ no_receiver

  end_send-SendRun :
      (s t : System) (res : Result R E) (wr : MemeWriter) (pending : List ℕ)
      → Alone q s t
      → t.sender ≡ writing wr pending
      → word_size ≤ length pending
      → SendRun s (end_send q idle from res wr t.world)
  unfolding end_send
  end_send-SendRun s t (err e) wr pending a on long = record {
    end = record t { sender = no_sender; world = unlock Side.right t.world };
    runs =
        then_step (then_step a.runs (fail_send on))
          (synchronise (unlock Side.right t.world) (unlock-SameQueue Side.right t.world));
    world = refl;
    sent = a.sent;
    received = a.received;
    sender = refl;
    receiver = a.receiver;
  }
  end_send-SendRun s t (ok r) wr pending a on long =
      let w₁ : World = publish q wr t.world in
      let (notified, same) =
        notify_keeps idle (SameQueue w₁) (from-SameQueue w₁) (idle-SameQueue w₁) Side.right w₁
          (SameQueue-refl w₁) in
      let w₂ : World = (notify idle Side.right w₁).1 in
      let w₃ : World = unlock Side.right w₂ in
      subst (λ n. SendRun s (propagate from n (ok r), w₃)) (sym notified)
        (record {
          end = record (published q t wr pending) { world = w₃ };
          runs =
              then_step (then_step a.runs (commit_send on long))
                (synchronise w₃ (SameQueue-trans w₁ w₂ w₃ same (unlock-SameQueue Side.right w₂)));
          world = refl;
          sent = (drop word_size pending, ap (λ xs. xs ++ drop word_size pending ∷ []) a.sent);
          received = a.received;
          sender = refl;
          receiver = a.receiver;
        })

  -- The rest of `send` behind the room for the size, with the right lock held.
  body-SendRun :
      (fuel : ℕ) (cb : Callback R E) (s t : System) (d : Done (Unit {0}) IoError)
      → Alone q s t
      → HasSlices cb
      → AllRun q t (replicate word_size 0) [] d
      → IfSome (SendRun s) (elim d.0 [
        | err e ↦ some (err (from e), unlock Side.right d.2)
        | ok _ ↦ run_callback q idle fuel cb d.1 d.2 >>= λ (res, wr₃, w₃).
            some (end_send q idle from res wr₃ w₃)
      ])
  body-SendRun fuel cb s t (err e, wr, w) a slices r =
      let b = Alone-trans q s t r.end a r.alone in
      record {
        end = record r.end { sender = no_sender; world = unlock Side.right w };
        runs = then_step (then_step b.runs (fail_send r.sender)) (
            synchronise (unlock Side.right w) (
              subst (λ v. SameQueue v (unlock Side.right w)) (sym r.world)
                (unlock-SameQueue Side.right w)));
        world = refl;
        sent = b.sent;
        received = b.received;
        sender = refl;
        receiver = b.receiver;
      }
  body-SendRun fuel cb s t (ok u, wr, w) a slices r =
      let b = Alone-trans q s t r.end a r.alone in
      let eight : length r.written ≡ word_size = ap length (r.all refl) in
      Ends->>= Unit (CallbackRun q r.end r.written) (SendRun s) (run_callback q idle fuel cb wr w) _
        (subst (λ v. IfSome (CallbackRun q r.end r.written) (run_callback q idle fuel cb wr v))
          r.world
          (run_callback-CallbackRun q fuel cb wr r.written r.end r.sender r.alone.receiver slices))
        (λ d c.
          subst (λ v. SendRun s (end_send q idle from d.0 d.1 v)) c.world
            (end_send-SendRun s c.end d.0 d.1 c.written (Alone-trans q s r.end c.end b c.alone)
              c.sender (omega (arith, c.longer, eight))))

  -- What `send` returns it has sent in a run of the system from any state in which both locks are free:
  -- one message if it returns `ok`, and none if it returns an error; what was received is as it was.
  pub send-SendRun :
      (fuel : ℕ) (cb : Callback R E) (s : System)
      → s.sender ≡ no_sender
      → s.receiver ≡ no_receiver
      → HasSlices cb
      → IfSome (SendRun s) (send q idle from fuel cb s.world)
  unfolding send write_all
  send-SendRun fuel cb s e free slices =
      Ends->>= Unit (SameQueue s.world) (SendRun s) (lock idle fuel Side.right s.world) _
        (lock_keeps idle (SameQueue s.world) (from-SameQueue s.world) (idle-SameQueue s.world) fuel
          Side.right s.world (SameQueue-refl s.world))
        (λ w₁ same.
          let s₁ : System = record s { world = w₁ } in
          let t : System = began q s₁ in
          let wr : MemeWriter = record {
            total_written = 0;
            right_offset = load_offset Side.right w₁.header;
          } in
          Ends->>= Unit (AllRun q t (replicate word_size 0) []) (SendRun s)
            (write_all q idle fuel (replicate word_size 0) wr w₁) _
            (write_all-AllRun q word_size fuel (replicate word_size 0) wr [] t refl free
              (omega arith))
            (λ d.
              body-SendRun fuel cb s t d
                (record {
                  runs = then_step (then_step done (synchronise w₁ same)) (start_send e);
                  receiver = free;
                  sent = refl;
                  received = refl;
                })
                slices))
