-- ===== src/System/RecvRuns.antt =====
-- A call of `recv` with nobody else at work is a run of the system.
use memequeue.Prelude.{
  ℕ, zero, suc, ◌≡◌, refl, ap, ◌∙◌, inl, inr, Bool-cases, [], ◌∷◌, ◌++◌, ltb, true, arith,
}
use memequeue.Io.{IoError, Result, IfSome, Ends-map, Ends->>=, propagate}
use memequeue.Control.{Side, load_offset}
use memequeue.Process.{World, interfere, unlock, wait, lock}
use memequeue.Process.Stable.{
  SameQueue, SameQueue-trans, unlock-SameQueue, lock_keeps, wait_keeps, Waited, notify_keeps,
}
use memequeue.Queue.Types.{MemeQueue}
use memequeue.Queue.Frames.{Message}
use memequeue.Queue.Recv.{message_at, reader_right_offset, take_message, recv_round, recv}
use memequeue.Queue.Peers.{idle}
use memequeue.System.{
  no_receiver, entered, seen, System, looked, commit_taken, start_recv, look, read, wait_right,
  commit_recv, synchronise, Runs, done, then_step,
}

pub Runs-trans : {q : MemeQueue} {s t u : System} → Runs q s t → Runs q t u → Runs q s u
Runs-trans r done = r
Runs-trans r (then_step r' st) = then_step (Runs-trans r r') st

pub SameQueue-refl : (w : World) → SameQueue w w
SameQueue-refl w = ground arith

pub idle-SameQueue : (w₀ w : World) → SameQueue w₀ w → SameQueue w₀ (interfere idle w)
unfolding interfere
idle-SameQueue w₀ w s = ground (arith, s)

pub from-SameQueue : (w₀ w w' : World) → SameQueue w w' → SameQueue w₀ w → SameQueue w₀ w'
from-SameQueue w₀ w w' s t = SameQueue-trans w₀ w w' t s

module _ (q : MemeQueue) {R E : Type 0} (from : IoError → E) (cb : Message → Result R E) where
  -- The run of a `recv` from `s` that has returned `d`.
  pub record RecvRun (s : System) (d : Result R E × World) : Type 0 where
    pub end : System
    pub runs : Runs q s end
    pub world : end.world ≡ d.1
    pub message : Message
    pub received : end.received ≡ s.received ++ message ∷ []
    pub returned : d.0 ≡ cb message
    pub receiver : end.receiver ≡ no_receiver
    pub sender : end.sender ≡ s.sender
    pub sent : end.sent ≡ s.sent

  RecvRun-trans :
      {s t : System} (d : Result R E × World)
      → Runs q s t
      → t.received ≡ s.received
      → t.sender ≡ s.sender
      → t.sent ≡ s.sent
      → RecvRun t d
      → RecvRun s d
  RecvRun-trans d r e f g run = record {
    end = run.end;
    runs = Runs-trans r run.runs;
    world = run.world;
    message = run.message;
    received = run.received ∙ ap (λ xs. xs ++ run.message ∷ []) e;
    returned = run.returned;
    receiver = run.receiver;
    sender = run.sender ∙ f;
    sent = run.sent ∙ g;
  }

  take_message-RecvRun :
      (s : System) (lo ro : ℕ)
      → s.receiver ≡ seen lo ro
      → ltb lo ro ≡ true
      → RecvRun s (take_message q idle from cb lo s.world)
  unfolding take_message commit_taken
  take_message-RecvRun s lo ro e lt =
      let slice : Message = message_at q lo s.world in
      let w₁ : World = commit_taken lo slice s.world in
      let w₂ : World = unlock Side.left w₁ in
      let (ok_notified, same) =
        notify_keeps idle (SameQueue w₁) (from-SameQueue w₁) (idle-SameQueue w₁) Side.left w₂
          (unlock-SameQueue Side.left w₁) in
      record {
        end = _;
        runs =
            then_step (then_step (then_step done (read e lt)) (commit_recv refl))
              (synchronise _ same);
        world = refl;
        message = slice;
        received = refl;
        returned = ap (λ p. propagate from p (cb slice)) ok_notified;
        receiver = refl;
        sender = refl;
        sent = refl;
      }

  -- What `recv` returns it has received in a run of the system from any state in which the left lock is
  -- free: one message, given to the callback, whose result is returned; the sender and what was sent
  -- are as they were.
  pub recv-RecvRun :
      (fuel : ℕ) (s : System)
      → s.receiver ≡ no_receiver
      → IfSome (RecvRun s) (recv q idle idle from cb fuel s.world)
  unfolding recv recv_round
  recv-RecvRun zero s e = tt
  recv-RecvRun (suc fuel) s e =
      Ends->>= Unit (SameQueue s.world) (RecvRun s) (lock idle fuel Side.left s.world) _
        (lock_keeps idle (SameQueue s.world) (from-SameQueue s.world) (idle-SameQueue s.world) fuel
          Side.left s.world (SameQueue-refl s.world))
        (λ w₁ same.
          let s₁ : System = record s { world = w₁ } in
          let lo : ℕ = load_offset Side.left w₁.header in
          let s₂ : System = record s₁ { receiver = entered lo } in
          let s₃ : System = looked q s₂ lo in
          let ro : ℕ = (reader_right_offset q idle idle lo w₁).0 in
          let runs : Runs q s s₃ =
            then_step (then_step (then_step done (synchronise w₁ same)) (start_recv e))
              (look refl) in
          elim (Bool-cases (ltb lo ro)) [
            | inl some_message ↦ rw some_message (
                RecvRun-trans _ runs refl refl refl
                  (take_message-RecvRun s₃ lo ro refl some_message))
            | inr none_yet ↦
                let w₃ : World = s₃.world in
                rw none_yet (
                  Ends->>= Unit (Waited (SameQueue w₃)) (RecvRun s)
                    (wait idle fuel q.spin_on_wait Side.right ro (unlock Side.left w₃)) _
                    (wait_keeps idle (SameQueue w₃) (from-SameQueue w₃) (idle-SameQueue w₃) fuel
                      q.spin_on_wait Side.right ro (unlock Side.left w₃)
                      (unlock-SameQueue Side.left w₃))
                    (λ d c.
                      let s₅ : System = record s₃ { receiver = no_receiver; world = d.1 } in
                      let runs₅ : Runs q s s₅ =
                        then_step (then_step runs (wait_right refl none_yet))
                          (synchronise d.1 c.1) in
                      rw (c.0) (
                        Ends-map Unit (RecvRun s₅) (RecvRun s) (recv q idle idle from cb fuel d.1)
                          (recv-RecvRun fuel s₅ refl) (λ e. RecvRun-trans e runs₅ refl refl refl))))
          ])
