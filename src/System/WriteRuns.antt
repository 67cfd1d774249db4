-- ===== src/System/WriteRuns.antt =====
-- A call of `write` with nobody else at work is a run of the system.
use memequeue.Prelude.{
  ℕ, zero, suc, ◌^◌, ◌<◌, ◌≡◌, refl, sym, ap, ◌∙◌, inl, inr, Bool-cases, List, [], ◌∷◌, ◌++◌, ltb,
  leb, min, false, length, take, append-nil,
}
use memequeue.Io.{IoError, Result, ok, err, IfSome, Ends-map, Ends->>=}
use memequeue.Control.{Side}
use memequeue.Process.{World, unlock, wait, lock}
use memequeue.Process.Stable.{Waited, SameQueue, unlock-SameQueue, lock_keeps, wait_keeps}
use memequeue.Queue.Types.{MemeQueue, MemeWriter, Done}
use memequeue.Queue.Writer.{
  space_left, copy_part, rebase, writer_left_offset, write_round, write_loop, write,
}
use memequeue.Queue.Peers.{idle}
use memequeue.System.{
  writing, chosen, rebasing, no_receiver, lent, System, place, too_much, part_of, chose, copied,
  moved_down, choose, copy, lock_left, move_down, wait_left, synchronise, Runs, done, then_step,
}
use memequeue.System.RecvRuns.{Runs-trans, SameQueue-refl, idle-SameQueue, from-SameQueue}

-- A run of the sender alone: the receivers and the logs are as they were.
pub record Alone (q : MemeQueue) (s t : System) : Type 0 where
  pub runs : Runs q s t
  pub receiver : t.receiver ≡ no_receiver
  pub sent : t.sent ≡ s.sent
  pub received : t.received ≡ s.received

pub Alone-trans : (q : MemeQueue) (s t u : System) → Alone q s t → Alone q t u → Alone q s u
Alone-trans q s t u a b = record {
  runs = Runs-trans a.runs b.runs;
  receiver = b.receiver;
  sent = b.sent ∙ a.sent;
  received = b.received ∙ a.received;
}

pub take-length-take : (k : ℕ) (xs : List ℕ) → take (length (take k xs)) xs ≡ take k xs
take-length-take zero xs = refl
take-length-take (suc k) [] = refl
take-length-take (suc k) (x ∷ xs) = ap (λ ys. x ∷ ys) (take-length-take k xs)

module _ (q : MemeQueue) where
  -- What a call of `write` has appended, by its result.
  abbrev pub appended : List ℕ → Result ℕ IoError → List ℕ
  appended buf (ok n) = take n buf
  appended buf (err e) = []

  -- The run of a `write` from a state in which `pending` was written.
  pub record WriteRun (s : System) (buf pending : List ℕ) (d : Done ℕ IoError) : Type 0 where
    pub end : System
    pub alone : Alone q s end
    pub world : end.world ≡ d.2
    pub sender : end.sender ≡ writing d.1 (pending ++ appended buf d.0)

  WriteRun-after :
      (s t : System) (buf pending : List ℕ) (d : Done ℕ IoError)
      → Alone q s t
      → WriteRun t buf pending d
      → WriteRun s buf pending d
  WriteRun-after s t buf pending d a r = record {
    end = r.end;
    alone = Alone-trans q s t r.end a r.alone;
    world = r.world;
    sender = r.sender;
  }

  abbrev LoopRuns : ℕ → Type 0
  LoopRuns fuel =
      (buf : List ℕ) (wr : MemeWriter) (pending : List ℕ) (s : System)
      → s.sender ≡ writing wr pending
      → s.receiver ≡ no_receiver
      → length buf < 2 ^ 63
      → too_much q wr buf ≡ false
      → IfSome (WriteRun s buf pending) (write_loop q idle fuel buf wr s.world)

  -- The round behind the choice of the left offset.
  round-WriteRun :
      (fuel : ℕ) (again : LoopRuns fuel) (buf : List ℕ) (wr : MemeWriter) (pending : List ℕ)
      (lo : ℕ) (s : System)
      → s.sender ≡ chosen lo buf wr pending
      → s.receiver ≡ no_receiver
      → length buf < 2 ^ 63
      → too_much q wr buf ≡ false
      → IfSome
          (WriteRun s buf pending)
          (write_round q idle fuel (write_loop q idle fuel buf) buf wr (place wr) (lo, s.world))
  unfolding write_round copy_part rebase
  round-WriteRun fuel again buf wr pending lo s e free small fine =
      elim (Bool-cases (ltb 0 (space_left q lo (place wr)))) [
        | inl some_room ↦ rw some_room (record {
          end = copied q s lo buf wr pending;
          alone = record {
            runs = then_step done (copy e some_room);
            receiver = free;
            sent = refl;
            received = refl;
          };
          world = refl;
          sender =
              ap
                (λ part.
                  writing (copy_part q (place wr) (part_of q s lo buf wr) wr s.world).1
                    (pending ++ part))
                (sym (take-length-take (min (space_left q lo (place wr)) (length buf)) buf));
        })
        | inr none_left ↦ rw none_left (elim (Bool-cases (leb q.left.size lo)) [
          | inl at_end ↦ rw at_end (
              Ends->>= Unit (SameQueue s.world) (WriteRun s buf pending)
                (lock idle fuel Side.left s.world) _
                (lock_keeps idle (SameQueue s.world) (from-SameQueue s.world)
                  (idle-SameQueue s.world) fuel Side.left s.world (SameQueue-refl s.world))
                (λ w₁ same.
                  let s₁ : System = record s {
                    sender = rebasing wr pending;
                    receiver = lent;
                    world = w₁;
                  } in
                  let (wr', w₂) = rebase q (place wr) wr w₁ in
                  let w₃ : World = unlock Side.left w₂ in
                  let s₃ : System = record (moved_down q s₁ wr pending) { world = w₃ } in
                  Ends-map Unit (WriteRun s₃ buf pending) (WriteRun s buf pending)
                    (write_loop q idle fuel buf wr' w₃)
                    (again buf wr' pending s₃ refl refl small fine)
                    (λ d. WriteRun-after s s₃ buf pending d (record {
                      runs =
                          then_step
                            (then_step
                              (then_step (then_step done (lock_left e free none_left at_end))
                                (synchronise w₁ same))
                              (move_down refl))
                            (synchronise w₃ (unlock-SameQueue Side.left w₂));
                      receiver = refl;
                      sent = refl;
                      received = refl;
                    }))))
          | inr full ↦ rw full (
              Ends->>= Unit (Waited (SameQueue s.world)) (WriteRun s buf pending)
                (wait idle fuel q.spin_on_wait Side.left lo s.world) _
                (wait_keeps idle (SameQueue s.world) (from-SameQueue s.world)
                  (idle-SameQueue s.world) fuel q.spin_on_wait Side.left lo s.world
                  (SameQueue-refl s.world))
                (λ d c.
                  let s₁ : System = record s { sender = writing wr pending; world = d.1 } in
                  rw (c.0) (
                    Ends-map Unit (WriteRun s₁ buf pending) (WriteRun s buf pending)
                      (write_loop q idle fuel buf wr d.1)
                      (again buf wr pending s₁ refl free small fine)
                      (λ f. WriteRun-after s s₁ buf pending f (record {
                        runs =
                            then_step (then_step done (wait_left e none_left full))
                              (synchronise d.1 c.1);
                        receiver = free;
                        sent = refl;
                        received = refl;
                      })))))
        ])
      ]

  loop-WriteRun : (fuel : ℕ) → LoopRuns fuel
  unfolding write_loop
  loop-WriteRun zero buf wr pending s e free small fine = tt
  loop-WriteRun (suc fuel) buf wr pending s e free small fine =
      let s₁ : System = chose q s buf wr pending in
      Ends-map Unit (WriteRun s₁ buf pending) (WriteRun s buf pending)
        (write_loop q idle (suc fuel) buf wr s.world)
        (round-WriteRun fuel (loop-WriteRun fuel) buf wr pending
          (writer_left_offset q idle (place wr) (length buf) s.world).0 s₁ refl free small fine)
        (λ d. WriteRun-after s s₁ buf pending d (record {
          runs = then_step done (choose buf e small fine);
          receiver = free;
          sent = refl;
          received = refl;
        }))

  pub write-WriteRun :
      (fuel : ℕ) (buf : List ℕ) (wr : MemeWriter) (pending : List ℕ) (s : System)
      → s.sender ≡ writing wr pending
      → s.receiver ≡ no_receiver
      → length buf < 2 ^ 63
      → IfSome (WriteRun s buf pending) (write q idle fuel buf wr s.world)
  unfolding write
  write-WriteRun fuel buf wr pending s e free small = elim (Bool-cases (too_much q wr buf)) [
    | inl over ↦ rw over (record {
      end = s;
      alone = record { runs = done; receiver = free; sent = refl; received = refl };
      world = refl;
      sender = e ∙ ap (λ ys. writing wr ys) (sym (append-nil pending));
    })
    | inr fine ↦ rw fine (loop-WriteRun fuel buf wr pending s e free small fine)
  ]
