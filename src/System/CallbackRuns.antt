-- ===== src/System/CallbackRuns.antt =====
-- The calls of `write_all` and of a callback of `send`, as runs of the system.
use memequeue.Prelude.{
  ℕ, zero, suc, ◌^◌, ◌≤◌, ◌<◌, ◌≡◌, refl, sym, ap, subst, ◌∙◌, inl, inr, Bool-cases, List, [], ◌∷◌,
  ◌++◌, arith, length, length-append, take, drop, length-drop, append-nil, append_assoc,
  take-append-drop, ◌==◌, if◌then◌else◌, some,
}
use memequeue.Io.{IoError, Result, ok, err, IfSome, Ends-map, Ends->>=}
use memequeue.Queue.Types.{MemeQueue, MemeWriter, Callback, finish, write_then, Done}
use memequeue.Queue.Writer.{write, write_all_rounds}
use memequeue.Queue.Send.{run_callback}
use memequeue.Queue.Send.Callbacks.{HasSlices}
use memequeue.Queue.Peers.{idle}
use memequeue.System.{writing, no_receiver, System, done}
use memequeue.System.WriteRuns.{Alone, Alone-trans, appended, WriteRun, write-WriteRun}

module _ (q : MemeQueue) where
  -- The run of a call that writes all of `buf` or fails.
  pub record AllRun (s : System) (buf pending : List ℕ) (d : Done (Unit {0}) IoError) : Type 0 where
    pub end : System
    pub alone : Alone q s end
    pub world : end.world ≡ d.2
    pub written : List ℕ
    pub sender : end.sender ≡ writing d.1 written
    pub all : d.0 ≡ ok tt → written ≡ pending ++ buf

  -- One `write` and the rest of `write_all`.
  rest-AllRun :
      (s t : System) (buf pending part rest : List ℕ) (d : Done (Unit {0}) IoError)
      → Alone q s t
      → part ++ rest ≡ buf
      → AllRun t rest (pending ++ part) d
      → AllRun s buf pending d
  rest-AllRun s t buf pending part rest d a e r = record {
    end = r.end;
    alone = Alone-trans q s t r.end a r.alone;
    world = r.world;
    written = r.written;
    sender = r.sender;
    all = λ h. r.all h ∙ append_assoc pending part rest ∙ ap (λ ys. pending ++ ys) e;
  }

  abbrev count : Result ℕ IoError → ℕ
  count (ok n) = n
  count (err e) = 0

  -- The rounds of `write_all` behind a `write`.
  after_write :
      (rounds fuel : ℕ) (buf pending : List ℕ) (s : System)
      → length buf < 2 ^ 63
      → (d : Done ℕ IoError)
      → ((wr : MemeWriter) (pending' : List ℕ) (t : System)
          → t.sender ≡ writing wr pending'
          → t.receiver ≡ no_receiver
          → IfSome
              (AllRun t (drop (count d.0) buf) pending')
              (write_all_rounds q idle rounds fuel (drop (count d.0) buf) wr t.world))
      → WriteRun q s buf pending d
      → IfSome (AllRun s buf pending) (elim d.0 [
        | err e ↦ some (err e, d.1, d.2)
        | ok n ↦
            let rest = write_all_rounds q idle rounds fuel (drop n buf) d.1 d.2 in
            if n == 0 then some (err IoError.write_zero, d.1, d.2) else rest
      ])
  after_write rounds fuel buf pending s small (err e, wr, w) again r = record {
    end = r.end;
    alone = r.alone;
    world = r.world;
    written = pending ++ [];
    sender = r.sender;
    all = λ h. cc;
  }
  after_write rounds fuel buf pending s small (ok n, wr, w) again r = elim (Bool-cases (n == 0)) [
    | inl nothing ↦ rw nothing (record {
      end = r.end;
      alone = r.alone;
      world = r.world;
      written = pending ++ take n buf;
      sender = r.sender;
      all = λ h. cc;
    })
    | inr something ↦ rw something (
        Ends-map Unit (AllRun r.end (drop n buf) (pending ++ take n buf)) (AllRun s buf pending)
          (write_all_rounds q idle rounds fuel (drop n buf) wr w)
          (subst
            (λ v.
              IfSome (AllRun r.end (drop n buf) (pending ++ take n buf))
                (write_all_rounds q idle rounds fuel (drop n buf) wr v))
            r.world (again wr (pending ++ take n buf) r.end r.sender r.alone.receiver))
          (λ d.
            rest-AllRun s r.end buf pending (take n buf) (drop n buf) d r.alone
              (take-append-drop n buf)))
  ]

  pub write_all-AllRun :
      (rounds fuel : ℕ) (buf : List ℕ) (wr : MemeWriter) (pending : List ℕ) (s : System)
      → s.sender ≡ writing wr pending
      → s.receiver ≡ no_receiver
      → length buf < 2 ^ 63
      → IfSome (AllRun s buf pending) (write_all_rounds q idle rounds fuel buf wr s.world)
  unfolding write_all_rounds
  write_all-AllRun rounds fuel [] wr pending s e free small = record {
    end = s;
    alone = record { runs = done; receiver = free; sent = refl; received = refl };
    world = refl;
    written = pending;
    sender = e;
    all = λ h. sym (append-nil pending);
  }
  write_all-AllRun zero fuel (b ∷ bs) wr pending s e free small = tt
  write_all-AllRun (suc rounds) fuel (b ∷ bs) wr pending s e free small =
      let buf : List ℕ = b ∷ bs in
      Ends->>= Unit (WriteRun q s buf pending) (AllRun s buf pending)
        (write q idle fuel buf wr s.world) _ (write-WriteRun q fuel buf wr pending s e free small)
        (λ d r.
          after_write rounds fuel buf pending s small d
            (λ wr' pending' t e' free'.
              write_all-AllRun rounds fuel (drop (count d.0) buf) wr' pending' t e' free'
                (omega (arith, length-drop (count d.0) buf, small)))
            r)

  -- `send`'s callback
  pub record CallbackRun {R E : Type 0} (s : System) (pending : List ℕ) (d : Done R E)
      : Type 0 where
    pub end : System
    pub alone : Alone q s end
    pub world : end.world ≡ d.2
    pub written : List ℕ
    pub sender : end.sender ≡ writing d.1 written
    pub longer : length pending ≤ length written

  pub run_callback-CallbackRun :
      {R E : Type 0} (fuel : ℕ) (cb : Callback R E) (wr : MemeWriter) (pending : List ℕ)
      (s : System)
      → s.sender ≡ writing wr pending
      → s.receiver ≡ no_receiver
      → HasSlices cb
      → IfSome (CallbackRun s pending) (run_callback q idle fuel cb wr s.world)
  unfolding run_callback
  run_callback-CallbackRun fuel (finish r) wr pending s e free slices = record {
    end = s;
    alone = record { runs = done; receiver = free; sent = refl; received = refl };
    world = refl;
    written = pending;
    sender = e;
    longer = omega arith;
  }
  run_callback-CallbackRun fuel (write_then buf k) wr pending s e free (small, slices) =
      Ends->>= Unit (WriteRun q s buf pending) (CallbackRun s pending)
        (write q idle fuel buf wr s.world) _ (write-WriteRun q fuel buf wr pending s e free small)
        (λ d r.
          let ih =
            run_callback-CallbackRun fuel (k d.0) d.1 (pending ++ appended q buf d.0) r.end r.sender
              r.alone.receiver (slices d.0) in
          Ends-map Unit (CallbackRun r.end (pending ++ appended q buf d.0)) (CallbackRun s pending)
            (run_callback q idle fuel (k d.0) d.1 d.2)
            (subst
              (λ v.
                IfSome (CallbackRun r.end (pending ++ appended q buf d.0))
                  (run_callback q idle fuel (k d.0) d.1 v))
              r.world ih)
            (λ d' r'. record {
              end = r'.end;
              alone = Alone-trans q s r.end r'.end r.alone r'.alone;
              world = r'.world;
              written = r'.written;
              sender = r'.sender;
              longer = omega (arith, r'.longer, length-append pending (appended q buf d.0));
            }))
