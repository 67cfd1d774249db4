-- ===== src/Examples/Sends.antt =====
-- A buffer of examples/send_seq.rs as a message: its callback of `send`, over a queue with the futex
-- control; the example's own control is EventFdControl.
use memequeue.Prelude.{ℕ, zero, suc, ◌==◌, if◌then◌else◌, List, [], ◌∷◌, drop}
use memequeue.Io.{IoError, Result, ok, err}
use memequeue.Queue.Types.{Callback, finish, write_then}

-- A round of `write_all` behind its `write`; `again` is the next round.
unfoldable pub after_write_all :
    (List ℕ → Callback (Unit {0}) IoError) → List ℕ → Result ℕ IoError → Callback (Unit {0}) IoError
after_write_all again buf (err e) = finish (err e)
after_write_all again buf (ok n) =
    let rest = again (drop n buf) in if n == 0 then finish (err IoError.write_zero) else rest

-- `|writer| writer.write_all(buf)`, with the standard library's `write_all`: each round writes a byte or
-- ends, so that `length buf` rounds are enough.
unfoldable pub write_buf : ℕ → List ℕ → Callback (Unit {0}) IoError
unfolding after_write_all
write_buf rounds [] = finish (ok tt)
write_buf zero (b ∷ bs) = finish (err IoError.write_zero)
write_buf (suc rounds) (b ∷ bs) = write_then (b ∷ bs) (after_write_all (write_buf rounds) (b ∷ bs))
