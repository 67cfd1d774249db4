-- ===== src/Control/Eventfd/Tests.antt =====
-- A `wait` whose eventfd cannot be read, and the theorem there.
use memequeue.Prelude.{ℕ, ◌≡◌, refl, arith, u32_max}
use memequeue.Io.{IoError, ok, err}
use memequeue.Os.{fails}
use memequeue.Control.{Side, Header}
use memequeue.Control.Eventfd.{EventFds, Events, Counts, wait, wait-Counts}

abbrev broken : Events ℕ
broken = record {
  poll = λ fd timeout s. (ok 1, s);
  read = λ fd s. (err (IoError.os 11), s);
  write = λ fd n s. (ok tt, s);
}

abbrev two_events : EventFds
two_events = record { left_event = 4; right_event = 5 }

abbrev page : Header
page = record {
  left = record { offset = 0; lock = 0; cached_other_offset = u32_max };
  right = record { offset = 0; lock = 0; cached_other_offset = u32_max };
  left_waiters = 0;
  right_waiters = 0;
}

wait-Counts_example : Counts Side.right 0 (wait broken two_events (λ h. h) Side.right 0 (page, 7))
wait-Counts_example =
    wait-Counts broken two_events (λ h. h) Side.right (λ h. refl) 0 (omega arith) 0 page 7 refl

wait_fails :
    wait broken two_events (λ h. h) Side.right 0 (page, 7)
    ≡ (fails (IoError.os 11), (record page { right_waiters = 1 }, 7))
unfolding wait
wait_fails = refl
