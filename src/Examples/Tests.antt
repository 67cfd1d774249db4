-- ===== src/Examples/Tests.antt =====
-- A buffer of 12 bytes, and a message on a ring of 32 bytes.
use memequeue.Prelude.{ℕ, ◌≡◌, true, arith, some, List, length, replicate}
use memequeue.Examples.{fill_buf, check_buf, check_buf-fill_buf}

check_buf-fill_buf_example :
    (filled : List ℕ) × (fill_buf (replicate 12 7) ≡ some filled)
    × (length filled ≡ 12)
    × (check_buf filled ≡ true)
check_buf-fill_buf_example = check_buf-fill_buf (replicate 12 7) (omega arith) (omega arith)
