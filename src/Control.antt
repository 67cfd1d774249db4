-- ===== src/Control.antt =====
-- src/control/mod.rs and the header of src/control/shmem_futex.rs: the offsets that the two processes
-- share, their caches, the lock words and the waiter counts.
pub mod Eventfd
use memequeue.Prelude.{ℕ, Bool, Option, none, some, ◌==◌, if◌then◌else◌, u32_max, add32, sub32}

pub data Side : Type 0 where
  left right : Side

-- `Side::other`
abbrev pub other : Side → Side
other left = right
other right = left

-- `Half`: three `AtomicU32`.
pub record Half : Type 0 where
  pub offset : ℕ
  pub lock : ℕ
  pub cached_other_offset : ℕ

pub record Header : Type 0 where
  pub left : Half
  pub right : Half
  pub left_waiters : ℕ
  pub right_waiters : ℕ

-- `ShmemFutexControl::half` and `waiters`, to read and to write.
abbrev pub half : Side → Header → Half
half Side.left h = h.left
half Side.right h = h.right

abbrev pub set_half : Side → Half → Header → Header
set_half Side.left x h = record h { left = x }
set_half Side.right x h = record h { right = x }

abbrev pub waiters : Side → Header → ℕ
waiters Side.left h = h.left_waiters
waiters Side.right h = h.right_waiters

abbrev pub set_waiters : Side → ℕ → Header → Header
set_waiters Side.left n h = record h { left_waiters = n }
set_waiters Side.right n h = record h { right_waiters = n }

-- The header page, filled with zeros.
abbrev zero_half : Half
zero_half = record { offset = 0; lock = 0; cached_other_offset = 0 }

abbrev zero_header : Header
zero_header = record { left = zero_half; right = zero_half; left_waiters = 0; right_waiters = 0 }

abbrev uncached : Half → Half
uncached x = record x { cached_other_offset = u32_max }

-- `ShmemFutexControl::new`: what it leaves in the header page.
unfoldable pub init : Bool → Header → Header
init is_owner page =
    let h = if is_owner then zero_header else page in
    record h { left = uncached h.left; right = uncached h.right }

unfoldable pub load_offset : Side → Header → ℕ
load_offset side h = (half side h).offset

-- The offset, and the header with the copy that the other half keeps of it.
unfoldable pub sync_load_offset : Side → Header → ℕ × Header
sync_load_offset side h =
    let res = (half side h).offset in
    (res, set_half (other side) (record (half (other side) h) { cached_other_offset = res }) h)

unfoldable pub cached_offset : Side → Header → Option ℕ
cached_offset side h =
    let cached = (half (other side) h).cached_other_offset in
    if cached == u32_max then none else some cached

unfoldable pub commit_offset : Side → ℕ → Header → Header
commit_offset side offset h = set_half side (record (half side h) { offset = offset }) h

unfoldable pub fix_offsets : ℕ → ℕ → Header → Header
fix_offsets left_offset right_offset h = record h {
  left = record h.left { offset = left_offset; cached_other_offset = right_offset };
  right = record h.right { offset = right_offset; cached_other_offset = left_offset };
}

-- `fetch_add(1)` and `fetch_sub(1)` on the count of waiters, and an atomic swap of the lock word.
abbrev pub add_waiter : Side → Header → Header
add_waiter side h = set_waiters side (add32 (waiters side h) 1) h

abbrev pub remove_waiter : Side → Header → Header
remove_waiter side h = set_waiters side (sub32 (waiters side h) 1) h

abbrev pub set_lock : Side → ℕ → Header → Header
set_lock side v h = set_half side (record (half side h) { lock = v }) h
