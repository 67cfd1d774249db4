-- ===== src/Mmap.antt =====
-- src/mmap.rs: the double mapping of the queue's file.
pub mod Regions
pub mod Tests
use memequeue.Prelude.{ℕ, ◌*◌, ◌%◌, ◌^◌, ◌==◌, if◌then◌else◌, add64}
use memequeue.Io.{IoError}
use memequeue.Os.{Call, Act, gives, error, try_call, or_drop, ◌>>=◌}

pub record Mmap : Type 0 where
  pub ptr : ℕ
  pub size : ℕ

pub record QueueMmaps : Type 0 where
  pub header : Mmap
  pub left : Mmap
  pub right : Mmap

-- The calls of `from_fd`, by what they ask for: an anonymous mapping anywhere of that many bytes; that
-- many bytes of a file, from an offset, at a fixed address; and the same anywhere.
pub record Mappings (S : Type 0) : Type 0 where
  pub map_anonymous : ℕ → Call S ℕ
  pub map_fixed : ℕ → ℕ → ℕ → ℕ → Call S ℕ
  pub map_file : ℕ → ℕ → ℕ → Call S ℕ
  pub munmap : ℕ → ℕ → S → S

module _ {S : Type 0} (os : Mappings S) where
  -- `drop` of an `Mmap`
  unfoldable pub drop_mmap : Mmap → S → S
  drop_mmap m = os.munmap m.ptr m.size

  -- The parts of `from_fd`, each with what runs when its mapping fails.
  unfoldable pub map_left : ℕ → ℕ → ℕ → ℕ → Act S ℕ
  map_left page_size fd queue_size big =
      or_drop (os.munmap big (queue_size * 2 % 2 ^ 64))
        (try_call (os.map_fixed big queue_size fd page_size))

  unfoldable pub map_right : ℕ → ℕ → ℕ → ℕ → ℕ → Act S ℕ
  map_right page_size fd queue_size big left =
      or_drop (λ s. os.munmap (add64 big queue_size) queue_size (os.munmap left queue_size s))
        (try_call (os.map_fixed (add64 big queue_size) queue_size fd page_size))

  unfoldable pub map_header : ℕ → ℕ → Mmap → Mmap → Act S QueueMmaps
  unfolding drop_mmap
  map_header page_size fd left right =
      or_drop (λ s. drop_mmap left (drop_mmap right s)) (try_call (os.map_file page_size fd 0))
      >>= λ header. gives (record {
        header = record { ptr = header; size = page_size };
        left = left;
        right = right;
      })

  -- `QueueMmaps::from_fd`, with a page size that is not 0
  unfoldable pub from_fd : ℕ → ℕ → ℕ → Act S QueueMmaps
  unfolding map_left map_right map_header
  from_fd page_size fd queue_size =
      if queue_size % page_size == 0
      then (try_call (os.map_anonymous (queue_size * 2 % 2 ^ 64)) >>= λ big.
          map_left page_size fd queue_size big >>= λ left.
          map_right page_size fd queue_size big left >>= λ right.
          map_header page_size fd (record { ptr = big; size = queue_size })
            (record { ptr = add64 big queue_size; size = queue_size }))
      else error IoError.invalid_input
