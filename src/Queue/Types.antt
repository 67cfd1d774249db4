-- ===== src/Queue/Types.antt =====
-- The types of src/lib.rs, and what a call on them returns.
use memequeue.Prelude.{ℕ, List}
use memequeue.Io.{IoError, Result}
use memequeue.Mmap.{Mmap}
use memequeue.Control.{Side, sync_load_offset}
use memequeue.Process.{World, Peer, interfere}

-- `MemeQueue`: the mappings and the control's `spin_on_wait`; the header is in the shared memory.
pub record MemeQueue : Type 0 where
  pub left : Mmap
  pub right : Mmap
  pub spin_on_wait : ℕ

pub record MemeWriter : Type 0 where
  pub total_written : ℕ
  pub right_offset : ℕ

-- What a callback does with the writer: it writes, sees each result, and returns in the end.
pub data Callback (R E : Type 0) : Type 0 where
  finish : Result R E → Callback R E
  write_then : List ℕ → (Result ℕ IoError → Callback R E) → Callback R E

-- A call on a writer: what it returns, and the writer and the memory then.
abbrev pub Done : Type 0 → Type 0 → Type 0
Done A E = Result A E × MemeWriter × World

module _ (peer : Peer) where
  -- `sync_load_offset`, after the others have run
  unfoldable pub sync_load : Side → World → ℕ × World
  unfolding interfere sync_load_offset
  sync_load side w =
      let w' = interfere peer w in
      let (res, h) = sync_load_offset side w'.header in (res, record w' { header = h })
