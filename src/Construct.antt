-- ===== src/Construct.antt =====
-- `MemeQueue::with_config` of src/lib.rs over any handshake and any control, and
-- `ShmemFutexControl::new` of src/control/shmem_futex.rs.
pub mod Spaces
pub mod Empty
pub mod Eventfd
pub mod Handshakes
pub mod Tests
use memequeue.Prelude.{ℕ}
use memequeue.Os.{Outcome, value, Act, gives, or_drop, ◌>>=◌}
use memequeue.Control.{Header, init}
use memequeue.Mmap.{Mmap, QueueMmaps, Mappings, drop_mmap, from_fd}
use memequeue.Handshake.{HandshakeResult}
use memequeue.Queue.Types.{MemeQueue}

-- While a queue is made: the handshake's result and the system.
pub record Setup (H S : Type 0) : Type 0 where
  pub self : H
  pub system : S

-- The memory at an address, as a `Header`: to read it and to write it.
pub record HeaderAt (S : Type 0) : Type 0 where
  pub load_header : ℕ → S → Header
  pub store_header : ℕ → Header → S → S

-- What `with_config` asks of a control: `new`, which owns the header's mapping, and its `drop`.
pub record ControlOf (H S C Config : Type 0) : Type 0 where
  pub new : Config → Mmap → Act (Setup H S) C
  pub drop : C → S → S

-- The fields of `MemeQueue` but for the handshake's result, which stays in the setup.
pub record QueueOf (C : Type 0) : Type 0 where
  pub control : C
  pub left : Mmap
  pub right : Mmap

module _ {H S : Type 0} where
  abbrev pub in_system : {A : Type 0} → Setup H S → Outcome A × S → Outcome A × Setup H S
  in_system st (o, s) = (o, record st { system = s })

  abbrev pub in_handshake : {A : Type 0} → Setup H S → Outcome A × (H × S) → Outcome A × Setup H S
  in_handshake st (o, (h, s)) = (o, record st { self = h; system = s })

  abbrev pub dropping : (S → S) → Setup H S → Setup H S
  dropping drop st = record st { system = drop st.system }

  -- `mark_ready` of the handshake's result
  abbrev pub ready : HandshakeResult H S → Act (Setup H S) (Unit {0})
  ready hs st = in_handshake st (hs.mark_ready (st.self, st.system))

  module _ {C Config : Type 0} (os : Mappings S) (page_size : ℕ) (hs : HandshakeResult H S)
      (c : ControlOf H S C Config) where
    -- `with_config` behind `from_fd`
    unfoldable pub with_mmaps : Config → QueueMmaps → Act (Setup H S) (QueueOf C)
    unfolding drop_mmap
    with_mmaps config m = or_drop (dropping (λ s. drop_mmap os m.left (drop_mmap os m.right s))) (
        c.new config m.header >>= λ control. or_drop (dropping (c.drop control)) (ready hs) >>= λ _.
        gives (record { control = control; left = m.left; right = m.right }))

    unfoldable pub map_queue : Act (Setup H S) QueueMmaps
    unfolding from_fd
    map_queue st =
        in_system st (from_fd os page_size (hs.shmem_fd st.self) (hs.queue_size st.self) st.system)

    unfoldable pub with_config : Config → Act (Setup H S) (QueueOf C)
    unfolding with_mmaps map_queue
    with_config config st =
        or_drop (λ end. dropping (hs.drop end.self) end) (map_queue >>= with_mmaps config) st

-- `ShmemFutexControl`; its configuration is the number of spins.
pub record ShmemFutexControl : Type 0 where
  pub header : Mmap
  pub spin_on_wait : ℕ

module _ {H S : Type 0} (os : Mappings S) (memory : HeaderAt S) (hs : HandshakeResult H S) where
  -- The header is written through the mapping that it is given.
  unfoldable pub new_shmem_futex : ℕ → Mmap → Act (Setup H S) ShmemFutexControl
  unfolding init
  new_shmem_futex config header st = (
    value (record { header = header; spin_on_wait = config }),
    record st {
      system =
          memory.store_header header.ptr
            (init (hs.is_owner st.self) (memory.load_header header.ptr st.system)) st.system;
    },
  )

  abbrev pub shmem_futex : ControlOf H S ShmemFutexControl ℕ
  shmem_futex = record { new = new_shmem_futex; drop = λ control. drop_mmap os control.header }

-- The queue that the model's `send` and `recv` take.
abbrev pub as_queue : QueueOf ShmemFutexControl → MemeQueue
as_queue q = record { left = q.left; right = q.right; spin_on_wait = q.control.spin_on_wait }
