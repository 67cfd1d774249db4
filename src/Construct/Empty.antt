-- ===== src/Construct/Empty.antt =====
-- What `with_config` over the futex control makes of the owner's header page: that of an empty queue.
use memequeue.Prelude.{ℕ, ◌*◌, ◌^◌, ◌%◌, ◌≤◌, ◌<◌, ◌≡◌, refl, ap, ◌∙◌, arith, true, [], word_size}
use memequeue.Control.{Header, init}
use memequeue.Process.{World}
use memequeue.Mmap.{Mappings, drop_mmap}
use memequeue.Mmap.Regions.{Same, Shows, IsAddressSpace, Double}
use memequeue.Queue.Types.{MemeQueue}
use memequeue.Queue.Inv.{IsMapped, Holds}
use memequeue.Os.{Does, Does-map}
use memequeue.Handshake.{HandshakeResult}
use memequeue.Construct.{
  Setup, QueueOf, ShmemFutexControl, HeaderAt, new_shmem_futex, shmem_futex, as_queue, with_config,
}
use memequeue.Construct.Spaces.{View, KeepsSpace, OwnsHeader, Made, with_config-Does}

-- Memory that shows a file's first page is that page, to read and to write.
pub record IsHeaderMemory {S : Type 0} (v : View S) (page_size : ℕ) (memory : HeaderAt S)
    : Type 0 where
  pub loads :
      (fd ptr : ℕ) (s : S)
      → Shows v.mapped fd 0 ptr page_size s
      → memory.load_header ptr s ≡ v.page_of s fd
  pub stores :
      (fd ptr : ℕ) (h : Header) (s : S)
      → Shows v.mapped fd 0 ptr page_size s
      → v.page_of (memory.store_header ptr h s) fd ≡ h
  pub keeps : (ptr : ℕ) (h : Header) (s : S) → Same v.mapped s (memory.store_header ptr h s)

-- The mappings that `with_config` makes have the sizes and places that `send` and `recv` rely on, for a
-- queue of at least two words whose offsets fit 32 bits.
Double-IsMapped :
    {S : Type 0} (v : View S) (page_size fd queue_size : ℕ) (s s' : S)
    (q : QueueOf ShmemFutexControl)
    → 2 * word_size ≤ queue_size
    → queue_size < 2 ^ 31
    → Double v.mapped page_size fd queue_size s
        (record { header = q.control.header; left = q.left; right = q.right })
        s'
    → IsMapped (as_queue q)
Double-IsMapped v page_size fd queue_size s s' q large small d = record {
  adjacent = omega (arith, d.adjacent, d.left_size);
  same_size = omega (arith, d.left_size, d.right_size);
  addressable = omega (arith, d.fits, d.left_size);
  offsets_fit = omega (arith, d.left_size);
  room_for_word = omega (arith, d.left_size);
}

-- Whatever stood in the header page, the owner's `new` makes it that of an empty queue.
init-Holds_nil :
    (q : MemeQueue) (page : Header) (w : World) → Holds q (record w { header = init true page }) []
unfolding init
init-Holds_nil q page w = record { frames = refl; header = omega arith }

module _ {H S : Type 0} (v : View S) (os : Mappings S) (space : IsAddressSpace v.mapped os)
    (page_size : ℕ) (memory : HeaderAt S) (is_memory : IsHeaderMemory v page_size memory)
    (hs : HandshakeResult H S) where
  -- The futex control owns its header's mapping; its `new` never fails.
  pub shmem_futex-OwnsHeader :
      OwnsHeader v page_size hs (shmem_futex os memory hs) (λ control. control.header)
  unfolding new_shmem_futex drop_mmap
  shmem_futex-OwnsHeader = record {
    news = λ config header fd st shows. (
      refl,
      is_memory.keeps header.ptr _ st.system,
      is_memory.stores fd header.ptr _ st.system shows
          ∙ ap (init (hs.is_owner st.self)) (is_memory.loads fd header.ptr st.system shows),
    );
    drops = λ control s x. space.unmap control.header.ptr control.header.size s x;
  }

  module _ (keeps : KeepsSpace v hs) (config : ℕ) (st : Setup H S)
      (whole : hs.queue_size st.self % page_size ≡ 0)
      (large : 2 * word_size ≤ hs.queue_size st.self) (small : hs.queue_size st.self < 2 ^ 31) where
    made :
        Does
          (Made v os space page_size hs keeps
            (shmem_futex os memory hs)
            (λ control. control.header)
            shmem_futex-OwnsHeader
            (hs.queue_size st.self)
            st.system
            st.self)
          (λ end. Same v.mapped st.system end.system)
          (with_config os page_size hs (shmem_futex os memory hs) config st)
    made =
        with_config-Does v os space page_size hs keeps (shmem_futex os memory hs)
          (λ control. control.header) shmem_futex-OwnsHeader config st (omega (arith, small)) whole

    -- The owner of a queue of whole pages, of at least 16 and fewer than 2^31 bytes, with a handshake
    -- that maps nothing and leaves the header pages as they are: `with_config` over the futex control
    -- maps the handshake's file behind its first page twice side by side and that page as the header,
    -- with the sizes and places that `send` and `recv` rely on, and that page is the header of an empty
    -- queue, whatever it was and whatever the queue's bytes are; if it fails, it leaves mapped what was.
    pub owner_starts_empty :
        hs.is_owner st.self ≡ true
        → Does
            (λ q end.
              Double v.mapped page_size
                (hs.shmem_fd st.self)
                (hs.queue_size st.self)
                st.system
                (record { header = q.control.header; left = q.left; right = q.right })
                end.system
              × IsMapped (as_queue q)
              × ((w : World)
                  → Holds
                      (as_queue q)
                      (record w { header = v.page_of end.system (hs.shmem_fd st.self) })
                      []))
            (λ end. Same v.mapped st.system end.system)
            (with_config os page_size hs (shmem_futex os memory hs) config st)
    owner_starts_empty owns =
        Does-map _ _ _ _ (with_config os page_size hs (shmem_futex os memory hs) config st) made
          (λ q end k. (
            k.0,
            Double-IsMapped v page_size (hs.shmem_fd st.self) (hs.queue_size st.self) st.system
                end.system q large small k.0,
            λ w. rw (k.1.1, owns) (init-Holds_nil (as_queue q) k.1.0 w),
          ))
          (λ end k. k)
