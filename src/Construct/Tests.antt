-- ===== src/Construct/Tests.antt =====
-- Queues are made over the small address space of Mmap/Tests and one file, with descriptor 3.
use memequeue.Prelude.{ℕ, ◌≡◌, refl, ap, ◌∙◌, ==_iff, arith, true, ◌==◌, if◌then◌else◌, none, []}
use native.Mathlib.Nat.{add-zero}
use memequeue.Io.{IoError, ok, err}
use memequeue.Os.{Call, Does, fails}
use memequeue.Control.{Header}
use memequeue.Process.{World}
use memequeue.Mmap.Regions.{Backing, of_file, Shows, Same, Double}
use memequeue.Mmap.Tests.{Space, space, mapped, old_page, space-IsAddressSpace, empty_space}
use memequeue.Handshake.NamedFile.{Files, NamedFile, named_file_result}
use memequeue.Handshake.UdsMemfd.{
  Sockets, send_fd, send_raw, UdsMemfd, uds_memfd_result, uds_memfd_exchange,
}
use memequeue.Queue.Inv.{IsMapped, Holds}
use memequeue.Construct.{Setup, HeaderAt, shmem_futex, with_config, as_queue}
use memequeue.Construct.Spaces.{View, OwnsHeader, Made, with_config-Does}
use memequeue.Construct.Empty.{IsHeaderMemory, shmem_futex-OwnsHeader, owner_starts_empty}
use memequeue.Construct.Eventfd.{make_events, exchange_events, new_event_fd, event_fd}
use memequeue.Construct.Handshakes.{
  FilesKeep, SocketsKeep, named_file-KeepsSpace, event_fd-OwnsHeader_uds,
}

-- Memory is what the address shows.
load_at : Backing → (ℕ → Header) → Header
load_at (of_file fd offset) pages = pages fd
load_at b pages = old_page

store_at : Backing → Header → (ℕ → Header) → ℕ → Header
store_at (of_file fd offset) h pages = λ k. if k == fd then h else pages k
store_at b h pages = pages

abbrev memory : HeaderAt Space
memory = record {
  load_header = λ ptr s. load_at (mapped s ptr) s.pages;
  store_header = λ ptr h s. record s { pages = store_at (mapped s ptr) h s.pages };
}

abbrev view : View Space
view = record { mapped = mapped; page_of = λ s fd. s.pages fd }

first_byte : (fd ptr : ℕ) (s : Space) → Shows mapped fd 0 ptr 4096 s → mapped s ptr ≡ of_file fd 0
first_byte fd ptr s shows = rw add-zero at (shows 0 (omega arith))

stored : (fd : ℕ) (h : Header) (pages : ℕ → Header) → store_at (of_file fd 0) h pages fd ≡ h
unfolding store_at
stored fd h pages = rw ((==_iff fd fd).1 refl) refl

memory-IsHeaderMemory : IsHeaderMemory view 4096 memory
unfolding load_at
memory-IsHeaderMemory = record {
  loads = λ fd ptr s shows. ap (λ b. load_at b s.pages) (first_byte fd ptr s shows);
  stores = λ fd ptr h s shows.
      ap (λ b. store_at b h s.pages fd) (first_byte fd ptr s shows) ∙ stored fd h s.pages;
  keeps = λ ptr h s x. refl;
}

-- The calls on a file of three pages.
abbrev files : Files Space
files = record {
  open_file = λ s. (ok 3, s);
  flock = λ file op s. (ok tt, s);
  set_len = λ file n s. (ok tt, s);
  len = λ file s. (ok 12288, s);
  close = λ file s. s;
}

files-FilesKeep : FilesKeep view files
files-FilesKeep = record {
  flocks = λ file op s. ((λ x. refl), (λ fd. refl));
  closes = λ file s. ((λ x. refl), (λ fd. refl));
}

-- The queue's owner, by a named file of two pages behind the header's.
abbrev setup : Setup NamedFile Space
setup = record { self = record { file = 3; owner = true; queue_size = 8192 }; system = empty_space }

with_config-Does_example :
    Does
      (Made view space space-IsAddressSpace 4096
        (named_file_result files 4096)
        (named_file-KeepsSpace view files 4096 files-FilesKeep)
        (shmem_futex space memory (named_file_result files 4096))
        (λ control. control.header)
        (shmem_futex-OwnsHeader view space space-IsAddressSpace 4096 memory memory-IsHeaderMemory
          (named_file_result files 4096))
        8192
        empty_space
        setup.self)
      (λ end. Same mapped empty_space end.system)
      (with_config space 4096
        (named_file_result files 4096)
        (shmem_futex space memory (named_file_result files 4096))
        10
        setup)
with_config-Does_example =
    with_config-Does view space space-IsAddressSpace 4096 (named_file_result files 4096)
      (named_file-KeepsSpace view files 4096 files-FilesKeep)
      (shmem_futex space memory (named_file_result files 4096)) (λ control. control.header)
      (shmem_futex-OwnsHeader view space space-IsAddressSpace 4096 memory memory-IsHeaderMemory
        (named_file_result files 4096))
      10 setup (omega arith) refl

owner_starts_empty_example :
    Does
      (λ q end.
        Double mapped 4096 3 8192 empty_space
          (record { header = q.control.header; left = q.left; right = q.right })
          end.system
        × IsMapped (as_queue q)
        × ((w : World) → Holds (as_queue q) (record w { header = end.system.pages 3 }) []))
      (λ end. Same mapped empty_space end.system)
      (with_config space 4096
        (named_file_result files 4096)
        (shmem_futex space memory (named_file_result files 4096))
        10
        setup)
owner_starts_empty_example =
    owner_starts_empty view space space-IsAddressSpace 4096 memory memory-IsHeaderMemory
      (named_file_result files 4096) (named_file-KeepsSpace view files 4096 files-FilesKeep) 10
      setup refl (omega arith) (omega arith) refl

-- A socket whose other end is gone.
abbrev sockets : Sockets Space
sockets = record {
  bind = λ s. (ok 5, s);
  accept = λ fd s. (ok 6, s);
  connect = λ s. (ok 6, s);
  remove_file = λ s. (ok tt, s);
  memfd_create = λ s. (ok 3, s);
  set_len = λ fd n s. (ok tt, s);
  len = λ fd s. (ok 12288, s);
  sendmsg = λ to payload fd s. (err (IoError.os 32), s);
  recvmsg = λ from size s. (ok (record { fd = none; payload = none }), s);
  close = λ fd s. s;
}

sockets-SocketsKeep : SocketsKeep view sockets
sockets-SocketsKeep = record {
  sends = λ to payload fd s. ((λ x. refl), (λ k. refl));
  receives = λ from size s. (((λ x. refl), (λ k. refl)), (λ some_fd. absurd (some_fd refl)));
  closes = λ fd s. ((λ x. refl), (λ k. refl));
}

abbrev new_eventfd : Call Space ℕ
new_eventfd s = (ok 4, s)

event_fd-OwnsHeader_uds_example :
    OwnsHeader view 4096
      (uds_memfd_result sockets)
      (event_fd space memory new_eventfd (uds_memfd_result sockets) (uds_memfd_exchange sockets))
      (λ control. control.shmem_futex.header)
event_fd-OwnsHeader_uds_example =
    event_fd-OwnsHeader_uds view sockets sockets-SocketsKeep space memory new_eventfd 4096
      space-IsAddressSpace memory-IsHeaderMemory (λ s. ((λ x. refl), (λ k. refl)))

-- Sending the first eventfd fails, and the header is unmapped.
abbrev owner_setup : Setup UdsMemfd Space
owner_setup = record {
  self = record {
    file = 3;
    owner = true;
    queue_size = 8192;
    stream = 6;
    exchange_fd_counter = 0;
    recv_fd_queue = [];
  };
  system = empty_space;
}

new_fails :
    (new_event_fd space memory new_eventfd
      (uds_memfd_result sockets)
      (uds_memfd_exchange sockets)
      tt
      (record { ptr = 4096; size = 4096 })
      owner_setup).0
    ≡ fails (IoError.os 32)
unfolding new_event_fd exchange_events make_events send_fd send_raw
new_fails = refl
