-- ===== src/Handshake/Tests.antt =====
-- Runs of the handshakes over a small file and a list of messages, and the theorems at such inputs.
use memequeue.Prelude.{
  ℕ, ◌+◌, ◌≡◌, refl, ap, sym, arith, Bool, true, false, [], ◌∷◌, ◌++◌, some, if◌then◌else◌,
}
use memequeue.Io.{IoError, Result, ok, err}
use memequeue.Os.{value}
use memequeue.Handshake.{next_multiple_of}
use memequeue.Handshake.NamedFile.{Files, Flock, IsFile, Makes, Joins, named_file, sizes_agree}
use memequeue.Handshake.UdsMemfd.{Sockets, UdsMemfd, join_memfd, Message}
use memequeue.Handshake.UdsMemfd.Fifo.{Mail, IsFifo, counter_behind, share, recv_all, fds_in_order}

-- A file and whether a process has it locked.
record Disk : Type 0 where
  bytes : ℕ
  locked : Bool

abbrev disk_flock : Flock → Disk → Result (Unit {0}) IoError × Disk
disk_flock Flock.lock_ex_nb d =
    if d.locked then (err IoError.would_block, d) else (ok tt, record d { locked = true })
disk_flock Flock.lock_sh d = (ok tt, d)
disk_flock Flock.lock_un d = (ok tt, record d { locked = false })

abbrev disk : Files Disk
disk = record {
  open_file = λ d. (ok 3, d);
  flock = λ _. disk_flock;
  set_len = λ _ n d. (ok tt, record d { bytes = n });
  len = λ _ d. (ok d.bytes, d);
  close = λ _ d. d;
}

abbrev ok_value : Result ℕ IoError → ℕ
ok_value (ok n) = n
ok_value (err e) = 0

disk-IsFile : IsFile disk (λ d. d.bytes)
disk-IsFile = record {
  sets = λ file n s s' e. sym (ap (λ d. d.1.bytes) e);
  reads = λ file n s s' e. sym (ap (λ p. ok_value p.0) e);
}

abbrev new_disk : Disk
new_disk = record { bytes = 0; locked = false }

abbrev made_disk : Disk
made_disk = record { bytes = 12288; locked = true }

whole_pages : next_multiple_of 5000 4096 ≡ 8192
unfolding next_multiple_of
whole_pages = refl

makes : Makes disk 3 (4096 + next_multiple_of 5000 4096) new_disk made_disk
unfolding next_multiple_of
makes = record {
  opened = new_disk;
  locked = record { bytes = 0; locked = true };
  opens = refl;
  locks = refl;
  sizes = refl;
}

joins : Joins disk 3 12288 made_disk made_disk made_disk
joins = record {
  opened = made_disk;
  refused = made_disk;
  opens = refl;
  blocks = refl;
  shares = refl;
  reads = refl;
}

sizes_agree_example :
    (named_file disk 4096 5000 new_disk ≡ (
      value (record { file = 3; owner = true; queue_size = next_multiple_of 5000 4096 }),
      made_disk,
    ))
    × (named_file disk 4096 1 made_disk ≡ (
      value (record { file = 3; owner = false; queue_size = next_multiple_of 5000 4096 }),
      made_disk,
    ))
sizes_agree_example =
    sizes_agree disk 4096 (omega arith) (λ d. d.bytes) disk-IsFile 3 3 5000 1 12288 new_disk
      made_disk made_disk made_disk made_disk (omega arith) makes joins refl

-- A socket whose state is the messages that wait; the memfd has three pages.
abbrev first_message : Mail → Result Message IoError × Mail
first_message [] = (err (IoError.os 104), [])
first_message ((payload, fd) ∷ rest) = (ok (record { fd = some fd; payload = some payload }), rest)

abbrev socket : Sockets Mail
socket = record {
  bind = λ s. (ok 5, s);
  accept = λ _ s. (ok 6, s);
  connect = λ s. (ok 6, s);
  remove_file = λ s. (ok tt, s);
  memfd_create = λ s. (ok 7, s);
  set_len = λ _ _ s. (ok tt, s);
  len = λ _ s. (ok 12288, s);
  sendmsg = λ _ payload fd s. (ok tt, s ++ (payload, fd) ∷ []);
  recvmsg = λ _ _. first_message;
  close = λ _ s. s;
}

socket-IsFifo : IsFifo socket 6 6 (λ s. s)
socket-IsFifo = record {
  sends = λ payload fd s. (s ++ (payload, fd) ∷ [], refl, refl);
  receives = λ size payload fd rest s small e. (rest, ap first_message e, refl);
}

abbrev owner : UdsMemfd
owner = record {
  file = 7;
  owner = true;
  queue_size = 8192;
  stream = 6;
  exchange_fd_counter = 0;
  recv_fd_queue = [];
}

fds_in_order_example :
    (s' : Mail) × (s'' : Mail) × (j : UdsMemfd) × (share socket (8 ∷ 9 ∷ []) (owner, [])
      ≡ (value tt, (record owner { exchange_fd_counter = counter_behind 0 (8 ∷ 9 ∷ []) }, s')))
    × (join_memfd socket 4096 3 6 s' ≡ (value j, s''))
    × (j.file ≡ 7)
    × (j.queue_size ≡ 8192)
    × (recv_all socket 2 (j, s'') ≡ (value (8 ∷ 9 ∷ []), (record j { recv_fd_queue = [] }, s'')))
fds_in_order_example =
    fds_in_order socket 6 6 (λ s. s) socket-IsFifo 4096 8192 3 (8 ∷ 9 ∷ []) owner [] refl refl refl
      refl refl (omega arith) (λ t. (t, refl))
