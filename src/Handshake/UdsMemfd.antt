-- ===== src/Handshake/UdsMemfd.antt =====
-- src/handshake/uds_memfd.rs: the process that binds the socket makes the queue in a memfd and sends
-- the control's descriptors with a counter, then the memfd; the one that connects collects them.
pub mod Fifo
use memequeue.Prelude.{
  ℕ, zero, suc, ◌+◌, Bool, true, false, ◌&&◌, ◌==◌, List, [], ◌∷◌, ◌++◌, Option, none, some,
  le_bytes, word_size, add64, if◌then◌else◌,
}
use memequeue.Io.{IoError, Result, ok, err}
use memequeue.Os.{
  Outcome, value, fails, panics, waits, Call, Act, gives, error, panic, try_call, attempt, or_drop,
  and_drop, ◌>>=◌, is_addr_in_use,
}
use memequeue.Handshake.{HandshakeResult, ExchangeFd, with_self, next_multiple_of, size_from_len}

-- `NEGOTIATION_MESSAGE`
abbrev pub negotiation_message : List ℕ
negotiation_message =
    109 ∷ 101 ∷ 109 ∷ 101 ∷ 113 ∷ 117 ∷ 101 ∷ 117 ∷ 101 ∷ 32 ∷ 117 ∷ 100 ∷ 115 ∷ 32 ∷ 109 ∷ 101
    ∷ 109 ∷ 102 ∷ 100 ∷ 32 ∷ 110 ∷ 101 ∷ 103 ∷ 111 ∷ 116 ∷ 105 ∷ 97 ∷ 116 ∷ 105 ∷ 111 ∷ 110 ∷ []

abbrev pub payload_buf_size : ℕ
payload_buf_size = 128

-- `==` on byte slices
unfoldable pub same_bytes : List ℕ → List ℕ → Bool
same_bytes [] [] = true
same_bytes [] (b ∷ bs) = false
same_bytes (a ∷ xs) [] = false
same_bytes (a ∷ xs) (b ∷ bs) = a == b && same_bytes xs bs

-- What `recvmsg` gives: the first descriptor among its control messages, and the filled buffer.
pub record Message : Type 0 where
  pub fd : Option ℕ
  pub payload : Option (List ℕ)

-- The calls on the socket at `uds_path` and on the memfd.
pub record Sockets (S : Type 0) : Type 0 where
  pub bind : Call S ℕ
  pub accept : ℕ → Call S ℕ
  pub connect : Call S ℕ
  pub remove_file : Call S (Unit {0})
  pub memfd_create : Call S ℕ
  pub set_len : ℕ → ℕ → Call S (Unit {0})
  pub len : ℕ → Call S ℕ
  pub sendmsg : ℕ → List ℕ → ℕ → Call S (Unit {0})
  pub recvmsg : ℕ → ℕ → Call S Message
  pub close : ℕ → S → S

-- `UdsMemfdHandshakeResult`
pub record UdsMemfd : Type 0 where
  pub file : ℕ
  pub owner : Bool
  pub queue_size : ℕ
  pub stream : ℕ
  pub exchange_fd_counter : ℕ
  pub recv_fd_queue : List ℕ

module _ {S : Type 0} (os : Sockets S) where
  -- The function `send_fd`
  unfoldable pub send_raw : ℕ → ℕ → List ℕ → Act S (Unit {0})
  send_raw send_to to_send payload = try_call (os.sendmsg send_to payload to_send)

  -- The function `recv_fd`
  abbrev pub fd_and_payload : Option ℕ → Option (List ℕ) → Act S (ℕ × List ℕ)
  fd_and_payload none payload = error IoError.invalid_data
  fd_and_payload (some fd) none = panic
  fd_and_payload (some fd) (some payload) = gives (fd, payload)

  unfoldable pub recv_raw : ℕ → ℕ → Act S (ℕ × List ℕ)
  recv_raw recv_from size =
      try_call (os.recvmsg recv_from size) >>= λ m. fd_and_payload m.fd m.payload

  unfoldable pub recv_fd_expecting : ℕ → List ℕ → Act S ℕ
  unfolding recv_raw same_bytes
  recv_fd_expecting recv_from expected = recv_raw recv_from payload_buf_size >>= λ (fd, payload).
      if same_bytes payload expected then gives fd else error IoError.invalid_data

  -- `ExchangeFd` and `mark_ready`
  unfoldable pub send_fd : ℕ → Act (UdsMemfd × S) (Unit {0})
  unfolding send_raw
  send_fd fd (r, s) =
      let counter = add64 r.exchange_fd_counter 1 in
      with_self (record r { exchange_fd_counter = counter })
        (send_raw r.stream fd (le_bytes word_size counter) s)

  abbrev pub queued_or_received : List ℕ → Act (UdsMemfd × S) ℕ
  queued_or_received (fd ∷ fds) (r, s) = (value fd, (record r { recv_fd_queue = fds }, s))
  queued_or_received [] (r, s) =
      let counter = add64 r.exchange_fd_counter 1 in
      with_self (record r { exchange_fd_counter = counter })
        (recv_fd_expecting r.stream (le_bytes word_size counter) s)

  unfoldable pub recv_fd : Act (UdsMemfd × S) ℕ
  recv_fd (r, s) = queued_or_received r.recv_fd_queue (r, s)

  unfoldable pub mark_ready : Act (UdsMemfd × S) (Unit {0})
  unfolding send_raw
  mark_ready (r, s) =
      with_self r (if r.owner then send_raw r.stream r.file negotiation_message s else gives tt s)

  -- The loop of `uds_memfd` that collects descriptors up to the memfd.
  unfoldable pub collect_round :
      (ℕ → List ℕ → Act S (ℕ × ℕ × List ℕ)) → ℕ → List ℕ → ℕ × List ℕ → Act S (ℕ × ℕ × List ℕ)
  unfolding same_bytes
  collect_round again counter queue (raw_fd, payload) =
      if same_bytes payload negotiation_message
      then gives (raw_fd, counter, queue)
      else if same_bytes payload (le_bytes word_size (add64 counter 1))
      then again (add64 counter 1) (queue ++ raw_fd ∷ [])
      else error IoError.invalid_data

  unfoldable pub collect : ℕ → ℕ → ℕ → List ℕ → Act S (ℕ × ℕ × List ℕ)
  unfolding recv_raw collect_round
  collect zero stream counter queue s = (waits, s)
  collect (suc fuel) stream counter queue s =
      (recv_raw stream payload_buf_size >>= collect_round (collect fuel stream) counter queue) s

  module _ (page_size : ℕ) where
    unfoldable pub make_memfd : ℕ → ℕ → Act S UdsMemfd
    make_memfd stream queue_size = try_call os.memfd_create >>= λ file. or_drop (os.close file) (
        try_call (os.set_len file (add64 page_size queue_size)) >>= λ _. gives (record {
          file = file;
          owner = true;
          queue_size = queue_size;
          stream = stream;
          exchange_fd_counter = 0;
          recv_fd_queue = [];
        }))

    unfoldable pub join_memfd : ℕ → ℕ → Act S UdsMemfd
    unfolding collect size_from_len
    join_memfd fuel stream = collect fuel stream 0 [] >>= λ (file, counter, queue).
        or_drop (os.close file) (
          try_call (os.len file) >>= λ len. size_from_len page_size len >>= λ queue_size.
          gives (record {
            file = file;
            owner = false;
            queue_size = queue_size;
            stream = stream;
            exchange_fd_counter = counter;
            recv_fd_queue = queue;
          }))

    -- `(stream, owner)`
    abbrev pub listen_or_connect : Result ℕ IoError → Act S (ℕ × Bool)
    listen_or_connect (ok listener) =
        and_drop (os.close listener) (try_call (os.accept listener)) >>= λ stream.
        gives (stream, true)
    listen_or_connect (err e) =
        if is_addr_in_use e
        then (try_call os.connect >>= λ stream.
            or_drop (os.close stream) (try_call os.remove_file >>= λ _. gives (stream, false)))
        else error e

    unfoldable pub uds_memfd : ℕ → ℕ → Act S UdsMemfd
    unfolding next_multiple_of make_memfd join_memfd
    uds_memfd fuel n = (attempt os.bind >>= listen_or_connect) >>= λ (stream, owner).
        or_drop (os.close stream) (
          if owner
          then make_memfd stream (next_multiple_of n page_size)
          else join_memfd fuel stream)

  -- `drop` of the result: its file and its stream are closed, the descriptors in the queue are not.
  unfoldable pub drop_uds_memfd : UdsMemfd → S → S
  drop_uds_memfd r s = os.close r.stream (os.close r.file s)

  abbrev pub uds_memfd_result : HandshakeResult UdsMemfd S
  uds_memfd_result = record {
    shmem_fd = λ r. r.file;
    is_owner = λ r. r.owner;
    queue_size = λ r. r.queue_size;
    mark_ready = mark_ready;
    drop = drop_uds_memfd;
  }

  abbrev pub uds_memfd_exchange : ExchangeFd UdsMemfd S
  uds_memfd_exchange = record { send_fd = send_fd; recv_fd = recv_fd }
