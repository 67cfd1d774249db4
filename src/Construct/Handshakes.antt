-- ===== src/Construct/Handshakes.antt =====
-- The handshakes of src/handshake as `with_config` and `EventFdControl::new` take them: neither maps or
-- unmaps anything, or touches the header page of a file.
use memequeue.Prelude.{
  ℕ, ◌≡◌, ◌≢◌, refl, Bool, true, false, if◌then◌else◌, Option, none, some, List, [], ◌∷◌, le_bytes,
  add64, word_size,
}
use memequeue.Io.{IoError, Result, ok, err}
use memequeue.Os.{
  Outcome, value, fails, panics, waits, Call, Act, gives, try_call, error, Does, CallDoes,
  try_call-Does, >>=-Does,
}
use memequeue.Mmap.{Mappings}
use memequeue.Mmap.Regions.{IsAddressSpace}
use memequeue.Handshake.{with_self}
use memequeue.Handshake.NamedFile.{Files, Flock, named_file_result, drop_named_file}
use memequeue.Handshake.NamedFile.{mark_ready as file_ready}
use memequeue.Handshake.UdsMemfd.{
  Sockets, Message, UdsMemfd, uds_memfd_result, uds_memfd_exchange, drop_uds_memfd, send_raw,
  recv_raw, fd_and_payload, recv_fd_expecting, send_fd, queued_or_received, recv_fd,
  negotiation_message, payload_buf_size, same_bytes,
}
use memequeue.Handshake.UdsMemfd.{mark_ready as socket_ready}
use memequeue.Construct.{HeaderAt}
use memequeue.Construct.Spaces.{View, Kept, Kept-refl, Kept-trans, KeepsSpace, OwnsHeader}
use memequeue.Construct.Empty.{IsHeaderMemory}
use memequeue.Construct.Eventfd.{event_fd, ExchangeKeeps, event_fd-OwnsHeader}

module _ {S : Type 0} (v : View S) where
  -- A call that maps nothing and changes no header page, whether it succeeds or not.
  abbrev pub CallKeeps : {A : Type 0} → Call S A → Type 0
  CallKeeps call = (s : S) → CallDoes (λ _ t. Kept v s t) (λ t. Kept v s t) (call s)

  abbrev ActKeeps : {A : Type 0} → Act S A → Type 0
  ActKeeps act = (s : S) → Does (λ _ t. Kept v s t) (λ t. Kept v s t) (act s)

  after_call :
      {A : Type 0} (s : S) (d : Result A IoError × S)
      → CallDoes (λ _ t. Kept v s t) (λ t. Kept v s t) d
      → Kept v s d.1
  after_call s (ok a, t) k = k
  after_call s (err e, t) k = k

  try_call-ActKeeps : {A : Type 0} (call : Call S A) → CallKeeps call → ActKeeps (try_call call)
  try_call-ActKeeps call k s = try_call-Does (λ _ t. Kept v s t) (λ t. Kept v s t) call s (k s)

  -- The flocks and the end of a named file.
  pub record FilesKeep (os : Files S) : Type 0 where
    pub flocks : (file : ℕ) (op : Flock) → CallKeeps (os.flock file op)
    pub closes : (file : ℕ) (s : S) → Kept v s (os.close file s)

  only_owner :
      {A : Type 0} (owner : Bool) (x y : Act S A)
      → ActKeeps x
      → ActKeeps y
      → ActKeeps (if owner then x else y)
  only_owner true x y k l = k
  only_owner false x y k l = l

  one_result :
      {A : Type 0} (owner : Bool) (s : S) (d e : Outcome A × S)
      → Does (λ _ t. Kept v s t) (λ t. Kept v s t) d
      → Does (λ _ t. Kept v s t) (λ t. Kept v s t) e
      → Does (λ _ t. Kept v s t) (λ t. Kept v s t) (if owner then d else e)
  one_result true s d e k l = k
  one_result false s d e k l = l

  with_self-Keeps :
      {H A : Type 0} (h : H) (s : S) (d : Outcome A × S)
      → Does (λ _ t. Kept v s t) (λ t. Kept v s t) d
      → Does (λ _ (b : H × S). Kept v s b.1) (λ b. Kept v s b.1) (with_self h d)
  with_self-Keeps h s (value a, t) k = k
  with_self-Keeps h s (fails e, t) k = k
  with_self-Keeps h s (panics, t) k = k
  with_self-Keeps h s (waits, t) k = k

  pub named_file-KeepsSpace :
      (os : Files S) (page_size : ℕ) → FilesKeep os → KeepsSpace v (named_file_result os page_size)
  unfolding file_ready drop_named_file
  named_file-KeepsSpace os page_size keeps = record {
    ready = λ h s. with_self-Keeps h s _ (
        only_owner h.owner (try_call (os.flock h.file Flock.lock_sh)) (gives tt)
          (try_call-ActKeeps (os.flock h.file Flock.lock_sh) (keeps.flocks h.file Flock.lock_sh))
          (Kept-refl v) s);
    drops = λ h s.
        let d = os.flock h.file Flock.lock_un s in
        Kept-trans v s d.1 (os.close h.file d.1)
          (after_call s d (keeps.flocks h.file Flock.lock_un s)) (keeps.closes h.file d.1);
  }

  -- The messages on the socket and its end. A message with a descriptor has bytes.
  pub record SocketsKeep (os : Sockets S) : Type 0 where
    pub sends : (to : ℕ) (payload : List ℕ) (fd : ℕ) → CallKeeps (os.sendmsg to payload fd)
    pub receives :
        (from size : ℕ) (s : S)
        → CallDoes
            (λ m t. Kept v s t × (m.fd ≢ none → m.payload ≢ none))
            (λ t. Kept v s t)
            (os.recvmsg from size s)
    pub closes : (fd : ℕ) (s : S) → Kept v s (os.close fd s)

  later :
      {A : Type 0} (s t : S) (d : Outcome A × S)
      → Kept v s t
      → Does (λ _ u. Kept v t u) (λ u. Kept v t u) d
      → Does (λ _ u. Kept v s u) (λ u. Kept v s u) d
  later s t (value a, u) k l = Kept-trans v s t u k l
  later s t (fails e, u) k l = Kept-trans v s t u k l
  later s t (panics, u) k l = l
  later s t (waits, u) k l = l

  module _ (os : Sockets S) (keeps : SocketsKeep os) where
    send_raw-ActKeeps : (to fd : ℕ) (payload : List ℕ) → ActKeeps (send_raw os to fd payload)
    unfolding send_raw
    send_raw-ActKeeps to fd payload =
        try_call-ActKeeps (os.sendmsg to payload fd) (keeps.sends to payload fd)

    fd_and_payload-ActKeeps :
        (fd : Option ℕ) (payload : Option (List ℕ))
        → (fd ≢ none → payload ≢ none)
        → ActKeeps (fd_and_payload os fd payload)
    fd_and_payload-ActKeeps none payload h = Kept-refl v
    fd_and_payload-ActKeeps (some fd) none h = absurd (h (λ e. cc) refl)
    fd_and_payload-ActKeeps (some fd) (some payload) h = Kept-refl v

    recv_raw-ActKeeps : (from size : ℕ) → ActKeeps (recv_raw os from size)
    unfolding recv_raw
    recv_raw-ActKeeps from size s =
        let P : Message → S → Type 0 = λ m t. Kept v s t × (m.fd ≢ none → m.payload ≢ none) in
        let F : S → Type 0 = λ t. Kept v s t in
        >>=-Does P F (λ _ t. Kept v s t) (try_call (os.recvmsg from size))
          (λ m. fd_and_payload os m.fd m.payload) s
          (try_call-Does P F (os.recvmsg from size) s (keeps.receives from size s))
          (λ m t k.
            later s t (fd_and_payload os m.fd m.payload t) k.0
              (fd_and_payload-ActKeeps m.fd m.payload k.1 t))

    recv_fd_expecting-ActKeeps :
        (from : ℕ) (expected : List ℕ) → ActKeeps (recv_fd_expecting os from expected)
    unfolding recv_fd_expecting
    recv_fd_expecting-ActKeeps from expected s =
        >>=-Does (λ _ t. Kept v s t) (λ t. Kept v s t) (λ _ t. Kept v s t)
          (recv_raw os from payload_buf_size)
          (λ (fd, payload).
            if same_bytes payload expected then gives fd else error IoError.invalid_data)
          s (recv_raw-ActKeeps from payload_buf_size s)
          (λ (fd, payload) t k. later s t _ k (
            only_owner (same_bytes payload expected) (gives fd) (error IoError.invalid_data)
              (Kept-refl v) (Kept-refl v) t))

    pub uds_memfd-KeepsSpace : KeepsSpace v (uds_memfd_result os)
    unfolding socket_ready drop_uds_memfd
    uds_memfd-KeepsSpace = record {
      ready = λ h s. with_self-Keeps h s _ (
          one_result h.owner s (send_raw os h.stream h.file negotiation_message s) (gives tt s)
            (send_raw-ActKeeps h.stream h.file negotiation_message s) (Kept-refl v s));
      drops = λ h s.
          Kept-trans v s (os.close h.file s) (os.close h.stream (os.close h.file s))
            (keeps.closes h.file s) (keeps.closes h.stream (os.close h.file s));
    }

    -- A call on the socket, behind which only the counter has changed.
    counted :
        {A : Type 0} (r r' : UdsMemfd) (s : S) (d : Outcome A × S)
        → r'.owner ≡ r.owner
        → Does (λ _ t. Kept v s t) (λ t. Kept v s t) d
        → Does
            (λ _ (b : UdsMemfd × S). Kept v s b.1 × (b.0.owner ≡ r.owner))
            (λ b. Kept v s b.1)
            (with_self r' d)
    counted r r' s (value a, t) e k = (k, e)
    counted r r' s (fails x, t) e k = k
    counted r r' s (panics, t) e k = k
    counted r r' s (waits, t) e k = k

    queued_or_received-Keeps :
        (queue : List ℕ) (r : UdsMemfd) (s : S)
        → Does
            (λ _ (b : UdsMemfd × S). Kept v s b.1 × (b.0.owner ≡ r.owner))
            (λ b. Kept v s b.1)
            (queued_or_received os queue (r, s))
    queued_or_received-Keeps (fd ∷ fds) r s = (Kept-refl v s, refl)
    queued_or_received-Keeps [] r s =
        let counter = add64 r.exchange_fd_counter 1 in
        counted r (record r { exchange_fd_counter = counter }) s _ refl
          (recv_fd_expecting-ActKeeps r.stream (le_bytes word_size counter) s)

    module _ (maps : Mappings S) (memory : HeaderAt S) (create : Call S ℕ) (page_size : ℕ)
        (space : IsAddressSpace v.mapped maps) (is_memory : IsHeaderMemory v page_size memory) where
      uds_memfd-ExchangeKeeps :
          CallKeeps create
          → ExchangeKeeps maps memory create
              (uds_memfd_result os)
              (uds_memfd_exchange os)
              v
              page_size
              space
              is_memory
      unfolding send_fd recv_fd
      uds_memfd-ExchangeKeeps creates = record {
        creates = λ (r, s). counted r r s _ refl (try_call-ActKeeps create creates s);
        sends = λ fd (r, s).
            let counter = add64 r.exchange_fd_counter 1 in
            counted r (record r { exchange_fd_counter = counter }) s _ refl
              (send_raw-ActKeeps r.stream fd (le_bytes word_size counter) s);
        receives = λ (r, s). queued_or_received-Keeps r.recv_fd_queue r s;
      }

      -- Over the Unix-socket handshake, if `eventfd` and the calls on the socket map nothing and change no
      -- header page, whether they succeed or not, and a received message with a descriptor has bytes:
      -- `EventFdControl::new` does not panic; it unmaps its header if making, sending or receiving an
      -- eventfd fails, else it keeps it until its end, and the page is prepared as the futex control
      -- prepares it.
      pub event_fd-OwnsHeader_uds :
          CallKeeps create
          → OwnsHeader v page_size
              (uds_memfd_result os)
              (event_fd maps memory create (uds_memfd_result os) (uds_memfd_exchange os))
              (λ control. control.shmem_futex.header)
      event_fd-OwnsHeader_uds creates =
          event_fd-OwnsHeader maps memory create (uds_memfd_result os) (uds_memfd_exchange os) v
            page_size space is_memory (uds_memfd-ExchangeKeeps creates)
