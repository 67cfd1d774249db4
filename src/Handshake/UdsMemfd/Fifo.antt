-- ===== src/Handshake/UdsMemfd/Fifo.antt =====
-- The exchange of descriptors over a socket that keeps the order of its messages.
use memequeue.Prelude.{
  ℕ, zero, suc, ◌+◌, ◌%◌, ◌≤◌, ◌<◌, ◌≡◌, refl, ap, sym, arith, true, false, ◌==◌, ==_iff, inl, inr,
  Bool-cases, List, [], ◌∷◌, ◌++◌, append-nil, append_assoc, length, length-le_bytes, some,
  le_bytes, word_size, add64,
}
use memequeue.Io.{ok}
use memequeue.Os.{value, Act, gives, try_call, or_drop, ◌>>=◌, returned_eq, state_eq}
use memequeue.Handshake.{size_from_len_lem}
use memequeue.Handshake.UdsMemfd.{
  Sockets, UdsMemfd, negotiation_message, payload_buf_size, same_bytes, send_fd, recv_fd,
  queued_or_received, mark_ready, send_raw, recv_raw, collect_round, collect, join_memfd,
}

-- Messages with their descriptors, in the order in which they were sent.
abbrev pub Mail : Type 0
Mail = List (List ℕ × ℕ)

-- The stream between owner and joiner: a message that is sent goes behind those that wait, and the first
-- of these, with its one descriptor, is received whole into a buffer that is large enough.
pub record IsFifo {S : Type 0} (os : Sockets S) (near far : ℕ) (mail : S → Mail) : Type 0 where
  pub sends :
      (payload : List ℕ) (fd : ℕ) (s : S)
      → (s' : S) × (os.sendmsg near payload fd s ≡ (ok tt, s'))
        × (mail s' ≡ mail s ++ (payload, fd) ∷ [])
  pub receives :
      (size : ℕ) (payload : List ℕ) (fd : ℕ) (rest : Mail) (s : S)
      → length payload ≤ size
      → mail s ≡ (payload, fd) ∷ rest
      → (s' : S) × (os.recvmsg far size s
          ≡ (ok (record { fd = some fd; payload = some payload }), s'))
        × (mail s' ≡ rest)

-- Descriptors under the counters that follow `counter`, and the counter behind them.
unfoldable pub numbered : ℕ → List ℕ → Mail
numbered counter [] = []
numbered counter (fd ∷ fds) =
    (le_bytes word_size (add64 counter 1), fd) ∷ numbered (add64 counter 1) fds

unfoldable pub counter_behind : ℕ → List ℕ → ℕ
counter_behind counter [] = counter
counter_behind counter (fd ∷ fds) = counter_behind (add64 counter 1) fds

same_bytes_refl : (bs : List ℕ) → same_bytes bs bs ≡ true
unfolding same_bytes
same_bytes_refl [] = refl
same_bytes_refl (b ∷ bs) = rw ((==_iff b b).1 refl, same_bytes_refl bs)

same_bytes-length : (xs ys : List ℕ) → same_bytes xs ys ≡ true → length xs ≡ length ys
unfolding same_bytes
same_bytes-length [] [] e = refl
same_bytes-length [] (y ∷ ys) e = absurd (ground (arith, e))
same_bytes-length (x ∷ xs) [] e = absurd (ground (arith, e))
same_bytes-length (x ∷ xs) (y ∷ ys) e = elim (Bool-cases (x == y)) [
  | inl same ↦ ap suc (same_bytes-length xs ys (rw same at e))
  | inr other ↦ absurd (ground (arith, rw other at e))
]

-- No counter looks like the message that carries the memfd.
counter_is_no_memfd : (n : ℕ) → same_bytes (le_bytes word_size n) negotiation_message ≡ false
counter_is_no_memfd n = elim (Bool-cases (same_bytes (le_bytes word_size n) negotiation_message)) [
  | inl same ↦
      let e = same_bytes-length (le_bytes word_size n) negotiation_message same in
      absurd (omega (arith, e, length-le_bytes word_size n))
  | inr other ↦ other
]

-- A process sends, or receives, several descriptors through the methods of its handshake.
module _ {S : Type 0} (os : Sockets S) where
  unfoldable pub send_all : List ℕ → Act (UdsMemfd × S) (Unit {0})
  unfolding send_fd
  send_all [] = gives tt
  send_all (fd ∷ fds) = send_fd os fd >>= λ _. send_all fds

  unfoldable pub recv_all : ℕ → Act (UdsMemfd × S) (List ℕ)
  unfolding recv_fd
  recv_all zero = gives []
  recv_all (suc k) = recv_fd os >>= λ fd. recv_all k >>= λ fds. gives (fd ∷ fds)

  -- What the owner does: it sends the control's descriptors, and at last the memfd.
  unfoldable pub share : List ℕ → Act (UdsMemfd × S) (Unit {0})
  unfolding send_all mark_ready
  share fds = send_all fds >>= λ _. mark_ready os

module _ {S : Type 0} (os : Sockets S) (near far : ℕ) (mail : S → Mail)
    (fifo : IsFifo os near far mail) where
  send_raw-mail :
      (stream fd : ℕ) (payload : List ℕ) (s : S)
      → stream ≡ near
      → (s' : S) × (send_raw os stream fd payload s ≡ (value tt, s'))
        × (mail s' ≡ mail s ++ (payload, fd) ∷ [])
  unfolding send_raw
  send_raw-mail stream fd payload s on =
      let (s', e, m) = fifo.sends payload fd s in
      (s', rw on (simp (try_call, returned_eq e, state_eq e)), m)

  recv_raw-mail :
      (payload : List ℕ) (fd : ℕ) (rest : Mail) (s : S)
      → length payload ≤ payload_buf_size
      → mail s ≡ (payload, fd) ∷ rest
      → (s' : S) × (recv_raw os far payload_buf_size s ≡ (value (fd, payload), s'))
        × (mail s' ≡ rest)
  unfolding recv_raw
  recv_raw-mail payload fd rest s small h =
      let (s', e, m) = fifo.receives payload_buf_size payload fd rest s small h in
      (s', simp (try_call, ◌>>=◌, returned_eq e, state_eq e), m)

  -- The descriptors go out under the counters that follow the one that the handshake has.
  send_all-mail :
      (fds : List ℕ) (r : UdsMemfd) (s : S)
      → r.stream ≡ near
      → (s' : S) × (send_all os fds (r, s) ≡ (
        value tt,
        (record r { exchange_fd_counter = counter_behind r.exchange_fd_counter fds }, s'),
      ))
        × (mail s' ≡ mail s ++ numbered r.exchange_fd_counter fds)
  unfolding send_all numbered counter_behind send_fd
  send_all-mail [] r s on = (s, refl, sym (append-nil (mail s)))
  send_all-mail (fd ∷ fds) r s on =
      let counter = add64 r.exchange_fd_counter 1 in
      let (s₁, e, m) = send_raw-mail r.stream fd (le_bytes word_size counter) s on in
      let (s₂, e₂, m₂) = send_all-mail fds (record r { exchange_fd_counter = counter }) s₁ on in
      (s₂, simp (◌>>=◌, returned_eq e, state_eq e, e₂), simp (m₂, m, append_assoc))

  -- The loop of `uds_memfd` collects them in order, up to the memfd.
  collect-numbered :
      (fds : List ℕ) (fuel counter : ℕ) (queue : List ℕ) (file : ℕ) (rest : Mail) (s : S)
      → length fds < fuel
      → mail s ≡ numbered counter fds ++ (negotiation_message, file) ∷ rest
      → (s' : S) × (collect os fuel far counter queue s
          ≡ (value (file, counter_behind counter fds, queue ++ fds), s'))
        × (mail s' ≡ rest)
  unfolding numbered counter_behind collect collect_round
  collect-numbered fds zero counter queue file rest s enough h = absurd (omega (arith, enough))
  collect-numbered [] (suc fuel) counter queue file rest s enough h =
      let (s', e, m) = recv_raw-mail negotiation_message file rest s (omega arith) h in
      (s', simp (◌>>=◌, returned_eq e, state_eq e, append-nil), m)
  collect-numbered (fd ∷ fds) (suc fuel) counter queue file rest s enough h =
      let next = add64 counter 1 in
      let payload = le_bytes word_size next in
      let (s₁, e, m) =
        recv_raw-mail payload fd (numbered next fds ++ (negotiation_message, file) ∷ rest) s
          (omega (arith, length-le_bytes word_size next)) h in
      let (s₂, e₂, m₂) =
        collect-numbered fds fuel next (queue ++ fd ∷ []) file rest s₁ (omega (arith, enough)) m in
      (
        s₂,
        simp (
          ◌>>=◌,
          returned_eq e,
          state_eq e,
          counter_is_no_memfd next,
          same_bytes_refl payload,
          e₂,
          append_assoc,
        ),
        m₂,
      )

  -- `send_all` and then `mark_ready`, of an owner.
  share-mail :
      (fds : List ℕ) (r : UdsMemfd) (s : S)
      → r.stream ≡ near
      → r.owner ≡ true
      → (s' : S) × (share os fds (r, s) ≡ (
        value tt,
        (record r { exchange_fd_counter = counter_behind r.exchange_fd_counter fds }, s'),
      ))
        × (mail s'
            ≡ mail s ++ numbered r.exchange_fd_counter fds ++ (negotiation_message, r.file) ∷ [])
  unfolding share mark_ready
  share-mail fds r s on owns =
      let (s₁, e, m) = send_all-mail fds r s on in
      let (s₂, e₂, m₂) = send_raw-mail r.stream r.file negotiation_message s₁ on in
      (
        s₂,
        simp (◌>>=◌, returned_eq e, state_eq e, owns, returned_eq e₂, state_eq e₂),
        simp (m₂, m, append_assoc),
      )

  -- What is queued is received in its order, with no message.
  recv_all-queued :
      (fds : List ℕ) (r : UdsMemfd) (s : S)
      → recv_all os (length fds) (record r { recv_fd_queue = fds }, s)
        ≡ (value fds, (record r { recv_fd_queue = [] }, s))
  unfolding recv_all recv_fd
  recv_all-queued [] r s = refl
  recv_all-queued (fd ∷ fds) r s = simp (◌>>=◌, queued_or_received, recv_all-queued fds r s)

  -- Over a stream that keeps order, an owner that has exchanged nothing yet sends descriptors and then
  -- marks the queue as ready, with a file of a page and `size` bytes, whole pages, whose length can be
  -- read. Then, with more fuel than descriptors, the joiner's part of `uds_memfd` succeeds with the
  -- owner's file and that size, and `recv_fd` gives the same descriptors in the same order.
  pub fds_in_order :
      (page_size size fuel : ℕ) (fds : List ℕ) (r : UdsMemfd) (s : S)
      → r.stream ≡ near
      → r.owner ≡ true
      → r.exchange_fd_counter ≡ 0
      → mail s ≡ []
      → size % page_size ≡ 0
      → length fds < fuel
      → ((t : S) → (t' : S) × (os.len r.file t ≡ (ok (page_size + size), t')))
      → (s' : S) × (s'' : S) × (j : UdsMemfd) × (share os fds (r, s) ≡ (
        value tt,
        (record r { exchange_fd_counter = counter_behind r.exchange_fd_counter fds }, s'),
      ))
        × (join_memfd os page_size fuel far s' ≡ (value j, s''))
        × (j.file ≡ r.file)
        × (j.queue_size ≡ size)
        × (recv_all os (length fds) (j, s'') ≡ (value fds, (record j { recv_fd_queue = [] }, s'')))
  unfolding join_memfd
  fds_in_order page_size size fuel fds r s on owns none_yet empty whole enough readable =
      let (s₁, e, m) = share-mail fds r s on owns in
      let sent : mail s₁ ≡ numbered 0 fds ++ (negotiation_message, r.file) ∷ [] =
        simp (none_yet, empty) at m in
      let (s₂, e₂, _) = collect-numbered fds fuel 0 [] r.file [] s₁ enough sent in
      let (s₃, e₃) = readable s₂ in
      let found = size_from_len_lem page_size size s₃ whole in
      let j : UdsMemfd = record {
        file = r.file;
        owner = false;
        queue_size = size;
        stream = far;
        exchange_fd_counter = counter_behind 0 fds;
        recv_fd_queue = fds;
      } in
      (
        s₁,
        s₃,
        j,
        e,
        simp (
          ◌>>=◌,
          or_drop,
          try_call,
          returned_eq e₂,
          state_eq e₂,
          returned_eq e₃,
          state_eq e₃,
          returned_eq found,
          state_eq found,
        ),
        refl,
        refl,
        recv_all-queued fds j s₃,
      )
