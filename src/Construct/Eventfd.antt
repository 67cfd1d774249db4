-- ===== src/Construct/Eventfd.antt =====
-- `EventFdControl::new` of src/control/eventfd.rs: the owner makes two eventfds and sends them, the other
-- side receives them; then both make the futex control.
use memequeue.Prelude.{ℕ, ◌≡◌, refl, ap, ap₂, ◌∙◌, Bool, true, false, if◌then◌else◌}
use memequeue.Os.{
  Outcome, Call, Act, value, fails, panics, waits, gives, try_call, or_drop, ◌>>=◌, Does,
  or_drop-Does, >>=-Does,
}
use memequeue.Control.{init}
use memequeue.Control.Eventfd.{EventFds}
use memequeue.Mmap.{Mmap, Mappings, drop_mmap}
use memequeue.Mmap.Regions.{nothing, within, Same, Shows, IsAddressSpace}
use memequeue.Handshake.{HandshakeResult, ExchangeFd, with_self}
use memequeue.Construct.{
  Setup, ControlOf, HeaderAt, in_handshake, dropping, ShmemFutexControl, new_shmem_futex,
}
use memequeue.Construct.Spaces.{View, Kept, Kept-refl, Kept-trans, Without, OwnsHeader}
use memequeue.Construct.Empty.{IsHeaderMemory}

-- `EventFdControl`, less its clock; its configuration is empty.
pub record EventFdControl : Type 0 where
  pub shmem_futex : ShmemFutexControl
  pub events : EventFds

module _ {H S : Type 0} (os : Mappings S) (memory : HeaderAt S) (create : Call S ℕ)
    (hs : HandshakeResult H S) (ex : ExchangeFd H S) where
  -- `eventfd(0, 0)`
  abbrev pub create_event : Act (H × S) ℕ
  create_event (h, s) = with_self h (try_call create s)

  unfoldable pub make_events : Act (H × S) EventFds
  make_events = create_event >>= λ left_event. create_event >>= λ right_event.
      ex.send_fd left_event >>= λ _. ex.send_fd right_event >>= λ _.
      gives (record { left_event = left_event; right_event = right_event })

  unfoldable pub receive_events : Act (H × S) EventFds
  receive_events = ex.recv_fd >>= λ left_event. ex.recv_fd >>= λ right_event.
      gives (record { left_event = left_event; right_event = right_event })

  unfoldable pub exchange_events : Act (H × S) EventFds
  unfolding make_events receive_events
  exchange_events (h, s) = if hs.is_owner h then make_events (h, s) else receive_events (h, s)

  unfoldable pub new_event_fd : Unit {0} → Mmap → Act (Setup H S) EventFdControl
  unfolding exchange_events new_shmem_futex drop_mmap
  new_event_fd config header =
      or_drop (dropping (drop_mmap os header))
        (λ st. in_handshake st (exchange_events (st.self, st.system)))
      >>= λ events. new_shmem_futex os memory hs 0 header >>= λ shmem_futex.
          gives (record { shmem_futex = shmem_futex; events = events })

  -- Its end unmaps the header and leaves the eventfds open.
  abbrev pub event_fd : ControlOf H S EventFdControl (Unit {0})
  event_fd = record {
    new = new_event_fd;
    drop = λ control. drop_mmap os control.shmem_futex.header;
  }

  module _ (v : View S) (page_size : ℕ) (space : IsAddressSpace v.mapped os)
      (is_memory : IsHeaderMemory v page_size memory) where
    -- Mappings, header pages and the side are the same.
    abbrev pub SameSide : H × S → H × S → Type 0
    SameSide a b = Kept v a.1 b.1 × (hs.is_owner b.0 ≡ hs.is_owner a.0)

    -- An action that maps nothing, changes no header page, and leaves the side what it is.
    abbrev pub Keeping : {A : Type 0} → Act (H × S) A → Type 0
    Keeping act = (a : H × S) → Does (λ _ b. SameSide a b) (λ b. Kept v a.1 b.1) (act a)

    from_here :
        {A : Type 0} (a b : H × S) (d : Outcome A × (H × S))
        → SameSide a b
        → Does (λ _ c. SameSide b c) (λ c. Kept v b.1 c.1) d
        → Does (λ _ c. SameSide a c) (λ c. Kept v a.1 c.1) d
    from_here a b (value x, c) (k, e) (l, f) = (Kept-trans v a.1 b.1 c.1 k l, f ∙ e)
    from_here a b (fails x, c) (k, e) l = Kept-trans v a.1 b.1 c.1 k l
    from_here a b (panics, c) k l = l
    from_here a b (waits, c) k l = l

    >>=-Keeping :
        {A B : Type 0} (act : Act (H × S) A) (next : A → Act (H × S) B)
        → Keeping act
        → ((x : A) → Keeping (next x))
        → Keeping (act >>= next)
    >>=-Keeping act next k l a =
        >>=-Does (λ _ b. SameSide a b) (λ b. Kept v a.1 b.1) (λ _ b. SameSide a b) act next a (k a)
          (λ x b same. from_here a b (next x b) same (l x b))

    gives-Keeping : {A : Type 0} (x : A) → Keeping (gives x)
    gives-Keeping x a = (Kept-refl v a.1, refl)

    -- What `eventfd` and the exchange of descriptors leave as it is.
    pub record ExchangeKeeps : Type 0 where
      pub creates : Keeping create_event
      pub sends : (fd : ℕ) → Keeping (ex.send_fd fd)
      pub receives : Keeping ex.recv_fd

    make_events-Keeping : ExchangeKeeps → Keeping make_events
    unfolding make_events
    make_events-Keeping k = >>=-Keeping create_event _ k.creates (λ left_event.
        >>=-Keeping create_event _ k.creates (λ right_event.
          >>=-Keeping (ex.send_fd left_event) _ (k.sends left_event) (λ _.
            >>=-Keeping {B = EventFds} (ex.send_fd right_event)
              (λ _. gives (record { left_event = left_event; right_event = right_event }))
              (k.sends right_event)
              (λ _.
                gives-Keeping {A = EventFds}
                  (record { left_event = left_event; right_event = right_event })))))

    receive_events-Keeping : ExchangeKeeps → Keeping receive_events
    unfolding receive_events
    receive_events-Keeping k = >>=-Keeping ex.recv_fd _ k.receives (λ left_event.
        >>=-Keeping {B = EventFds} ex.recv_fd
          (λ right_event. gives (record { left_event = left_event; right_event = right_event }))
          k.receives
          (λ right_event.
            gives-Keeping {A = EventFds}
              (record { left_event = left_event; right_event = right_event })))

    one_side :
        (owner : Bool) (a : H × S) (d e : Outcome EventFds × (H × S))
        → Does (λ _ b. SameSide a b) (λ b. Kept v a.1 b.1) d
        → Does (λ _ b. SameSide a b) (λ b. Kept v a.1 b.1) e
        → Does (λ _ b. SameSide a b) (λ b. Kept v a.1 b.1) (if owner then d else e)
    one_side true a d e k l = k
    one_side false a d e k l = l

    exchange_events-Keeping : ExchangeKeeps → Keeping exchange_events
    unfolding exchange_events
    exchange_events-Keeping k (h, s) =
        one_side (hs.is_owner h) (h, s) (make_events (h, s)) (receive_events (h, s))
          (make_events-Keeping k (h, s)) (receive_events-Keeping k (h, s))

    exchanged :
        (st : Setup H S) (d : Outcome EventFds × (H × S))
        → Does (λ _ b. SameSide (st.self, st.system) b) (λ b. Kept v st.system b.1) d
        → Does
            (λ _ end. SameSide (st.self, st.system) (end.self, end.system))
            (λ end. Kept v st.system end.system)
            (in_handshake st d)
    exchanged st (value e, (h, t)) k = k
    exchanged st (fails e, (h, t)) k = k
    exchanged st (panics, (h, t)) k = k
    exchanged st (waits, (h, t)) k = k

    prepared :
        (fd : ℕ) (header : Mmap) (events : EventFds) (st end : Setup H S)
        → SameSide (st.self, st.system) (end.self, end.system)
        → Shows v.mapped fd 0 header.ptr page_size st.system
        → Does
            (λ (control : EventFdControl) end'.
              (control.shmem_futex.header ≡ header)
              × Same v.mapped st.system end'.system
              × (v.page_of end'.system fd ≡ init (hs.is_owner st.self) (v.page_of st.system fd)))
            (λ end'. Without v.mapped header st.system end'.system)
            ((new_shmem_futex os memory hs 0 header >>= λ shmem_futex.
                gives (record { shmem_futex = shmem_futex; events = events }))
              end)
    unfolding new_shmem_futex
    prepared fd header events st end (kept, side) shows =
        let still : Shows v.mapped fd 0 header.ptr page_size end.system =
          λ k lt. kept.0 _ ∙ shows k lt in
        (
          refl,
          (λ x. is_memory.keeps header.ptr _ end.system x ∙ kept.0 x),
          is_memory.stores fd header.ptr _ end.system still
              ∙ ap₂ init side (is_memory.loads fd header.ptr end.system still ∙ kept.1 fd),
        )

    -- If making, sending and receiving an eventfd maps nothing, changes no header page and does not
    -- panic, `EventFdControl::new` does for its header what `with_config` asks of a control: it unmaps
    -- it if it fails, else keeps it until its end, the page prepared as the futex control prepares it.
    pub event_fd-OwnsHeader :
        ExchangeKeeps → OwnsHeader v page_size hs event_fd (λ control. control.shmem_futex.header)
    unfolding new_event_fd drop_mmap
    event_fd-OwnsHeader keeps = record {
      news = λ config header fd st shows.
          let P : EventFds → Setup H S → Type 0 =
            λ _ end. SameSide (st.self, st.system) (end.self, end.system) in
          let F : Setup H S → Type 0 = λ end. Without v.mapped header st.system end.system in
          let act : Act (Setup H S) EventFds =
            λ (st : Setup H S). in_handshake st (exchange_events (st.self, st.system)) in
          >>=-Does P F
            (λ control end.
              (control.shmem_futex.header ≡ header)
              × Same v.mapped st.system end.system
              × (v.page_of end.system fd ≡ init (hs.is_owner st.self) (v.page_of st.system fd)))
            (or_drop (dropping (drop_mmap os header)) act)
            (λ events. new_shmem_futex os memory hs 0 header >>= λ shmem_futex.
              gives (record { shmem_futex = shmem_futex; events = events }))
            st
            (or_drop-Does P F (dropping (drop_mmap os header)) (λ end. Kept v st.system end.system)
              act st
              (exchanged st (exchange_events (st.self, st.system))
                (exchange_events-Keeping keeps (st.self, st.system)))
              (λ end same x.
                space.unmap header.ptr header.size end.system x
                ∙ ap (λ b. if within header.ptr header.size x then nothing else b) (same.0 x)))
            (λ events end k. prepared fd header events st end k shows);
      drops = λ control s x.
          space.unmap control.shmem_futex.header.ptr control.shmem_futex.header.size s x;
    }
