-- ===== src/Construct/Spaces.antt =====
-- What `with_config` leaves mapped.
use memequeue.Prelude.{
  ℕ, ◌+◌, ◌*◌, ◌%◌, ◌^◌, ◌<◌, ◌≡◌, Bool, true, false, ◌||◌, refl, sym, subst, ◌∙◌, if◌then◌else◌,
}
use memequeue.Control.{Header, init}
use memequeue.Os.{
  Outcome, value, fails, panics, waits, Act, gives, or_drop, ◌>>=◌, Does, or_drop-Does, >>=-Does,
}
use memequeue.Mmap.{Mmap, QueueMmaps, Mappings, drop_mmap, from_fd}
use memequeue.Mmap.Regions.{
  Backing, nothing, within, within_split, Same, Shows, IsAddressSpace, Double, from_fd-Does,
}
use memequeue.Handshake.{HandshakeResult}
use memequeue.Construct.{
  Setup, ControlOf, QueueOf, in_system, in_handshake, ready, dropping, with_mmaps, map_queue,
  with_config,
}

-- All that was mapped in `s`, without these addresses.
abbrev pub Without : {S : Type 0} → (S → ℕ → Backing) → Mmap → S → S → Type 0
Without mapped m s s' =
    (x : ℕ) → mapped s' x ≡ (if within m.ptr m.size x then nothing else mapped s x)

-- What is left when the three mappings of a queue are undone, at one address: `a`, `b` and `h` tell
-- whether it is in the left, the right and the header's mapping.
left_over :
    (a b h w : Bool) (before after : Backing)
    → w ≡ (a || b)
    → ((h || w) ≡ true → before ≡ nothing)
    → ((h || w) ≡ false → after ≡ before)
    → (if a then nothing else if b then nothing else if h then nothing else after) ≡ before
left_over true b true w before after e free same = sym (free refl)
left_over true b false w before after e free same = sym (free e)
left_over false true true w before after e free same = sym (free refl)
left_over false true false w before after e free same = sym (free e)
left_over false false true w before after e free same = sym (free refl)
left_over false false false w before after e free same = same e

-- A state as the proofs see it: what stands behind each address, and the header page of each file.
pub record View (S : Type 0) : Type 0 where
  pub mapped : S → ℕ → Backing
  pub page_of : S → ℕ → Header

module _ {S : Type 0} (v : View S) where
  -- Mappings and header pages are the same.
  abbrev pub Kept : S → S → Type 0
  Kept s s' = Same v.mapped s s' × ((fd : ℕ) → v.page_of s' fd ≡ v.page_of s fd)

  pub Kept-refl : (s : S) → Kept s s
  Kept-refl s = ((λ x. refl), (λ fd. refl))

  pub Kept-trans : (s t u : S) → Kept s t → Kept t u → Kept s u
  Kept-trans s t u (a, b) (c, d) = ((λ x. c x ∙ a x), (λ fd. d fd ∙ b fd))

module _ {H S : Type 0} (v : View S) where
  -- A handshake's operations map and unmap nothing, and leave the header pages as they are.
  pub record KeepsSpace (hs : HandshakeResult H S) : Type 0 where
    pub ready :
        (h : H) (s : S)
        → Does (λ _ end. Kept v s end.1) (λ end. Kept v s end.1) (hs.mark_ready (h, s))
    pub drops : (h : H) (s : S) → Kept v s (hs.drop h s)

  -- A control owns the mapping of its header: it unmaps it at its end, or when `new` fails. Where `new`
  -- succeeds on a mapping of a file's header page, it has prepared that page.
  pub record OwnsHeader {C Config : Type 0} (page_size : ℕ) (hs : HandshakeResult H S)
      (c : ControlOf H S C Config) (mapping : C → Mmap) : Type 0 where
    pub news :
        (config : Config) (header : Mmap) (fd : ℕ) (st : Setup H S)
        → Shows v.mapped fd 0 header.ptr page_size st.system
        → Does
            (λ control end.
              (mapping control ≡ header)
              × Same v.mapped st.system end.system
              × (v.page_of end.system fd ≡ init (hs.is_owner st.self) (v.page_of st.system fd)))
            (λ end. Without v.mapped header st.system end.system)
            (c.new config header st)
    pub drops : (control : C) (s : S) → Without v.mapped (mapping control) s (c.drop control s)

  module _ {C Config : Type 0} (os : Mappings S) (space : IsAddressSpace v.mapped os)
      (page_size : ℕ) (hs : HandshakeResult H S) (keeps : KeepsSpace hs)
      (c : ControlOf H S C Config) (mapping : C → Mmap)
      (owns : OwnsHeader page_size hs c mapping) where
    abbrev mapped : S → ℕ → Backing
    mapped = v.mapped

    -- The mappings of a queue, its header's in the control.
    abbrev pub mmaps_of : QueueOf C → QueueMmaps
    mmaps_of q = record { header = mapping q.control; left = q.left; right = q.right }

    -- A queue was made: its mappings of the handshake's file, and that file's header page, prepared from
    -- what it was.
    abbrev pub Made : ℕ → S → H → QueueOf C → Setup H S → Type 0
    Made queue_size s self q end =
        Double v.mapped page_size (hs.shmem_fd self) queue_size s (mmaps_of q) end.system
        × ((page : Header) × (v.page_of end.system (hs.shmem_fd self)
              ≡ init (hs.is_owner self) page))

    in_system-Does :
        (st : Setup H S) (P : QueueMmaps → S → Type 0) (F : S → Type 0) (d : Outcome QueueMmaps × S)
        → Does P F d
        → Does
            (λ m end. P m end.system × (end.self ≡ st.self))
            (λ end. F end.system)
            (in_system st d)
    in_system-Does st P F (value m, t) h = (h, refl)
    in_system-Does st P F (fails e, t) h = h
    in_system-Does st P F (panics, t) h = h
    in_system-Does st P F (waits, t) h = h

    in_handshake-Does :
        (st : Setup H S) (d : Outcome (Unit {0}) × (H × S))
        → Does (λ (_ : Unit {0}) end. Kept v st.system end.1) (λ end. Kept v st.system end.1) d
        → Does
            (λ (_ : Unit {0}) end. Kept v st.system end.system)
            (λ end. Kept v st.system end.system)
            (in_handshake st d)
    in_handshake-Does st (value u, (h, t)) k = k
    in_handshake-Does st (fails e, (h, t)) k = k
    in_handshake-Does st (panics, (h, t)) k = k
    in_handshake-Does st (waits, (h, t)) k = k

    -- With the three mappings undone, all is as it was.
    undone_mmaps :
        (fd queue_size : ℕ) (s s₁ t u : S) (m : QueueMmaps)
        → Double mapped page_size fd queue_size s m s₁
        → Without mapped m.header s₁ t
        → ((x : ℕ)
            → mapped u x ≡ (
                if within m.left.ptr m.left.size x
                then nothing
                else if within m.right.ptr m.right.size x
                then nothing
                else mapped t x))
        → Same mapped s u
    undone_mmaps fd queue_size s s₁ t u m d t_is u_is x =
        let there : mapped u x ≡ (
            if within m.left.ptr queue_size x
            then nothing
            else if within (m.left.ptr + queue_size) queue_size x
            then nothing
            else if within m.header.ptr page_size x
            then nothing
            else mapped s₁ x) =
          rw (t_is x, d.left_size, d.right_size, d.adjacent, d.header_size) at (u_is x) in
        there
        ∙ left_over (within m.left.ptr queue_size x) (within (m.left.ptr + queue_size) queue_size x)
            (within m.header.ptr page_size x) (within m.left.ptr (2 * queue_size) x) (mapped s x)
            (mapped s₁ x) (within_split m.left.ptr queue_size x) (d.was_free x) (d.others x)

    ready-Does :
        (st : Setup H S)
        → Does
            (λ (_ : Unit {0}) end. Kept v st.system end.system)
            (λ end. Kept v st.system end.system)
            (ready hs st)
    ready-Does st =
        in_handshake-Does st (hs.mark_ready (st.self, st.system)) (keeps.ready st.self st.system)

    control_dropped :
        (s t : S) (control : C) (header : Mmap)
        → mapping control ≡ header
        → Same mapped s t
        → Without mapped header s (c.drop control t)
    control_dropped s t control header e same x = rw (e, same x) at (owns.drops control t x)

    kept :
        (fd queue_size : ℕ) (s : S) (m : QueueMmaps) (control : C) (t u : S)
        → Double mapped page_size fd queue_size s m t
        → mapping control ≡ m.header
        → Same mapped t u
        → Double mapped page_size fd queue_size s
            (record { header = mapping control; left = m.left; right = m.right })
            u
    kept fd queue_size s m control t u d e same = rw e (record {
      left_size = d.left_size;
      right_size = d.right_size;
      adjacent = d.adjacent;
      fits = d.fits;
      header_size = d.header_size;
      left_shows = λ k lt. same _ ∙ d.left_shows k lt;
      right_shows = λ k lt. same _ ∙ d.right_shows k lt;
      header_shows = λ k lt. same _ ∙ d.header_shows k lt;
      was_free = d.was_free;
      others = λ x e. same x ∙ d.others x e;
    })

    header_of :
        (queue_size : ℕ) (s : S) (m : QueueMmaps) (t : S) (fd : ℕ)
        → Double mapped page_size fd queue_size s m t
        → Shows mapped fd 0 m.header.ptr page_size t
    header_of queue_size s m t fd d = d.header_shows

    both_gone :
        (a b : Mmap) (t : S) (x : ℕ)
        → mapped (drop_mmap os a (drop_mmap os b t)) x ≡ (
            if within a.ptr a.size x
            then nothing
            else if within b.ptr b.size x
            then nothing
            else mapped t x)
    unfolding drop_mmap
    both_gone a b t x =
        rw (space.unmap a.ptr a.size (os.munmap b.ptr b.size t) x, space.unmap b.ptr b.size t x)

    with_mmaps-Does :
        (queue_size : ℕ) (s : S) (config : Config) (m : QueueMmaps) (st : Setup H S)
        → Double mapped page_size (hs.shmem_fd st.self) queue_size s m st.system
        → Does
            (Made queue_size s st.self)
            (λ end. Same mapped s end.system)
            (with_mmaps os page_size hs c config m st)
    unfolding with_mmaps drop_mmap
    with_mmaps-Does queue_size s config m st d =
        let fd : ℕ = hs.shmem_fd st.self in
        let P : QueueOf C → Setup H S → Type 0 = Made queue_size s st.self in
        let F : Setup H S → Type 0 = λ end. Same mapped s end.system in
        let unmap : S → S = λ t. drop_mmap os m.left (drop_mmap os m.right t) in
        let F₁ : Setup H S → Type 0 = λ end. Without mapped m.header st.system end.system in
        let new : Act (Setup H S) C = c.new config m.header in
        or_drop-Does P F (dropping unmap) F₁
          (new >>= λ control. or_drop (dropping (c.drop control)) (ready hs) >>= λ _.
            gives (record { control = control; left = m.left; right = m.right }))
          st
          (>>=-Does
            (λ control end.
              (mapping control ≡ m.header)
              × Same mapped st.system end.system
              × (v.page_of end.system fd ≡ init (hs.is_owner st.self) (v.page_of st.system fd)))
            F₁ P new
            (λ control. or_drop (dropping (c.drop control)) (ready hs) >>= λ _.
              gives (record { control = control; left = m.left; right = m.right }))
            st (owns.news config m.header fd st (header_of queue_size s m st.system fd d))
            (λ control st₁ h.
              let P₁ : Unit {0} → Setup H S → Type 0 = λ _ end. Kept v st₁.system end.system in
              >>=-Does P₁ F₁ P (or_drop (dropping (c.drop control)) (ready hs))
                (λ _. gives (record { control = control; left = m.left; right = m.right })) st₁
                (or_drop-Does P₁ F₁ (dropping (c.drop control))
                  (λ end. Kept v st₁.system end.system) (ready hs) st₁ (ready-Does st₁)
                  (λ end k.
                    control_dropped st.system end.system control m.header h.0 (λ x. k.0 x ∙ h.1 x)))
                (λ _ end k. (
                  kept fd queue_size s m control st.system end.system d h.0 (λ x. k.0 x ∙ h.1 x),
                  (v.page_of st.system fd, k.1 fd ∙ h.2),
                ))))
          (λ end without.
            undone_mmaps fd queue_size s st.system end.system (unmap end.system) m d without
              (λ x. both_gone m.left m.right end.system x))

    -- If the handshake's operations map and unmap nothing and keep the header pages, and the control owns
    -- its header's mapping, then over an address space in which `mmap` and `munmap` do what they
    -- document, and for a queue size that is a multiple of the page size and fits twice into 64 bits,
    -- `with_config` does not panic; if it succeeds, the handshake's file behind its first page is mapped
    -- twice side by side, that page as the header, nothing else has changed, and that page is as `init`
    -- leaves one; if any part of it fails, it leaves mapped what was.
    pub with_config-Does :
        (config : Config) (st : Setup H S)
        → 2 * hs.queue_size st.self < 2 ^ 64
        → hs.queue_size st.self % page_size ≡ 0
        → Does
            (Made (hs.queue_size st.self) st.system st.self)
            (λ end. Same mapped st.system end.system)
            (with_config os page_size hs c config st)
    unfolding with_config map_queue
    with_config-Does config st small whole =
        let queue_size : ℕ = hs.queue_size st.self in
        let fd : ℕ = hs.shmem_fd st.self in
        let P : QueueOf C → Setup H S → Type 0 = Made queue_size st.system st.self in
        let P₁ : QueueMmaps → Setup H S → Type 0 = λ m end.
          Double mapped page_size fd queue_size st.system m end.system × (end.self ≡ st.self) in
        let F : Setup H S → Type 0 = λ end. Same mapped st.system end.system in
        or_drop-Does P F (λ end. dropping (hs.drop end.self) end) F
          (map_queue os page_size hs c >>= with_mmaps os page_size hs c config) st
          (>>=-Does P₁ F P (map_queue os page_size hs c) (with_mmaps os page_size hs c config) st
            (in_system-Does st (λ m t. Double mapped page_size fd queue_size st.system m t)
              (Same mapped st.system) (from_fd os page_size fd queue_size st.system)
              (from_fd-Does mapped os space page_size fd queue_size small st.system whole))
            (λ m st₁ d.
              subst
                (λ (h : H).
                  Does (Made queue_size st.system h) F (with_mmaps os page_size hs c config m st₁))
                d.1
                (with_mmaps-Does queue_size st.system config m st₁ (
                  subst
                    (λ (h : H).
                      Double mapped page_size (hs.shmem_fd h) queue_size st.system m st₁.system)
                    (sym d.1) d.0))))
          (λ end same x. (keeps.drops end.self end.system).0 x ∙ same x)
