-- ===== src/Mmap/Regions.antt =====
-- Which bytes of which file the calls of `QueueMmaps::from_fd` map, and what they unmap.
use memequeue.Prelude.{
  ℕ, ◌+◌, ◌-◌, ◌*◌, ◌%◌, ◌^◌, ◌<◌, ◌≡◌, Bool, true, false, ◌&&◌, ◌||◌, inl, inr, Bool-cases, sym,
  ◌∙◌, arith, ltb, leb, if◌then◌else◌, add64, refl,
}
use memequeue.Os.{
  Call, gives, try_call, or_drop, ◌>>=◌, Does, CallDoes, CallDoes-map, try_call-Does, or_drop-Does,
  >>=-Does,
}
use memequeue.Mmap.{Mmap, QueueMmaps, Mappings, drop_mmap, map_left, map_right, map_header, from_fd}

-- What stands behind an address.
pub data Backing : Type 0 where
  nothing anonymous : Backing
  of_file : (fd offset : ℕ) → Backing

-- `x` is one of the `n` addresses from `start`.
abbrev pub within : ℕ → ℕ → ℕ → Bool
within start n x = leb start x && ltb x (start + n)

module _ {S : Type 0} (mapped : S → ℕ → Backing) where
  -- The address space of `s'` is that of `s`, but for these addresses.
  abbrev pub SameBut : ℕ → ℕ → S → S → Type 0
  SameBut start n s s' = (x : ℕ) → within start n x ≡ false → mapped s' x ≡ mapped s x

  abbrev pub Same : S → S → Type 0
  Same s s' = (x : ℕ) → mapped s' x ≡ mapped s x

  -- `what` by the distance from `start`
  abbrev pub Maps : (ℕ → Backing) → ℕ → ℕ → S → S → Type 0
  Maps what start n s s' =
      (x : ℕ) → mapped s' x ≡ (if within start n x then what (x - start) else mapped s x)

  -- A mapping was put where there was none.
  pub record New (what : ℕ → Backing) (n : ℕ) (s : S) (start : ℕ) (s' : S) : Type 0 where
    pub fits : start + n < 2 ^ 47  -- user space
    pub was_free : (x : ℕ) → within start n x ≡ true → mapped s x ≡ nothing
    pub maps : Maps what start n s s'

  -- What `mmap` and `munmap` do to the address space. A fixed mapping that fails may have unmapped what
  -- was there.
  pub record IsAddressSpace (os : Mappings S) : Type 0 where
    pub anonymous :
        (n : ℕ) (s : S) → CallDoes (New (λ _. anonymous) n s) (Same s) (os.map_anonymous n s)
    pub fixed :
        (start n fd offset : ℕ) (s : S)
        → CallDoes
            (λ ptr s'. (ptr ≡ start) × Maps (λ k. of_file fd (offset + k)) start n s s')
            (SameBut start n s)
            (os.map_fixed start n fd offset s)
    pub file :
        (n fd offset : ℕ) (s : S)
        → CallDoes (New (λ k. of_file fd (offset + k)) n s) (Same s) (os.map_file n fd offset s)
    pub unmap :
        (start n : ℕ) (s : S) (x : ℕ)
        → mapped (os.munmap start n s) x ≡ (if within start n x then nothing else mapped s x)

  -- These addresses show the file from an offset on.
  abbrev pub Shows : ℕ → ℕ → ℕ → ℕ → S → Type 0
  Shows fd offset start n s = (k : ℕ) → k < n → mapped s (start + k) ≡ of_file fd (offset + k)

  -- The file behind its first page is mapped twice, side by side, and that page as the header, where
  -- nothing was.
  pub record Double (page_size fd queue_size : ℕ) (s : S) (m : QueueMmaps) (s' : S) : Type 0 where
    pub left_size : m.left.size ≡ queue_size
    pub right_size : m.right.size ≡ queue_size
    pub adjacent : m.right.ptr ≡ m.left.ptr + queue_size
    pub fits : m.left.ptr + 2 * queue_size < 2 ^ 47
    pub header_size : m.header.size ≡ page_size
    pub left_shows : Shows fd page_size m.left.ptr queue_size s'
    pub right_shows : Shows fd page_size (m.left.ptr + queue_size) queue_size s'
    pub header_shows : Shows fd 0 m.header.ptr page_size s'
    pub was_free :
        (x : ℕ)
        → (within m.header.ptr page_size x || within m.left.ptr (2 * queue_size) x) ≡ true
        → mapped s x ≡ nothing
    pub others :
        (x : ℕ)
        → (within m.header.ptr page_size x || within m.left.ptr (2 * queue_size) x) ≡ false
        → mapped s' x ≡ mapped s x

either :
    (a b : Bool) (c : Backing)
    → (if b then nothing else if a then nothing else c) ≡ (if a || b then nothing else c)
either true true c = refl
either true false c = refl
either false true c = refl
either false false c = refl

either' :
    (a b : Bool) (c : Backing)
    → (if a then nothing else if b then nothing else c) ≡ (if a || b then nothing else c)
either' true b c = refl
either' false b c = refl

pub within_split :
    (start n x : ℕ) → within start (2 * n) x ≡ (within start n x || within (start + n) n x)
within_split start n x = ground arith

within_left : (start n x : ℕ) → within start (2 * n) x ≡ false → within start n x ≡ false
within_left start n x e = ground (arith, e)

within_right : (start n x : ℕ) → within start (2 * n) x ≡ false → within (start + n) n x ≡ false
within_right start n x e = ground (arith, e)

module _ {S : Type 0} (mapped : S → ℕ → Backing) where
  -- Inside and outside of what was mapped.
  Maps-Shows :
      (fd offset start n : ℕ) (s s' : S)
      → Maps mapped (λ k. of_file fd (offset + k)) start n s s'
      → Shows mapped fd offset start n s'
  Maps-Shows fd offset start n s s' maps k lt =
      let inside : within start n (start + k) ≡ true = ground (arith, lt) in
      let back : start + k - start ≡ k = omega arith in rw (inside, back) at (maps (start + k))

  Maps-SameBut :
      (what : ℕ → Backing) (start n : ℕ) (s s' : S)
      → Maps mapped what start n s s'
      → SameBut mapped start n s s'
  Maps-SameBut what start n s s' maps x e = rw e at (maps x)

  -- What shows a file is not where nothing was.
  Shows-apart :
      (fd offset start n from size : ℕ) (s : S)
      → Shows mapped fd offset start n s
      → ((x : ℕ) → within from size x ≡ true → mapped s x ≡ nothing)
      → (k : ℕ) → k < n
      → within from size (start + k) ≡ false
  Shows-apart fd offset start n from size s shows free k lt =
      elim (Bool-cases (within from size (start + k))) [
        | inl e ↦ absurd (let e' = sym (shows k lt) ∙ free (start + k) e in cc)
        | inr e ↦ e
      ]

  Shows-SameBut :
      (fd offset start n from size : ℕ) (s s' : S)
      → Shows mapped fd offset start n s
      → SameBut mapped from size s s'
      → ((k : ℕ) → k < n → within from size (start + k) ≡ false)
      → Shows mapped fd offset start n s'
  Shows-SameBut fd offset start n from size s s' shows same apart k lt =
      same (start + k) (apart k lt) ∙ shows k lt

  -- What was mapped where nothing was, and all that changed there, is unmapped.
  undone :
      (start n : ℕ) (s t u : S)
      → ((x : ℕ) → within start n x ≡ true → mapped s x ≡ nothing)
      → SameBut mapped start n s t
      → ((x : ℕ) → mapped u x ≡ (if within start n x then nothing else mapped t x))
      → Same mapped s u
  undone start n s t u was_free same unmapped x = elim (Bool-cases (within start n x)) [
    | inl e ↦ (rw e at (unmapped x)) ∙ sym (was_free x e)
    | inr e ↦ (rw e at (unmapped x)) ∙ same x e
  ]

  module _ (os : Mappings S) (space : IsAddressSpace mapped os) (page_size fd queue_size : ℕ)
      (small : 2 * queue_size < 2 ^ 64) (s : S) where
    -- Room for both halves, where nothing was; all else is as it was.
    record Reserved (big : ℕ) (s' : S) : Type 0 where
      fits : big + 2 * queue_size < 2 ^ 47
      was_free : (x : ℕ) → within big (2 * queue_size) x ≡ true → mapped s x ≡ nothing
      same : SameBut mapped big (2 * queue_size) s s'

    abbrev Left : ℕ → S → Type 0
    Left big s' = Reserved big s' × Shows mapped fd page_size big queue_size s'

    abbrev Both : ℕ → S → Type 0
    Both big s' = Left big s' × Shows mapped fd page_size (big + queue_size) queue_size s'

    abbrev left_of : ℕ → Mmap
    left_of big = record { ptr = big; size = queue_size }

    abbrev right_of : ℕ → Mmap
    right_of big = record { ptr = add64 big queue_size; size = queue_size }

    right_start : (big : ℕ) (s₁ : S) → Reserved big s₁ → add64 big queue_size ≡ big + queue_size
    right_start big s₁ r = omega (arith, r.fits)

    -- A change within it leaves it reserved.
    still_Reserved :
        (big part : ℕ) (t u : S)
        → Reserved big t
        → SameBut mapped part queue_size t u
        → ((x : ℕ) → within big (2 * queue_size) x ≡ false → within part queue_size x ≡ false)
        → Reserved big u
    still_Reserved big part t u r same inside = record {
      fits = r.fits;
      was_free = r.was_free;
      same = λ x e. same x (inside x e) ∙ r.same x e;
    }

    -- Unmapping both halves, in either order.
    both_unmapped :
        (big : ℕ) (t : S) (x : ℕ)
        → mapped (os.munmap (big + queue_size) queue_size (os.munmap big queue_size t)) x
          ≡ (if within big (2 * queue_size) x then nothing else mapped t x)
    both_unmapped big t x =
        rw
          (
            within_split big queue_size x,
            space.unmap (big + queue_size) queue_size (os.munmap big queue_size t) x,
            space.unmap big queue_size t x,
          )
          (either _ _ (mapped t x))

    both_unmapped' :
        (big : ℕ) (t : S) (x : ℕ)
        → mapped (os.munmap big queue_size (os.munmap (big + queue_size) queue_size t)) x
          ≡ (if within big (2 * queue_size) x then nothing else mapped t x)
    both_unmapped' big t x =
        rw
          (
            within_split big queue_size x,
            space.unmap big queue_size (os.munmap (big + queue_size) queue_size t) x,
            space.unmap (big + queue_size) queue_size t x,
          )
          (either' _ _ (mapped t x))

    map_left-Does :
        (big : ℕ) (s₁ : S)
        → Reserved big s₁
        → Does
            (λ left s'. (left ≡ big) × Left big s')
            (Same mapped s)
            (map_left os page_size fd queue_size big s₁)
    unfolding map_left
    map_left-Does big s₁ r =
        let size : queue_size * 2 % 2 ^ 64 ≡ 2 * queue_size = omega (arith, small) in
        let call = os.map_fixed big queue_size fd page_size in
        let P : ℕ → S → Type 0 = λ left t. (left ≡ big) × Left big t in
        let F : S → Type 0 = SameBut mapped big queue_size s₁ in
        or_drop-Does P (Same mapped s) (os.munmap big (queue_size * 2 % 2 ^ 64)) F (try_call call)
          s₁
          (try_call-Does P F call s₁ (
            CallDoes-map
              (λ left t.
                (left ≡ big) × Maps mapped (λ k. of_file fd (page_size + k)) big queue_size s₁ t)
              P F F (call s₁) (space.fixed big queue_size fd page_size s₁)
              (λ left t h. (
                h.0,
                (
                  still_Reserved big big s₁ t r
                      (Maps-SameBut (λ k. of_file fd (page_size + k)) big queue_size s₁ t h.1)
                      (within_left big queue_size),
                  Maps-Shows fd page_size big queue_size s₁ t h.1,
                ),
              ))
              (λ t h. h)))
          (λ t h.
            let u = still_Reserved big big s₁ t r h (within_left big queue_size) in
            undone big (2 * queue_size) s t (os.munmap big (queue_size * 2 % 2 ^ 64) t) u.was_free
              u.same (λ x. rw size (space.unmap big (2 * queue_size) t x)))

    map_right-Does :
        (big : ℕ) (s₂ : S)
        → Left big s₂
        → Does
            (λ right s'. Both big s')
            (Same mapped s)
            (map_right os page_size fd queue_size big big s₂)
    unfolding map_right
    map_right-Does big s₂ (r, left) =
        let start = right_start big s₂ r in
        let call = os.map_fixed (add64 big queue_size) queue_size fd page_size in
        let P : ℕ → S → Type 0 = λ right t. Both big t in
        let F : S → Type 0 = SameBut mapped (big + queue_size) queue_size s₂ in
        let undo : S → S =
          λ t. os.munmap (add64 big queue_size) queue_size (os.munmap big queue_size t) in
        or_drop-Does P (Same mapped s) undo F (try_call call) s₂
          (try_call-Does P F call s₂ (
            rw start (
              CallDoes-map
                (λ right t.
                  (right ≡ big + queue_size)
                  × Maps mapped (λ k. of_file fd (page_size + k)) (big + queue_size) queue_size s₂
                      t)
                P F F (os.map_fixed (big + queue_size) queue_size fd page_size s₂)
                (space.fixed (big + queue_size) queue_size fd page_size s₂)
                (λ right t h.
                  let same : SameBut mapped (big + queue_size) queue_size s₂ t =
                    Maps-SameBut (λ k. of_file fd (page_size + k)) (big + queue_size) queue_size s₂
                      t h.1 in
                  (
                    (
                      still_Reserved big (big + queue_size) s₂ t r same
                          (within_right big queue_size),
                      Shows-SameBut fd page_size big queue_size (big + queue_size) queue_size s₂ t
                          left same (λ k lt. ground (arith, lt)),
                    ),
                    Maps-Shows fd page_size (big + queue_size) queue_size s₂ t h.1,
                  ))
                (λ t h. h))))
          (λ t h.
            let u = still_Reserved big (big + queue_size) s₂ t r h (within_right big queue_size) in
            undone big (2 * queue_size) s t (undo t) u.was_free u.same
              (λ x. rw start (both_unmapped big t x)))

    -- Where the header went, or the two mappings, nothing was.
    free_before :
        (what : ℕ → Backing) (n big header : ℕ) (s₃ t : S)
        → Reserved big s₃
        → New mapped what n s₃ header t
        → (x : ℕ) → (within header n x || within big (2 * queue_size) x) ≡ true
        → mapped s x ≡ nothing
    free_before what n big header s₃ t r new x e =
        elim (Bool-cases (within big (2 * queue_size) x)) [
          | inl here ↦ r.was_free x here
          | inr elsewhere ↦
              let there : within header n x ≡ true = ground (arith, e, elsewhere) in
              sym (r.same x elsewhere) ∙ new.was_free x there
        ]

    header-Double :
        (big header : ℕ) (s₃ t : S)
        → Both big s₃
        → New mapped (λ k. of_file fd (0 + k)) page_size s₃ header t
        → Double mapped page_size fd queue_size s
            (record {
              header = record { ptr = header; size = page_size };
              left = left_of big;
              right = right_of big;
            })
            t
    header-Double big header s₃ t ((r, left), right) new =
        let same : SameBut mapped header page_size s₃ t =
          Maps-SameBut (λ k. of_file fd (0 + k)) header page_size s₃ t new.maps in
        record {
          left_size = refl;
          right_size = refl;
          adjacent = right_start big s₃ r;
          fits = r.fits;
          header_size = refl;
          left_shows =
              Shows-SameBut fd page_size big queue_size header page_size s₃ t left same
                (Shows-apart fd page_size big queue_size header page_size s₃ left new.was_free);
          right_shows =
              Shows-SameBut fd page_size (big + queue_size) queue_size header page_size s₃ t right
                same
                (Shows-apart fd page_size (big + queue_size) queue_size header page_size s₃ right
                  new.was_free);
          header_shows = Maps-Shows fd 0 header page_size s₃ t new.maps;
          was_free = λ x. free_before (λ k. of_file fd (0 + k)) page_size big header s₃ t r new x;
          others = λ x e. same x (ground (arith, e)) ∙ r.same x (ground (arith, e));
        }

    map_header-Does :
        (big : ℕ) (s₃ : S)
        → Both big s₃
        → Does
            (Double mapped page_size fd queue_size s)
            (Same mapped s)
            (map_header os page_size fd (left_of big) (right_of big) s₃)
    unfolding map_header drop_mmap
    map_header-Does big s₃ both =
        let r = both.0.0 in
        let start = right_start big s₃ r in
        let undo : S → S = λ t. drop_mmap os (left_of big) (drop_mmap os (right_of big) t) in
        let call = os.map_file page_size fd 0 in
        let P : ℕ → S → Type 0 = New mapped (λ k. of_file fd (0 + k)) page_size s₃ in
        >>=-Does P (Same mapped s) (Double mapped page_size fd queue_size s)
          (or_drop undo (try_call call))
          (λ header. gives (record {
            header = record { ptr = header; size = page_size };
            left = left_of big;
            right = right_of big;
          }))
          s₃
          (or_drop-Does P (Same mapped s) undo (Same mapped s₃) (try_call call) s₃
            (try_call-Does P (Same mapped s₃) call s₃ (space.file page_size fd 0 s₃))
            (λ t h.
              undone big (2 * queue_size) s t (undo t) r.was_free (λ x e. h x ∙ r.same x e)
                (λ x. rw start (both_unmapped' big t x))))
          (λ header t new. header-Double big header s₃ t both new)

    -- Over an address space in which `mmap` and `munmap` do what they document, for a queue size that
    -- is a multiple of the page size and fits twice into 64 bits: `from_fd` does not panic; if it
    -- succeeds, it has mapped the bytes of this file behind its first page twice side by side and that
    -- page as the header, where nothing was mapped, and nothing else; if it fails at any of its four
    -- mappings, it leaves mapped what was.
    pub from_fd-Does :
        queue_size % page_size ≡ 0
        → Does
            (Double mapped page_size fd queue_size s)
            (Same mapped s)
            (from_fd os page_size fd queue_size s)
    unfolding from_fd
    from_fd-Does whole =
        let size : queue_size * 2 % 2 ^ 64 ≡ 2 * queue_size = omega (arith, small) in
        let reserve : Call S ℕ = os.map_anonymous (queue_size * 2 % 2 ^ 64) in
        let P : QueueMmaps → S → Type 0 = Double mapped page_size fd queue_size s in
        let F : S → Type 0 = Same mapped s in
        let reserves : CallDoes Reserved F (reserve s) = rw size (
          CallDoes-map (New mapped (λ _. anonymous) (2 * queue_size) s) Reserved F F
            (os.map_anonymous (2 * queue_size) s) (space.anonymous (2 * queue_size) s)
            (λ big t new. record {
              fits = new.fits;
              was_free = new.was_free;
              same = Maps-SameBut (λ _. anonymous) big (2 * queue_size) s t new.maps;
            })
            (λ t h. h)) in
        rw whole (
          >>=-Does Reserved F P (try_call reserve)
            (λ big. map_left os page_size fd queue_size big >>= λ left.
              map_right os page_size fd queue_size big left >>= λ right.
              map_header os page_size fd (left_of big) (right_of big))
            s (try_call-Does Reserved F reserve s reserves)
            (λ big s₁ r₁.
              >>=-Does (λ left t. (left ≡ big) × Left big t) F P
                (map_left os page_size fd queue_size big)
                (λ left. map_right os page_size fd queue_size big left >>= λ right.
                  map_header os page_size fd (left_of big) (right_of big))
                s₁ (map_left-Does big s₁ r₁)
                (λ left s₂ h.
                  >>=-Does (λ right. Both big) F P (map_right os page_size fd queue_size big left)
                    (λ right. map_header os page_size fd (left_of big) (right_of big)) s₂
                    (rw h.0 (map_right-Does big s₂ h.1))
                    (λ right s₃ r₃. map_header-Does big s₃ r₃))))
