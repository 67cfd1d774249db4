-- ===== src/Handshake/NamedFile.antt =====
-- src/handshake/named_file.rs: the first process to lock the file makes the queue, the others join it.
use memequeue.Prelude.{
  ℕ, ◌+◌, ◌*◌, ◌∙◌, ◌%◌, ◌^◌, ◌<◌, ◌≡◌, Bool, true, false, arith, add64, if◌then◌else◌,
}
use memequeue.Io.{IoError, Result, ok, err}
use memequeue.Os.{
  value, Call, Act, gives, error, try_call, attempt, or_drop, ◌>>=◌, is_would_block, returned_eq,
  state_eq,
}
use memequeue.Handshake.{
  HandshakeResult, with_self, next_multiple_of, next_multiple_of_lem, size_from_len,
  size_from_len_lem,
}

-- The operations of `flock` that the source uses.
pub data Flock : Type 0 where
  lock_ex_nb lock_sh lock_un : Flock

-- The system calls on the queue's file, by descriptor.
pub record Files (S : Type 0) : Type 0 where
  pub open_file : Call S ℕ
  pub flock : ℕ → Flock → Call S (Unit {0})
  pub set_len : ℕ → ℕ → Call S (Unit {0})
  pub len : ℕ → Call S ℕ
  pub close : ℕ → S → S

-- `NamedFileHandshakeResult`
pub record NamedFile : Type 0 where
  pub file : ℕ
  pub owner : Bool
  pub queue_size : ℕ

module _ {S : Type 0} (os : Files S) (page_size : ℕ) where
  -- The branches of `named_file` behind the first `flock`.
  unfoldable pub make_queue : ℕ → ℕ → Act S NamedFile
  make_queue file queue_size = try_call (os.set_len file (add64 page_size queue_size)) >>= λ _.
      gives (record { file = file; owner = true; queue_size = queue_size })

  unfoldable pub join_queue : ℕ → Act S NamedFile
  unfolding size_from_len
  join_queue file = try_call (os.flock file Flock.lock_sh) >>= λ _.
      try_call (os.len file) >>= λ len. size_from_len page_size len >>= λ queue_size.
      gives (record { file = file; owner = false; queue_size = queue_size })

  abbrev pub behind_flock : ℕ → ℕ → Result (Unit {0}) IoError → Act S NamedFile
  behind_flock file queue_size (ok _) = make_queue file queue_size
  behind_flock file queue_size (err e) = if is_would_block e then join_queue file else error e

  unfoldable pub named_file : ℕ → Act S NamedFile
  unfolding next_multiple_of make_queue join_queue
  named_file n = try_call os.open_file >>= λ file. or_drop (os.close file) (
      attempt (os.flock file Flock.lock_ex_nb) >>= behind_flock file (next_multiple_of n page_size))

  -- `mark_ready`: the owner's lock becomes shared.
  unfoldable pub mark_ready : NamedFile → Act S (Unit {0})
  mark_ready r = if r.owner then try_call (os.flock r.file Flock.lock_sh) else gives tt

  -- `drop` of the result, whose file is closed behind it.
  unfoldable pub drop_named_file : NamedFile → S → S
  drop_named_file r s = os.close r.file (os.flock r.file Flock.lock_un s).1

  abbrev pub named_file_result : HandshakeResult NamedFile S
  named_file_result = record {
    shmem_fd = λ r. r.file;
    is_owner = λ r. r.owner;
    queue_size = λ r. r.queue_size;
    mark_ready = λ (r, s). with_self r (mark_ready r s);
    drop = drop_named_file;
  }

-- The length of the queue's file, which `ftruncate` sets and `fstat` reads.
pub record IsFile {S : Type 0} (os : Files S) (length_of : S → ℕ) : Type 0 where
  pub sets : (file n : ℕ) (s s' : S) → os.set_len file n s ≡ (ok tt, s') → length_of s' ≡ n
  pub reads : (file n : ℕ) (s s' : S) → os.len file s ≡ (ok n, s') → n ≡ length_of s

-- The calls that a process makes which finds the file unlocked, and what state each leaves.
pub record Makes {S : Type 0} (os : Files S) (file len : ℕ) (s s' : S) : Type 0 where
  pub opened : S
  pub locked : S
  pub opens : os.open_file s ≡ (ok file, opened)
  pub locks : os.flock file Flock.lock_ex_nb opened ≡ (ok tt, locked)
  pub sizes : os.set_len file len locked ≡ (ok tt, s')

-- The calls of a process that finds it locked and gets the lock when the owner shares it.
pub record Joins {S : Type 0} (os : Files S) (file len : ℕ) (s shared s' : S) : Type 0 where
  pub opened : S
  pub refused : S
  pub opens : os.open_file s ≡ (ok file, opened)
  pub blocks : os.flock file Flock.lock_ex_nb opened ≡ (err IoError.would_block, refused)
  pub shares : os.flock file Flock.lock_sh refused ≡ (ok tt, shared)
  pub reads : os.len file shared ≡ (ok len, s')

module _ {S : Type 0} (os : Files S) (page_size : ℕ) (positive : 0 < page_size) where
  -- The owner asks for `n` bytes and gets whole pages.
  named_file-Makes :
      (file n : ℕ) (s s' : S)
      → n + 2 * page_size < 2 ^ 64
      → Makes os file (page_size + next_multiple_of n page_size) s s'
      → named_file os page_size n s ≡ (
        value (record { file = file; owner = true; queue_size = next_multiple_of n page_size }),
        s',
      )
  unfolding named_file make_queue
  named_file-Makes file n s s' small c =
      let (_, _, bound) = next_multiple_of_lem n page_size positive (omega arith) in
      let no_wrap : add64 page_size (next_multiple_of n page_size)
          ≡ page_size + next_multiple_of n page_size =
        omega (arith, bound) in
      simp (
        named_file,
        make_queue,
        try_call,
        attempt,
        or_drop,
        ◌>>=◌,
        returned_eq c.opens,
        state_eq c.opens,
        returned_eq c.locks,
        state_eq c.locks,
        no_wrap,
        returned_eq c.sizes,
        state_eq c.sizes,
      )

  -- A joiner finds the size in the file, whatever it asks for.
  named_file-Joins :
      (file m size : ℕ) (s shared s' : S)
      → size % page_size ≡ 0
      → Joins os file (page_size + size) s shared s'
      → named_file os page_size m s
        ≡ (value (record { file = file; owner = false; queue_size = size }), s')
  unfolding named_file join_queue
  named_file-Joins file m size s shared s' whole c =
      let found = size_from_len_lem page_size size s' whole in
      simp (
        named_file,
        join_queue,
        try_call,
        attempt,
        or_drop,
        ◌>>=◌,
        returned_eq c.opens,
        state_eq c.opens,
        returned_eq c.blocks,
        state_eq c.blocks,
        returned_eq c.shares,
        state_eq c.shares,
        returned_eq c.reads,
        state_eq c.reads,
        returned_eq found,
        state_eq found,
      )

  -- If a process that asks for `n` bytes finds the file unlocked and sets its length, and another one
  -- then finds it locked, gets the shared lock and reads the length while it is what the first one set,
  -- then `named_file` makes the first the owner, and both get the same size: the next multiple of the
  -- page size from `n`, whatever the second asked for. That `n` and two pages fit 64 bits is assumed.
  pub sizes_agree :
      (length_of : S → ℕ)
      → IsFile os length_of
      → (file file' n m len : ℕ) (s s' t shared t' : S) → n + 2 * page_size < 2 ^ 64
      → Makes os file (page_size + next_multiple_of n page_size) s s'
      → Joins os file' len t shared t'
      → length_of shared ≡ length_of s'
      → let size = next_multiple_of n page_size in
        (named_file os page_size n s
          ≡ (value (record { file = file; owner = true; queue_size = size }), s'))
        × (named_file os page_size m t
            ≡ (value (record { file = file'; owner = false; queue_size = size }), t'))
  sizes_agree length_of is file file' n m len s s' t shared t' small makes joins same =
      let size = next_multiple_of n page_size in
      let (whole, _, _) = next_multiple_of_lem n page_size positive (omega arith) in
      let same_len : len ≡ page_size + size =
        is.reads file' len shared t' joins.reads
        ∙ same
        ∙ is.sets file (page_size + size) makes.locked s' makes.sizes in
      let joins' : Joins os file' (page_size + size) t shared t' = rw same_len at joins in
      (
        named_file-Makes file n s s' small makes,
        named_file-Joins file' m size t shared t' whole joins',
      )
