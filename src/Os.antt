-- ===== src/Os.antt =====
-- Code that makes system calls: what a function of the crate comes to, and the state of the system
-- that its calls leave behind. The calls themselves are parameters of the functions that make them.
use memequeue.Prelude.{◌≡◌, ap, Bool, true, false}
use memequeue.Io.{IoError, Result, ok, err}

-- `Ok`, `Err`, an unwinding panic, or that the call has not returned: its fuel has run out.
pub data Outcome {ℓ} (A : Type ℓ) : Type ℓ where
  value : A → Outcome A
  fails : IoError → Outcome A
  panics : Outcome A
  waits : Outcome A

abbrev pub Call {ℓ} : Type 0 → Type ℓ → Type ℓ
Call S A = S → Result A IoError × S

abbrev pub Act {ℓ} : Type 0 → Type ℓ → Type ℓ
Act S A = S → Outcome A × S

module _ {ℓ} {S : Type 0} {A : Type ℓ} where
  abbrev pub gives : A → Act S A
  gives a s = (value a, s)

  abbrev pub error : IoError → Act S A
  error e s = (fails e, s)

  abbrev pub panic : Act S A
  panic s = (panics, s)

  -- `call?`
  abbrev pub try_call : Call S A → Act S A
  try_call call s = let (r, s') = call s in elim r [ ok a ↦ (value a, s') | err e ↦ (fails e, s') ]

  -- A call whose result is looked at.
  abbrev pub attempt : Call S A → Act S (Result A IoError)
  attempt call s = let (r, s') = call s in (value r, s')

  -- `drop` runs on every way out but `Ok`: the function gives the owned value back only there.
  abbrev pub or_drop : (S → S) → Act S A → Act S A
  or_drop drop act s =
      let (r, s') = act s in
      elim r [
        | value a ↦ (value a, s')
        | fails e ↦ (fails e, drop s')
        | panics ↦ (panics, drop s')
        | waits ↦ (waits, s')
      ]

  -- `drop` runs at the end of a scope, whatever comes of it.
  abbrev pub and_drop : (S → S) → Act S A → Act S A
  and_drop drop act s =
      let (r, s') = act s in elim r [ waits ↦ (waits, s') | other ↦ (other, drop s') ]

infixl 5 ◌>>=◌
abbrev pub ◌>>=◌ {ℓ κ} : {S : Type 0} {A : Type ℓ} {B : Type κ} → Act S A → (A → Act S B) → Act S B
(act >>= next) s =
    let (r, s') = act s in
    elim r [
      | value a ↦ next a s'
      | fails e ↦ (fails e, s')
      | panics ↦ (panics, s')
      | waits ↦ (waits, s')
    ]

-- `err.kind() == ErrorKind::WouldBlock`, and `AddrInUse`
abbrev pub is_would_block : IoError → Bool
is_would_block IoError.would_block = true
is_would_block e = false

abbrev pub is_addr_in_use : IoError → Bool
is_addr_in_use IoError.addr_in_use = true
is_addr_in_use e = false

-- The two parts of what a call is known to do.
module _ {ℓ} {S : Type 0} {A : Type ℓ} {a : A} {s : S} {p : A × S} where
  pub returned_eq : p ≡ (a, s) → p.0 ≡ a
  returned_eq e = ap (λ x. x.0) e

  pub state_eq : p ≡ (a, s) → p.1 ≡ s
  state_eq e = ap (λ x. x.1) e

-- What holds when an action has returned: `P` of its value and the state, or `F` of the state after an
-- error. It neither panics nor waits.
abbrev pub Does {ℓ} :
    {S : Type 0} {A : Type ℓ} → (A → S → Type 0) → (S → Type 0) → Outcome A × S → Type 0
Does P F (value a, s) = P a s
Does P F (fails e, s) = F s
Does P F (panics, s) = ⊥
Does P F (waits, s) = ⊥

abbrev pub CallDoes {ℓ} :
    {S : Type 0} {A : Type ℓ} → (A → S → Type 0) → (S → Type 0) → Result A IoError × S → Type 0
CallDoes P F (ok a, s) = P a s
CallDoes P F (err e, s) = F s

module _ {ℓ} {S : Type 0} {A : Type ℓ} (P : A → S → Type 0) (F : S → Type 0) where
  try_call_result :
      (call : Call S A) (s : S) (d : Result A IoError × S)
      → CallDoes P F d
      → Does P F (try_call (λ _. d) s)
  try_call_result call s (ok a, s') h = h
  try_call_result call s (err e, s') h = h

  pub try_call-Does : (call : Call S A) (s : S) → CallDoes P F (call s) → Does P F (try_call call s)
  try_call-Does call s h = try_call_result call s (call s) h

  or_drop_result :
      (drop : S → S) (F' : S → Type 0) (s : S) (d : Outcome A × S)
      → Does P F' d
      → ((t : S) → F' t → F (drop t))
      → Does P F (or_drop drop (λ _. d) s)
  or_drop_result drop F' s (value a, t) h k = h
  or_drop_result drop F' s (fails e, t) h k = k t h
  or_drop_result drop F' s (panics, t) h k = absurd h
  or_drop_result drop F' s (waits, t) h k = absurd h

  pub or_drop-Does :
      (drop : S → S) (F' : S → Type 0) (act : Act S A) (s : S)
      → Does P F' (act s)
      → ((t : S) → F' t → F (drop t))
      → Does P F (or_drop drop act s)
  or_drop-Does drop F' act s h k = or_drop_result drop F' s (act s) h k

  bind_result {κ} :
      {B : Type κ} (Q : B → S → Type 0) (next : A → Act S B) (s : S) (d : Outcome A × S)
      → Does P F d
      → ((a : A) (t : S) → P a t → Does Q F (next a t))
      → Does Q F (((λ _. d) >>= next) s)
  bind_result Q next s (value a, t) h k = k a t h
  bind_result Q next s (fails e, t) h k = h
  bind_result Q next s (panics, t) h k = absurd h
  bind_result Q next s (waits, t) h k = absurd h

  pub >>=-Does {κ} :
      {B : Type κ} (Q : B → S → Type 0) (act : Act S A) (next : A → Act S B) (s : S)
      → Does P F (act s)
      → ((a : A) (t : S) → P a t → Does Q F (next a t))
      → Does Q F ((act >>= next) s)
  >>=-Does Q act next s h k = bind_result Q next s (act s) h k

pub CallDoes-map {ℓ} :
    {S : Type 0} {A : Type ℓ} (P Q : A → S → Type 0) (F G : S → Type 0) (d : Result A IoError × S)
    → CallDoes P F d
    → ((a : A) (t : S) → P a t → Q a t)
    → ((t : S) → F t → G t)
    → CallDoes Q G d
CallDoes-map P Q F G (ok a, t) h p f = p a t h
CallDoes-map P Q F G (err e, t) h p f = f t h

pub Does-map {ℓ} :
    {S : Type 0} {A : Type ℓ} (P Q : A → S → Type 0) (F G : S → Type 0) (d : Outcome A × S)
    → Does P F d
    → ((a : A) (t : S) → P a t → Q a t)
    → ((t : S) → F t → G t)
    → Does Q G d
Does-map P Q F G (value a, t) h p f = p a t h
Does-map P Q F G (fails e, t) h p f = f t h
Does-map P Q F G (panics, t) h p f = h
Does-map P Q F G (waits, t) h p f = h
