-- ===== src/Io.antt =====
-- `io::Error` by the kinds that the crate makes or tests, `Result`, and a call that may stay blocked.
use memequeue.Prelude.{ℕ, Option, none, some, ◌≡◌, ◌≢◌, refl}

pub data IoError : Type 0 where
  other write_zero invalid_input invalid_data would_block addr_in_use : IoError
  os : ℕ → IoError

pub data Result {ℓ κ} (A : Type ℓ) (E : Type κ) : Type (ℓ ⊔ κ) where
  ok : A → Result A E
  err : E → Result A E

-- A call that has not returned is `none`.
infixl 5 ◌>>=◌
abbrev pub ◌>>=◌ {ℓ κ} : {A : Type ℓ} {B : Type κ} → Option A → (A → Option B) → Option B
none >>= f = none
some a >>= f = f a

-- `r?` before the end of a function that returns `res`; `from` is `E::from`.
abbrev pub propagate {ℓ κ μ} :
    {A : Type ℓ} {R : Type κ} {E : Type μ}
    → (IoError → E)
    → Result A IoError
    → Result R E
    → Result R E
propagate from (err e) res = err (from e)
propagate from (ok a) res = res

-- What a call returns satisfies `P`; that it has not returned means `stuck`, which is `⊥` where the call
-- is known to return.
abbrev pub Ends {ℓ κ} : {A : Type ℓ} → Type κ → (A → Type κ) → Option A → Type κ
Ends stuck P none = stuck
Ends stuck P (some a) = P a

abbrev pub IfSome {ℓ κ} : {A : Type ℓ} → (A → Type κ) → Option A → Type κ
IfSome P m = Ends Unit P m

module _ {ℓ κ} {A : Type ℓ} (stuck : Type κ) (P : A → Type κ) where
  pub Ends->>= {μ} :
      {B : Type μ} (Q : B → Type κ) (m : Option A) (f : A → Option B)
      → Ends stuck P m
      → ((a : A) → P a → Ends stuck Q (f a))
      → Ends stuck Q (m >>= f)
  Ends->>= Q none f h k = h
  Ends->>= Q (some a) f h k = k a h

  pub Ends-map :
      (Q : A → Type κ) (m : Option A) → Ends stuck P m → ((a : A) → P a → Q a) → Ends stuck Q m
  Ends-map Q none h k = h
  Ends-map Q (some a) h k = k a h

  -- A call that is known to return.
  pub Ends-of_ne_none : (m : Option A) → IfSome P m → m ≢ none → Ends stuck P m
  Ends-of_ne_none none h ne = absurd (ne refl)
  Ends-of_ne_none (some a) h ne = h

module _ {ℓ} {A : Type ℓ} where
  pub IfSome->>= {κ μ} :
      {B : Type κ} (Q : B → Type μ) (m : Option A) (f : A → Option B)
      → ((a : A) → IfSome Q (f a))
      → IfSome Q (m >>= f)
  IfSome->>= Q none f h = tt
  IfSome->>= Q (some a) f h = h a

  pub returned : (P : A → Type 0) (m : Option A) → Ends ⊥ P m → (a : A) × (m ≡ some a) × P a
  returned P none h = absurd h
  returned P (some a) h = (a, refl, h)
