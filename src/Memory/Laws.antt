-- ===== src/Memory/Laws.antt =====
-- What a read through the mirrored mappings of Memory.antt sees after a write.
use memequeue.Prelude.{
  ℕ, zero, suc, ◌+◌, ◌-◌, ◌%◌, ◌≤◌, ◌<◌, ◌≡◌, ◌≢◌, refl, sym, ap, ap₂, ◌∙◌, List, [], ◌∷◌, ◌++◌,
  arith, length, length-append, drop, drop-append, dec_lt,
}
use native.Mathlib.Nat.{
  add-zero, zero-add, add-mod_right, mod-add-mod, mod-eq_of_lt, mod-eq-sub-mod, mod-lt,
}
use memequeue.Memory.{Bytes, update, load, store}

-- Two offsets less than `size` apart are different bytes of the file.
pub mod-ne : (size a b : ℕ) → a < b → b < a + size → a % size ≢ b % size
mod-ne size a b h k e = elim (dec_lt (a % size + (b - a)) size) [
  | yes p ↦ omega (arith, step, mod-eq_of_lt p)
  | no p ↦ omega (
    arith,
    step,
    mod-eq-sub-mod {n = a % size + (b - a)} {m = size} (omega arith),
    mod-eq_of_lt {n = a % size + (b - a) - size} {m = size} (omega (arith, mod-lt a {m = size})),
  )
]
  where
    step : b % size ≡ (a % size + (b - a)) % size
    step = ap (λ k. k % size) (omega arith) ∙ sym (mod-add-mod a size (b - a))

module _ (size : ℕ) where
  pub length-load : (m : Bytes) (o n : ℕ) → length (load size m o n) ≡ n
  unfolding load
  length-load m o zero = refl
  length-load m o (suc n) = ap suc (length-load m (o + 1) n)

  pub load-add :
      (m : Bytes) (o a b : ℕ) → load size m o (a + b) ≡ load size m o a ++ load size m (o + a) b
  unfolding load
  load-add m o zero b = rw (zero-add, add-zero)
  load-add m o (suc a) b =
      let e : suc a + b ≡ suc (a + b) = omega arith in
      let e' : o + suc a ≡ o + 1 + a = omega arith in
      rw (e, e') (ap (λ l. m (o % size) ∷ l) (load-add m (o + 1) a b))

  -- `right` mirrors `left`.
  pub load-mirror : (m : Bytes) (o n : ℕ) → load size m (o + size) n ≡ load size m o n
  unfolding load
  load-mirror m o zero = refl
  load-mirror m o (suc n) =
      let e : o + size + 1 ≡ o + 1 + size = omega arith in
      rw (e, add-mod_right) (ap (λ l. m (o % size) ∷ l) (load-mirror m (o + 1) n))

  -- A write leaves a byte alone that none of its offsets reaches.
  store_outside :
      (m : Bytes) (o : ℕ) (bs : List ℕ) (i : ℕ)
      → ((j : ℕ) → j < length bs → (o + j) % size ≢ i)
      → store size m o bs i ≡ m i
  unfolding store
  store_outside m o [] i h = refl
  store_outside m o (b ∷ bs) i h =
      store_outside (update m (o % size) b) (o + 1) bs i
        (λ j lt e. h (suc j) (omega arith) (ap (λ k. k % size) (omega arith) ∙ e))
      ∙ ground (arith, h 0, add-zero o)

  -- A read of `[p, p + n)` does not see a write of `[o, o + length bs)`, where the ranges are disjoint
  -- and lie within `size` of each other.
  pub load-store_below :
      (m : Bytes) (p n o : ℕ) (bs : List ℕ)
      → p + n ≤ o
      → o + length bs ≤ p + size
      → load size (store size m o bs) p n ≡ load size m p n
  unfolding load
  load-store_below m p zero o bs h k = refl
  load-store_below m p (suc n) o bs h k =
      ap₂ ◌∷◌
        (store_outside m o bs (p % size)
          (λ j lt e. mod-ne size p (o + j) (omega arith) (omega arith) (sym e)))
        (load-store_below m (p + 1) n o bs (omega arith) (omega arith))

  -- So for a read above the write.
  pub load-store_above :
      (m : Bytes) (p n o : ℕ) (bs : List ℕ)
      → o + length bs ≤ p
      → p + n ≤ o + size
      → load size (store size m o bs) p n ≡ load size m p n
  unfolding load
  load-store_above m p zero o bs h k = refl
  load-store_above m p (suc n) o bs h k =
      ap₂ ◌∷◌
        (store_outside m o bs (p % size)
          (λ j lt. mod-ne size (o + j) p (omega arith) (omega arith)))
        (load-store_above m (p + 1) n o bs (omega arith) (omega arith))

  -- What was written is read back, if it fits the file.
  pub load-store :
      (m : Bytes) (o : ℕ) (bs : List ℕ)
      → length bs ≤ size
      → load size (store size m o bs) o (length bs) ≡ bs
  unfolding load store
  load-store m o [] h = refl
  load-store m o (b ∷ bs) h =
      ap₂ ◌∷◌
        (store_outside (update m (o % size) b) (o + 1) bs (o % size)
            (λ j lt e. mod-ne size o (o + 1 + j) (omega arith) (omega arith) (sym e))
          ∙ ground arith)
        (load-store (update m (o % size) b) (o + 1) bs (omega arith))

  -- What is written behind `pre` is read behind it.
  pub load-store_behind :
      (m : Bytes) (o : ℕ) (pre bs : List ℕ)
      → load size m o (length pre) ≡ pre
      → length pre + length bs ≤ size
      → load size (store size m (o + length pre) bs) o (length (pre ++ bs)) ≡ pre ++ bs
  load-store_behind m o pre bs e h =
      rw (length-append, load-add)
        (ap₂ ◌++◌
          (load-store_below m o (length pre) (o + length pre) bs (omega arith) (omega arith) ∙ e)
          (load-store m (o + length pre) bs (omega arith)))

  -- The second part of what a read has found is found behind the first.
  pub load-behind :
      (m : Bytes) (o : ℕ) (pre bs : List ℕ)
      → load size m o (length (pre ++ bs)) ≡ pre ++ bs
      → load size m (o + length pre) (length bs) ≡ bs
  load-behind m o pre bs e =
      let first : List ℕ = load size m o (length pre) in
      let second : List ℕ = load size m (o + length pre) (length bs) in
      let split : first ++ second ≡ pre ++ bs = rw (length-append, load-add) at e in
      sym (drop-append first second)
      ∙ ap (drop (length first)) split
      ∙ rw (length-load m o (length pre)) (drop-append pre bs)
