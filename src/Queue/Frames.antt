-- ===== src/Queue/Frames.antt =====
-- Messages in the ring: each is its length as a `usize`, then its bytes.
use memequeue.Prelude.{
  ℕ, ◌+◌, ◌≤◌, ◌≡◌, refl, ◌∙◌, List, [], ◌∷◌, ◌++◌, arith, length, word_size, le_bytes,
}
use memequeue.Memory.{Bytes, load, store}
use memequeue.Memory.Laws.{load-mirror, load-store_below}

abbrev pub Message : Type 0
Message = List ℕ

module _ (size : ℕ) where
  -- `[o, r)` holds the messages, one behind the other.
  abbrev pub Frames : Bytes → ℕ → ℕ → List Message → Type 0
  Frames m o r [] = o ≡ r
  Frames m o r (x ∷ xs) =
      (load size m o word_size ≡ le_bytes word_size (length x))
      × (load size m (o + word_size) (length x) ≡ x)
      × Frames m (o + word_size + length x) r xs

  pub Frames-le : (m : Bytes) (o r : ℕ) (xs : List Message) → Frames m o r xs → o ≤ r
  Frames-le m o r [] f = omega arith
  Frames-le m o r (x ∷ xs) f = omega (arith, Frames-le m (o + word_size + length x) r xs f.2)

  -- A message that is written behind the last one joins the queue.
  pub Frames-snoc :
      (m : Bytes) (o r : ℕ) (xs : List Message) (x : Message)
      → Frames m o r xs
      → load size m r word_size ≡ le_bytes word_size (length x)
      → load size m (r + word_size) (length x) ≡ x
      → Frames m o (r + word_size + length x) (xs ++ x ∷ [])
  Frames-snoc m o r [] x f h b = rw f (h, b, refl)
  Frames-snoc m o r (y ∷ xs) x f h b =
      (f.0, f.1, Frames-snoc m (o + word_size + length y) r xs x f.2 h b)

  -- A write behind the last message, less than a round away from the first, leaves them all alone.
  pub Frames-store :
      (m : Bytes) (o r : ℕ) (xs : List Message) (p : ℕ) (bs : List ℕ)
      → Frames m o r xs
      → r ≤ p
      → p + length bs ≤ o + size
      → Frames (store size m p bs) o r xs
  Frames-store m o r [] p bs f h k = f
  Frames-store m o r (x ∷ xs) p bs f h k =
      let le : o + word_size + length x ≤ r = Frames-le m (o + word_size + length x) r xs f.2 in
      (
        load-store_below size m o word_size p bs (omega arith) (omega arith) ∙ f.0,
        load-store_below size m (o + word_size) (length x) p bs (omega arith) (omega arith) ∙ f.1,
        Frames-store m (o + word_size + length x) r xs p bs f.2 h (omega arith),
      )

  -- The same messages are seen one round lower.
  pub Frames-mirror :
      (m : Bytes) (o r : ℕ) (xs : List Message)
      → Frames m (o + size) (r + size) xs
      → Frames m o r xs
  Frames-mirror m o r [] f = omega arith
  Frames-mirror m o r (x ∷ xs) f =
      let e : o + size + word_size ≡ o + word_size + size = omega arith in
      let e' : o + size + word_size + length x ≡ o + word_size + length x + size = omega arith in
      (
        rw load-mirror at f.0,
        rw (e, load-mirror) at f.1,
        Frames-mirror m (o + word_size + length x) r xs (rw e' at f.2),
      )
