-- ===== src/Queue/Corners.antt =====
-- Corners of src/lib.rs where the code does not do what it means to: a wake-up that is lost, a message
-- that the receiver's assertion refuses, and a ring too large for its offsets.
use memequeue.Prelude.{
  ℕ, zero, suc, ◌+◌, ◌-◌, ◌*◌, ◌<◌, ◌≡◌, ◌↔◌, refl, ◌∙◌, List, [], ◌∷◌, Bool, true, arith, length,
  ltb, word_size,
}
use memequeue.Io.{err}
use memequeue.Control.{Side, load_offset}
use memequeue.Process.{World, interfere, spin}
use memequeue.Queue.Types.{MemeQueue}
use memequeue.Queue.Frames.{Message, Frames}
use memequeue.Queue.Inv.{IsMapped, Holds}
use memequeue.Queue.Writer.{space_left}
use memequeue.Queue.Writer.Steps.{space_left_lem}
use memequeue.Queue.Peers.{idle}

-- The bytes that the messages take in the ring.
unfoldable pub framed : List Message → ℕ
framed [] = 0
framed (x ∷ xs) = word_size + length x + framed xs

pub Frames-framed :
    (size : ℕ) (m : ℕ → ℕ) (o r : ℕ) (xs : List Message) → Frames size m o r xs → o + framed xs ≡ r
unfolding framed
Frames-framed size m o r [] f = omega arith
Frames-framed size m o r (x ∷ xs) f =
    omega (arith, Frames-framed size m (o + word_size + length x) r xs f.2)

-- With nobody else at work, `wait` spins in vain while the offset is the expected one.
spin_in_vain :
    (n : ℕ) (side : Side) (expected : ℕ) (w : World)
    → load_offset side w.header ≡ expected
    → (w' : World) × (spin idle n side expected w ≡ err w')
unfolding spin interfere load_offset
spin_in_vain zero side expected w e = (w, refl)
spin_in_vain (suc n) side expected w e =
    let (w', f) = spin_in_vain n side expected (interfere idle w) e in (w', ground (arith, e, f))

module _ (q : MemeQueue) (mapped : IsMapped q) where
  -- The queue was empty with its left offset inside the mappings, and is now full with the left offset
  -- one round further down. Then the right offset is what it was: a receiver that saw the empty queue
  -- and now waits for it to change spins in vain, however long; and a sender finds no room, with the
  -- left offset too low to move all down.
  pub lost_wakeup :
      (w w' : World) (xs : List Message) (n : ℕ)
      → Holds q w []
      → Holds q w' xs
      → w.header.left.offset < 2 * q.left.size
      → framed xs ≡ q.left.size
      → w'.header.left.offset + q.left.size ≡ w.header.left.offset
      → (load_offset Side.right w'.header ≡ load_offset Side.right w.header)
        × ((w'' : World) × (spin idle n Side.right (load_offset Side.right w.header) w' ≡ err w''))
        × (space_left q w'.header.left.offset w'.header.right.offset ≡ 0)
        × (w'.header.left.offset < q.left.size)
  unfolding load_offset
  lost_wakeup w w' xs n h h' inside full down =
      let e =
        Frames-framed q.left.size w'.bytes w'.header.left.offset w'.header.right.offset xs
          h'.frames in
      let same : w'.header.right.offset ≡ w.header.right.offset = omega (arith, e, h.frames) in
      (
        same,
        spin_in_vain n Side.right w.header.right.offset w' same,
        space_left_lem q mapped w'.header.left.offset w'.header.right.offset
              (omega (arith, h'.header)) (omega (arith, h'.header)) (omega (arith, h'.header))
            ∙ omega (arith, e, h'.header),
        omega arith,
      )

-- The `debug_assert!` of `recv`.
unfoldable pub more_than_size : ℕ → ℕ → Bool
more_than_size left_offset right_offset = ltb word_size (right_offset - left_offset)

-- With one message in the queue the assertion of `recv` holds exactly if the message is not empty.
pub more_than_size_iff :
    (q : MemeQueue) (w : World) (x : Message)
    → Holds q w (x ∷ [])
    → (more_than_size w.header.left.offset w.header.right.offset ≡ true) ↔ (0 < length x)
unfolding more_than_size
more_than_size_iff q w x h =
    let e : w.header.left.offset + word_size + length x ≡ w.header.right.offset = h.frames.2 in
    (λ t. ground (arith, e, t), λ lt. ground (arith, e, lt))
