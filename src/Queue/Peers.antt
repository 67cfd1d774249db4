-- ===== src/Queue/Peers.antt =====
-- A peer of a sender that takes messages as the branch of `recv` of src/lib.rs does that has one.
use memequeue.Prelude.{
  ℕ, ◌+◌, ◌<◌, ◌≡◌, List, [], ◌∷◌, arith, ltb, lt→ltb, if◌then◌else◌, length, add32, as_u32,
  word_size, false, ap, ◌∙◌,
}
use memequeue.Io.{IoError, Result}
use memequeue.Control.{Side, commit_offset}
use memequeue.Process.{World, Peer, with_header, interfere, unlock, notify}
use memequeue.Process.Stable.{SameQueue, SameQueue-trans, notify_keeps, unlock-SameQueue}
use memequeue.Queue.Types.{MemeQueue}
use memequeue.Queue.Frames.{Message}
use memequeue.Queue.Inv.{IsMapped, Holds, Holds-SameQueue, IsReceiver, FreesLeft}
use memequeue.Queue.Recv.{message_at, take_message}
use memequeue.Queue.Recv.Refine.{message_at_lem}

abbrev pub idle : Peer
idle w = w

module _ (q : MemeQueue) {R E : Type 0} (from : IoError → E) (cb : Message → Result R E) where
  -- The receiver takes one message if there is one, and lets the left lock go.
  unfoldable pub receiving : Peer
  receiving w =
      if ltb w.header.left.offset w.header.right.offset
      then (take_message q idle from cb w.header.left.offset w).1
      else unlock Side.left w

  -- The left offset past the message at it.
  abbrev past : World → ℕ
  past w =
      add32 (add32 w.header.left.offset word_size)
        (as_u32 (length (message_at q w.header.left.offset w)))

  take_message-SameQueue :
      (w : World)
      → SameQueue
          (with_header (commit_offset Side.left (past w)) w)
          (take_message q idle from cb w.header.left.offset w).1
  unfolding take_message
  take_message-SameQueue w =
      let w₁ : World = with_header (commit_offset Side.left (past w)) w in
      let w₂ : World = unlock Side.left w₁ in
      (notify_keeps idle (SameQueue w₁) (λ w w' s t. SameQueue-trans w₁ w w' t s)
        (λ w t. unfold interfere in ground arith) Side.left w₂ (unlock-SameQueue Side.left w₁)).1

  -- A message that is there is taken.
  record TookFirst (w w' : World) (x : Message) (xs : List Message) : Type 0 where
    holds : Holds q w' xs
    same_bytes : w'.bytes ≡ w.bytes
    same_right : w'.header.right.offset ≡ w.header.right.offset
    past_it : w'.header.left.offset ≡ w.header.left.offset + word_size + length x

  receiving-TookFirst :
      IsMapped q
      → (w : World) (x : Message) (xs : List Message) → Holds q w (x ∷ xs)
      → TookFirst w (receiving w) x xs
  unfolding receiving commit_offset
  receiving-TookFirst mapped w x xs h =
      let (slice, le) = message_at_lem q mapped w x xs h in
      let lt : w.header.left.offset < w.header.right.offset = omega (arith, le) in
      let w₁ : World = with_header (commit_offset Side.left (past w)) w in
      let w' : World = (take_message q idle from cb w.header.left.offset w).1 in
      let next : past w ≡ w.header.left.offset + word_size + length x =
        ap (λ l. add32 (add32 w.header.left.offset word_size) (as_u32 (length {A = ℕ} l))) slice
        ∙ omega (arith, le, h.header, mapped) in
      let s = take_message-SameQueue w in
      let h₁ : Holds q w₁ xs = record {
        frames = rw next h.frames.2;
        header = ground (arith, h.header, le, next);
      } in
      rw (lt→ltb _ _ lt) (record {
        holds = Holds-SameQueue q w₁ w' xs s h₁;
        same_bytes = s.bytes;
        same_right = s.right_offset;
        past_it = s.left_offset ∙ next;
      })

  -- It takes some of the first messages, and neither changes the bytes nor the right offset.
  pub receiving-IsReceiver : IsMapped q → IsReceiver q receiving
  unfolding receiving
  receiving-IsReceiver mapped w [] h =
      let none_there : ltb w.header.left.offset w.header.right.offset ≡ false =
        ground (arith, h.frames) in
      let s = unlock-SameQueue Side.left w in
      rw none_there (record {
        taken = 0;
        holds = Holds-SameQueue q w (unlock Side.left w) [] s h;
        same_bytes = s.bytes;
        same_right = s.right_offset;
        left_grows = omega (arith, s.left_offset);
      })
  receiving-IsReceiver mapped w (x ∷ xs) h =
      let t = receiving-TookFirst mapped w x xs h in
      record {
        taken = 1;
        holds = t.holds;
        same_bytes = t.same_bytes;
        same_right = t.same_right;
        left_grows = omega (arith, t.past_it);
      }

  pub receiving-FreesLeft : FreesLeft receiving
  unfolding receiving take_message unlock notify interfere commit_offset
  receiving-FreesLeft w = ground arith
