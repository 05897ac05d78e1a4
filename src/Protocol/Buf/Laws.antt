-- ===== src/Protocol/Buf/Laws.antt =====
-- A `BufWrapper` whose position lies inside its buffer never panics.
use kaze.Base.{
  ℕ, ◌≤◌, ◌≡◌, arith, List, if◌then◌else◌, leb, length, length-drop, drop, drop-drop, Outcome, ok,
  ap, sym, true,
}
use kaze.Protocol.Buf.{BufWrapper, remaining, chunk, advance}

abbrev pub InRange : BufWrapper → Type 0
InRange w = w.pos ≤ length w.inner

-- The bytes that are still to be read.
abbrev pub unread : BufWrapper → List ℕ
unread w = drop w.pos w.inner

leb-true : (a b : ℕ) → a ≤ b → leb a b ≡ true
leb-true a b h = ground arith

module _ {E : Type 0} where
  pub chunk_lem : (w : BufWrapper) → InRange w → chunk {E = E} w ≡ ok (unread w)
  unfolding chunk
  chunk_lem w h = ap (λ t. if t then ok (unread w) else Outcome.panic) (leb-true _ _ h)

  pub remaining_lem : (w : BufWrapper) → InRange w → remaining {E = E} w ≡ ok (length (unread w))
  unfolding remaining
  remaining_lem w h = rw (leb-true _ _ h) (ap ok (omega (arith, length-drop w.pos w.inner)))

pub advance-InRange :
    (w : BufWrapper) (n : ℕ) → n ≤ length (unread w) → InRange w → InRange (advance w n)
advance-InRange w n h r = omega (arith, length-drop w.pos w.inner)

pub unread-advance : (w : BufWrapper) (n : ℕ) → unread (advance w n) ≡ drop n (unread w)
unread-advance w n = sym (drop-drop n w.pos w.inner)
