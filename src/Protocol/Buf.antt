-- ===== src/Protocol/Buf.antt =====
-- crates/kaze-protocol/src/codec.rs: `BufWrapper`, a buffer with a read position.
pub mod Laws
use kaze.Base.{
  ℕ, ◌+◌, ◌-◌, ◌≤◌, ◌≡◌, arith, List, Bool, true, false, if◌then◌else◌, leb, length, drop, Outcome,
  ok, err, panic, [],
}
use kaze.Extern.Bytes.{BytesCrate}

pub record BufWrapper : Type 0 where
  pub inner : List ℕ
  pub pos : ℕ

abbrev pub new : List ℕ → BufWrapper
new inner = record { inner = inner; pos = 0 }

abbrev pub rewind : BufWrapper → BufWrapper
rewind w = record w { pos = 0 }

abbrev pub clear : BufWrapper → BufWrapper
clear w = record { inner = []; pos = 0 }

-- `self.inner.as_ref().len() - self.pos`: the subtraction panics below zero.
unfoldable pub remaining : {E : Type 0} → BufWrapper → Outcome E ℕ
remaining w = if leb w.pos (length w.inner) then ok (length w.inner - w.pos) else panic

-- `&self.inner.as_ref()[self.pos..]` (also `as_ref`): slicing panics past the end.
unfoldable pub chunk : {E : Type 0} → BufWrapper → Outcome E (List ℕ)
chunk w = if leb w.pos (length w.inner) then ok (drop w.pos w.inner) else panic

-- Moves the position, unchecked.
abbrev pub advance : BufWrapper → ℕ → BufWrapper
advance w n = record w { pos = w.pos + n }
