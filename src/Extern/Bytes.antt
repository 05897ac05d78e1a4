-- ===== src/Extern/Bytes.antt =====
-- The `bytes` crate. A `BytesMut`, a `&[u8]` and the unread part of any contiguous `Buf` are lists
-- of byte values; growing a `BytesMut` (`reserve`) does not show.
use kaze.Base.{
  All, ap, sym, ℕ, ◌+◌, ◌*◌, ◌/◌, ◌%◌, ◌^◌, ◌≤◌, ◌<◌, ◌≡◌, arith, List, [], ◌∷◌, ◌++◌, Option, none,
  some, length, take, drop,
}

abbrev pub u32_mod : ℕ
u32_mod = 2 ^ 32

-- `u32::to_le_bytes` and `u32::from_le_bytes` of the standard library.
unfoldable pub to_le_bytes : ℕ → List ℕ
to_le_bytes n = n % 256 ∷ n / 2 ^ 8 % 256 ∷ n / 2 ^ 16 % 256 ∷ n / 2 ^ 24 % 256 ∷ []

unfoldable pub from_le_bytes : ℕ → ℕ → ℕ → ℕ → ℕ
from_le_bytes a b c d = a + b * 2 ^ 8 + c * 2 ^ 16 + d * 2 ^ 24

-- `none` is the panic that the crate documents.
pub record BytesCrate : Type 0 where
  -- What `Buf::get_u32_le` reads off the front of the unread bytes.
  pub get_u32_le : List ℕ → Option ℕ
  -- `BufMut::put_u32_le` and `BufMut::put`/`put_slice` on a `BytesMut`.
  pub put_u32_le : List ℕ → ℕ → List ℕ
  pub put : List ℕ → List ℕ → List ℕ
  -- `Buf::advance` on a `BytesMut` or a `&[u8]`: what is left.
  pub advance : List ℕ → ℕ → Option (List ℕ)
  -- `BytesMut::split_to`: the front that is returned, and what stays.
  pub split_to : List ℕ → ℕ → Option (List ℕ × List ℕ)
  -- The unread bytes of `buf.take(n)`.
  pub take_buf : List ℕ → ℕ → List ℕ
  pub get_u32_le_short : (bs : List ℕ) → length bs < 4 → get_u32_le bs ≡ none
  pub get_u32_le_long :
      (a b c d : ℕ) (bs : List ℕ) → get_u32_le (a ∷ b ∷ c ∷ d ∷ bs) ≡ some (from_le_bytes a b c d)
  pub put_u32_le_lem : (bs : List ℕ) (n : ℕ) → put_u32_le bs n ≡ bs ++ to_le_bytes n
  pub put_lem : (bs src : List ℕ) → put bs src ≡ bs ++ src
  pub advance_within : (bs : List ℕ) (n : ℕ) → n ≤ length bs → advance bs n ≡ some (drop n bs)
  pub advance_beyond : (bs : List ℕ) (n : ℕ) → length bs < n → advance bs n ≡ none
  pub split_to_within :
      (bs : List ℕ) (n : ℕ) → n ≤ length bs → split_to bs n ≡ some (take n bs, drop n bs)
  pub split_to_beyond : (bs : List ℕ) (n : ℕ) → length bs < n → split_to bs n ≡ none
  pub take_buf_lem : (bs : List ℕ) (n : ℕ) → take_buf bs n ≡ take n bs

pub length-to_le_bytes : (n : ℕ) → length (to_le_bytes n) ≡ 4
unfolding to_le_bytes
length-to_le_bytes n = omega arith

module _ (B : BytesCrate) where
  -- A `u32` that is written is read back, whatever follows it; wider numbers are cut to 32 bits.
  pub get-to_le_bytes :
      (n : ℕ) (rest : List ℕ) → B.get_u32_le (to_le_bytes n ++ rest) ≡ some (n % u32_mod)
  unfolding to_le_bytes from_le_bytes
  get-to_le_bytes n rest = ground (
    arith,
    B.get_u32_le_long (n % 256) (n / 2 ^ 8 % 256) (n / 2 ^ 16 % 256) (n / 2 ^ 24 % 256) rest,
  )

abbrev pub IsByte : ℕ → Type 0
IsByte b = b < 256

-- Bytes that are read as a `u32` are what that number is written as.
pub to-from_le_bytes :
    (a b c d : ℕ)
    → IsByte a
    → IsByte b
    → IsByte c
    → IsByte d
    → (to_le_bytes (from_le_bytes a b c d) ≡ a ∷ b ∷ c ∷ d ∷ []) × (from_le_bytes a b c d < u32_mod)
unfolding to_le_bytes from_le_bytes
to-from_le_bytes a b c d ha hb hc hd = (ground arith, omega arith)

module _ (B : BytesCrate) where
  -- Four bytes are a number, which is written as them.
  pub get_u32_le_cases :
      (bs : List ℕ)
      → All IsByte bs
      → 4 ≤ length bs
      → (n : ℕ) × (rest : List ℕ) × (B.get_u32_le bs ≡ some n)
        × (bs ≡ to_le_bytes n ++ rest)
        × (n < u32_mod)
  get_u32_le_cases [] h le = absurd (omega arith)
  get_u32_le_cases (a ∷ []) h le = absurd (omega arith)
  get_u32_le_cases (a ∷ b ∷ []) h le = absurd (omega arith)
  get_u32_le_cases (a ∷ b ∷ c ∷ []) h le = absurd (omega arith)
  get_u32_le_cases (a ∷ b ∷ c ∷ d ∷ rest) (ha, (hb, (hc, (hd, hr)))) le =
      let (e, lt) = to-from_le_bytes a b c d ha hb hc hd in
      (from_le_bytes a b c d, rest, B.get_u32_le_long a b c d rest, ap (λ t. t ++ rest) (sym e), lt)
