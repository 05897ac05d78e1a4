-- ===== src/Ring/Memory.antt =====
-- The bytes of a queue in shared memory.
use kaze.Base.{
  ℕ, zero, suc, ◌+◌, ◌%◌, ◌≤◌, ◌<◌, ◌≡◌, refl, arith, ap₂, ◌∙◌, List, [], ◌∷◌, length,
  if◌then◌else◌, ◌==◌, ◌⊎◌, inl, inr,
}
use kaze.Extern.Bytes.{to_le_bytes, from_le_bytes, u32_mod}

abbrev pub Mem : Type 0
Mem = ℕ → ℕ

unfoldable pub store : Mem → ℕ → ℕ → Mem
store m p b i = if i == p then b else m i

-- `memcpy` into the queue and out of it.
unfoldable pub write_bytes : Mem → ℕ → List ℕ → Mem
write_bytes m p [] = m
write_bytes m p (b ∷ bs) = write_bytes (store m p b) (suc p) bs

unfoldable pub read_bytes : Mem → ℕ → ℕ → List ℕ
read_bytes m p zero = []
read_bytes m p (suc n) = m p ∷ read_bytes m (suc p) n

-- `kz_write_u32le` and `kz_read_u32le`
unfoldable pub write_u32 : Mem → ℕ → ℕ → Mem
write_u32 m p n = write_bytes m p (to_le_bytes n)

unfoldable pub read_u32 : Mem → ℕ → ℕ
read_u32 m p = from_le_bytes (m p) (m (p + 1)) (m (p + 2)) (m (p + 3))

-- Position `i` is outside of the `n` bytes at `p`.
abbrev pub Outside : ℕ → ℕ → ℕ → Type 0
Outside p n i = (i < p) ⊎ (p + n ≤ i)

pub write-Outside :
    (m : Mem) (p : ℕ) (bs : List ℕ) (i : ℕ) → Outside p (length bs) i → write_bytes m p bs i ≡ m i
unfolding write_bytes store
write-Outside m p [] i h = refl
write-Outside m p (b ∷ bs) i h =
    write-Outside (store m p b) (suc p) bs i (next h) ∙ ground (arith, h)
  where
    next : Outside p (suc (length bs)) i → Outside (suc p) (length bs) i
    next (inl lt) = inl (omega arith)
    next (inr le) = inr (omega arith)

-- The same bytes are read from memories that agree on the range.
abbrev pub Agree : Mem → Mem → ℕ → ℕ → Type 0
Agree m m' p e = (i : ℕ) → p ≤ i → i < e → m' i ≡ m i

pub read-Agree :
    (m m' : Mem) (p n : ℕ) → Agree m m' p (p + n) → read_bytes m' p n ≡ read_bytes m p n
unfolding read_bytes
read-Agree m m' p zero h = refl
read-Agree m m' p (suc n) h =
    ap₂ (λ a bs. a ∷ bs) (h p (omega arith) (omega arith))
      (read-Agree m m' (suc p) n (λ i lo hi. h i (omega arith) (omega arith)))

pub read_u32-Agree : (m m' : Mem) (p : ℕ) → Agree m m' p (p + 4) → read_u32 m' p ≡ read_u32 m p
unfolding read_u32
read_u32-Agree m m' p h =
    rw
      (
        h p (omega arith) (omega arith),
        h (p + 1) (omega arith) (omega arith),
        h (p + 2) (omega arith) (omega arith),
        h (p + 3) (omega arith) (omega arith),
      )
      refl

-- Writing outside of a range changes nothing on it.
pub write-Agree :
    (m : Mem) (p : ℕ) (bs : List ℕ) (q e : ℕ)
    → (e ≤ p) ⊎ (p + length bs ≤ q)
    → Agree m (write_bytes m p bs) q e
write-Agree m p bs q e apart i lo hi = write-Outside m p bs i (outside apart)
  where
    outside : (e ≤ p) ⊎ (p + length bs ≤ q) → Outside p (length bs) i
    outside (inl h) = inl (omega arith)
    outside (inr h) = inr (omega arith)

pub read-write_bytes :
    (m : Mem) (p : ℕ) (bs : List ℕ) → read_bytes (write_bytes m p bs) p (length bs) ≡ bs
unfolding read_bytes write_bytes
read-write_bytes m p [] = refl
read-write_bytes m p (b ∷ bs) =
    ap₂ (λ a bs. a ∷ bs) (write-Outside (store m p b) (suc p) bs p (inl (omega arith)) ∙ stored)
      (read-write_bytes (store m p b) (suc p) bs)
  where
    stored : store m p b p ≡ b
    stored = unfold store in ground arith

-- What is written is read back, cut to 32 bits.
pub read-write_u32 : (m : Mem) (p n : ℕ) → read_u32 (write_u32 m p n) p ≡ n % u32_mod
unfolding read_u32 write_u32 write_bytes to_le_bytes from_le_bytes store
read-write_u32 m p n = ground arith
