-- ===== src/Tests/BytesModel.antt =====
-- The `bytes` crate over lists, which shows that its laws can hold.
use kaze.Base.{
  ℕ, ◌≤◌, ◌<◌, ◌≡◌, refl, arith, List, [], ◌∷◌, ◌++◌, length, take, drop, leb, true, false,
  if◌then◌else◌, Option, none, some,
}
use kaze.Extern.Bytes.{BytesCrate, to_le_bytes, from_le_bytes}

abbrev pub word : List ℕ → Option ℕ
word (a ∷ b ∷ c ∷ d ∷ bs) = some (from_le_bytes a b c d)
word bs = none

pub word_short : (bs : List ℕ) → length bs < 4 → word bs ≡ none
word_short [] h = refl
word_short (a ∷ []) h = refl
word_short (a ∷ b ∷ []) h = refl
word_short (a ∷ b ∷ c ∷ []) h = refl
word_short (a ∷ b ∷ c ∷ d ∷ bs) h = absurd (omega arith)

pub leb-true : (a b : ℕ) → a ≤ b → leb a b ≡ true
leb-true a b h = ground arith

pub leb-false : (a b : ℕ) → b < a → leb a b ≡ false
leb-false a b h = ground arith

abbrev pub within {ℓ} : {A : Type ℓ} → List ℕ → ℕ → A → Option A
within bs n a = if leb n (length bs) then some a else none

abbrev pub bytes : BytesCrate
bytes = record {
  get_u32_le = word;
  put_u32_le = λ bs n. bs ++ to_le_bytes n;
  put = λ bs src. bs ++ src;
  advance = λ bs n. within bs n (drop n bs);
  split_to = λ bs n. within bs n (take n bs, drop n bs);
  take_buf = λ bs n. take n bs;
  get_u32_le_short = word_short;
  get_u32_le_long = λ a b c d bs. refl;
  put_u32_le_lem = λ bs n. refl;
  put_lem = λ bs src. refl;
  advance_within = λ bs n h. rw (leb-true n (length bs) h) refl;
  advance_beyond = λ bs n h. rw (leb-false n (length bs) h) refl;
  split_to_within = λ bs n h. rw (leb-true n (length bs) h) refl;
  split_to_beyond = λ bs n h. rw (leb-false n (length bs) h) refl;
  take_buf_lem = λ bs n. refl;
}
