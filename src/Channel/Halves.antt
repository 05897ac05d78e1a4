-- ===== src/Channel/Halves.antt =====
-- crates/kaze-core/src/split.rs: the two halves of a channel, which share it by an `Arc`.
use kaze.Base.{
  ℕ, zero, suc, ◌+◌, ◌-◌, ◌≤◌, ◌≡◌, refl, arith, Bool, true, false, if◌then◌else◌, ◌==◌, ◌∙◌,
  Outcome, ok, err, panic,
}

-- The `Arc` of a channel: how many handles there are to it, and whether its writing side was shut down.
pub record Shared : Type 0 where
  pub strong : ℕ
  pub shut : Bool

-- `Channel::into_split`: a read half and a write half.
unfoldable pub into_split : Shared
into_split = record { strong = 2; shut = false }

-- `OwnedReadHalf::clone`, and the drop of a read half.
unfoldable pub clone_read : Shared → Shared
clone_read c = record c { strong = c.strong + 1 }

unfoldable pub drop_read : Shared → Shared
drop_read c = record c { strong = c.strong - 1 }

-- The drop of the write half, which shuts the writing side down unless it was told to forget that.
unfoldable pub drop_write : Bool → Shared → Shared
drop_write shutdown_on_drop c = record c {
  strong = c.strong - 1;
  shut = if shutdown_on_drop then true else c.shut;
}

-- `OwnedWriteHalf::forget`
unfoldable pub forget : Shared → Shared
forget c = drop_write false c

-- The halves that `reunite` gives back.
pub data ReuniteError : Type 0 where
  other_channel : ReuniteError

-- `Arc::try_unwrap(…).expect(…)` gives the channel where the handle is the only one.
unfoldable pub unwrap : Shared → Outcome ReuniteError Shared
unwrap c = if c.strong == 1 then ok c else panic

-- `reunite`, where `same` is what `Arc::ptr_eq` says of the halves.
unfoldable pub reunite : Bool → Shared → Outcome ReuniteError Shared
reunite same c = let whole = unwrap (forget c) in if same then whole else err other_channel

abbrev pub cloned : ℕ → Shared → Shared
cloned zero c = c
cloned (suc n) c = clone_read (cloned n c)

abbrev pub dropped : ℕ → Shared → Shared
dropped zero c = c
dropped (suc n) c = drop_read (dropped n c)

strong-cloned : (n : ℕ) (c : Shared) → (cloned n c).strong ≡ c.strong + n
unfolding clone_read
strong-cloned zero c = omega arith
strong-cloned (suc n) c = omega (arith, strong-cloned n c)

strong-dropped : (n : ℕ) (c : Shared) → (dropped n c).strong ≡ c.strong - n
unfolding drop_read
strong-dropped zero c = omega arith
strong-dropped (suc n) c = omega (arith, strong-dropped n c)

shut-cloned : (n : ℕ) (c : Shared) → (cloned n c).shut ≡ c.shut
unfolding clone_read
shut-cloned zero c = refl
shut-cloned (suc n) c = shut-cloned n c

shut-dropped : (n : ℕ) (c : Shared) → (dropped n c).shut ≡ c.shut
unfolding drop_read
shut-dropped zero c = refl
shut-dropped (suc n) c = shut-dropped n c

-- The halves of one channel are put together again, without shutting it down, where every clone of
-- the read half was dropped, and else the attempt panics.
pub reunite-cloned :
    (n m : ℕ)
    → m ≤ n
    → reunite true (dropped m (cloned n into_split))
      ≡ (if n == m then ok (record { strong = 1; shut = false }) else panic)
unfolding reunite unwrap forget drop_write into_split
reunite-cloned n m le =
    let a = strong-dropped m (cloned n into_split) in
    let b = strong-cloned n into_split in
    let c : (dropped m (cloned n into_split)).shut ≡ false =
      shut-dropped m (cloned n into_split) ∙ shut-cloned n into_split in
    let d : (dropped m (cloned n into_split)).strong ≡ 2 + n - m = omega arith in
    rw (c, d) (ground arith)
