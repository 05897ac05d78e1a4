-- ===== src/Channel/Options.antt =====
-- crates/kaze-core/src/lib.rs: the options that open a channel.
use kaze.Base.{ℕ, ◌^◌, Bool, if◌then◌else◌}
use Prim.Native.Nat.{bit_or}

-- `KZ_CREATE`, `KZ_EXCL` and `KZ_RESET`
abbrev pub kz_create : ℕ
kz_create = 2 ^ 16

abbrev pub kz_excl : ℕ
kz_excl = 2 ^ 17

abbrev pub kz_reset : ℕ
kz_reset = 2 ^ 18

pub record OpenOptions : Type 0 where
  pub flags : ℕ
  pub perm : ℕ
  pub bufsize : ℕ

unfoldable pub options : OpenOptions
options = record { flags = 0; perm = 420; bufsize = 0 }

unfoldable pub create : OpenOptions → Bool → ℕ → OpenOptions
create o is_create bufsize = record {
  flags = bit_or o.flags (if is_create then kz_create else 0);
  perm = o.perm;
  bufsize = bufsize;
}

unfoldable pub with_perm : OpenOptions → ℕ → OpenOptions
with_perm o perm = record o { perm = perm }

unfoldable pub create_new : OpenOptions → Bool → ℕ → OpenOptions
create_new o is_create bufsize = record {
  flags = bit_or o.flags (if is_create then bit_or kz_create kz_excl else 0);
  perm = o.perm;
  bufsize = bufsize;
}

unfoldable pub reset : OpenOptions → OpenOptions
reset o = record o { flags = bit_or o.flags kz_reset }

-- The arguments of `kz_open`.
unfoldable pub open_args : OpenOptions → ℕ × ℕ
open_args o = (bit_or o.flags o.perm, o.bufsize)
