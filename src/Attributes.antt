-- ===== src/Attributes.antt =====
-- `attributes` of include/corosh/sftp.hpp and `attrs_length`, `put_attrs`, `take_attrs` of
-- src/sftp.cpp. A test `flags & MASK` is `has flags MASK`.
pub mod Bytes
use corosh.Base.{ℕ, zero, suc, ◌+◌, Bool, true, false, not, List, [], ◌==◌, bit_and, if◌then◌else◌}
use corosh.Errors.{failed}
use corosh.Wire.{
  Take, pure, ◌>>=◌, when, Writer, ◌▷◌, put_u32, put_u64, take_u32, take_u64, take_str,
}
use corosh.Wire.Writes.{put_if}

-- SSH_FILEXFER_ATTR_SIZE and so on.
pub data Mask : Type 0 where
  attr_size attr_uidgid attr_permissions attr_acmodtime attr_extended : Mask

abbrev pub bits : Mask → ℕ
bits attr_size = 1
bits attr_uidgid = 2
bits attr_permissions = 4
bits attr_acmodtime = 8
bits attr_extended = 0x8000_0000

unfoldable pub has : ℕ → Mask → Bool
has flags mask = not (bit_and flags (bits mask) == 0)

pub record Attributes : Type 0 where
  pub flags : ℕ
  pub type : ℕ
  pub size : ℕ
  pub uid : ℕ
  pub gid : ℕ
  pub owner : List ℕ
  pub group : List ℕ
  pub permissions : ℕ
  pub atime64 : ℕ
  pub atime : ℕ
  pub atime_nseconds : ℕ
  pub createtime : ℕ
  pub createtime_nseconds : ℕ
  pub mtime64 : ℕ
  pub mtime : ℕ
  pub mtime_nseconds : ℕ
  pub acl : List ℕ

-- `attributes attr;`
abbrev pub no_attributes : Attributes
no_attributes = record {
  flags = 0;
  type = 0;
  size = 0;
  uid = 0;
  gid = 0;
  owner = [];
  group = [];
  permissions = 0;
  atime64 = 0;
  atime = 0;
  atime_nseconds = 0;
  createtime = 0;
  createtime_nseconds = 0;
  mtime64 = 0;
  mtime = 0;
  mtime_nseconds = 0;
  acl = [];
}

abbrev pub add_if : Bool → ℕ → ℕ
add_if b n = if b then n else 0

unfoldable pub attrs_length : Attributes → ℕ
attrs_length attr =
    4
    + add_if (has attr.flags attr_size) 8
    + add_if (has attr.flags attr_uidgid) 8
    + add_if (has attr.flags attr_permissions) 4
    + add_if (has attr.flags attr_acmodtime) 8

unfoldable pub put_attrs : Attributes → Writer → Writer
put_attrs attr =
    put_u32 attr.flags
    ▷ put_if (has attr.flags attr_size) (put_u64 attr.size)
    ▷ put_if (has attr.flags attr_uidgid) (put_u32 attr.uid ▷ put_u32 attr.gid)
    ▷ put_if (has attr.flags attr_permissions) (put_u32 attr.permissions)
    ▷ put_if (has attr.flags attr_acmodtime) (put_u32 attr.atime ▷ put_u32 attr.mtime)

-- Two `uint32_t`, first the left one.
take_pair : Take (ℕ × ℕ)
take_pair = do a ← take_u32; b ← take_u32; pure (a, b)

-- `for (i = 0; !ec && i < count; ++i)`: the rounds left are the argument.
skip_extended : ℕ → Take (Unit {0})
skip_extended zero r = (tt, r)
skip_extended (suc n) r =
    let rest = skip_extended n (take_str (take_str r).1).1 in if failed r.ec then (tt, r) else rest

take_extended : Take (Unit {0})
unfolding skip_extended
take_extended = do count ← take_u32; skip_extended count

unfoldable pub take_attrs : Take Attributes
unfolding take_pair take_extended
take_attrs = do
  flags ← take_u32
  size ← when (has flags attr_size) take_u64 0
  ids ← when (has flags attr_uidgid) take_pair (0, 0)
  permissions ← when (has flags attr_permissions) take_u32 0
  times ← when (has flags attr_acmodtime) take_pair (0, 0)
  _ ← when (has flags attr_extended) take_extended tt
  pure (record no_attributes {
    flags = flags;
    size = size;
    uid = ids.0;
    gid = ids.1;
    permissions = permissions;
    atime = times.0;
    mtime = times.1;
  })
