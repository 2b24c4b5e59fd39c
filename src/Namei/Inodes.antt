-- ===== src/Namei/Inodes.antt =====
-- namei.c: the inodes that the kernel is given.
use model_lib.Prelude.{ℕ, ◌+◌, ◌-◌, ◌==◌, if◌then◌else◌, Bool, not, Option, none, some, bit_and}

-- The operations that an inode is given.
pub data Operations : Type 0 where
  unset special file_operations dir_operations : Operations

-- The fields of a `struct inode` that the module sets.
pub record Inode : Type 0 where
  pub i_mode : ℕ
  pub i_size : ℕ
  pub i_gid : ℕ
  pub i_ino : ℕ
  pub i_nlink : ℕ
  pub operations : Operations

-- S_IFREG, S_IFDIR, S_IFLNK and S_ISGID
abbrev pub s_ifreg : ℕ
s_ifreg = 0o100000

abbrev pub s_ifdir : ℕ
s_ifdir = 0o40000

abbrev s_iflnk : ℕ
s_iflnk = 0o120000

abbrev pub s_isgid : ℕ
s_isgid = 0o2000

-- `mode & S_IFMT`
abbrev pub s_ifmt : ℕ → ℕ
s_ifmt mode = bit_and mode 0o170000

abbrev pub has_bits : ℕ → ℕ → Bool
has_bits mode bits = not (bit_and mode bits == 0)

abbrev pub or_bits : ℕ → ℕ → ℕ
or_bits mode bits = mode + bits - bit_and mode bits

abbrev pub set_ino : ℕ → Inode → Inode
set_ino ino inode = record inode { i_ino = ino }

-- `inode` is what `new_inode` gives. The owner is root and the times are now. A new link of a directory
-- is counted.
unfoldable pub mfs_get_inode : (inode : Option Inode) → (mode : ℕ) → Option Inode
mfs_get_inode none mode = none
mfs_get_inode (some inode) mode =
    let plain : Inode = record inode { i_mode = mode; i_size = 0; i_gid = 0 } in
    some (
      if s_ifmt mode == s_ifreg
      then record plain { operations = file_operations }
      else if s_ifmt mode == s_ifdir
      then record plain { operations = dir_operations; i_nlink = inode.i_nlink + 1 }
      else if s_ifmt mode == s_iflnk
      then plain
      else record plain { operations = special })
