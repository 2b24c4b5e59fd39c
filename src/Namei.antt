-- ===== src/Namei.antt =====
-- namei.c, the functions of util.c that give the path of a VFS dentry, and the reading and writing of
-- a file in file.c that the kernel calls.
pub mod Inodes
pub mod Paths
use model_lib.Prelude.{
  ℕ, zero, suc, ◌+◌, ◌-◌, ◌*◌, ◌%◌, ◌^◌, ltb, ◌==◌, if◌then◌else◌, Bool, true, false, List, [], ◌∷◌,
  ◌++◌, length, Option, none, some, Outcome, ok, fault, ◌>>=◌,
}
use model_lib.Memory.{Bytes}
use model_lib.Volume.{Volume}
use model_lib.Fat.{u32_mod, u128_mod}
use model_lib.Entry.Dirent.{Dirent, size}
use model_lib.Entry.Paths.{separator, get_dir_path, get_file_name}
use model_lib.Entry.Directory.{get_cluster_number, get_dentry, alloc_new_entry}
use model_lib.File.{read_file, write_file, create}
use model_lib.Dir.{DentryType, file_dentry, dir_dentry, lookup, mkdir}
use model_lib.Namei.Inodes.{
  Inode, mfs_get_inode, s_ifreg, s_ifdir, s_isgid, s_ifmt, set_ino, has_bits, or_bits,
}

-- A `struct dentry` of the kernel: its name and those of its parents, up to `s_root`, which has none.
abbrev pub VfsDentry : Type 0
VfsDentry = List (List ℕ)

abbrev pub d_name : VfsDentry → List ℕ
d_name [] = []
d_name (name ∷ parents) = name

-- `d_parent`; `s_root` is its own.
abbrev pub d_parent : VfsDentry → VfsDentry
d_parent [] = []
d_parent (name ∷ parents) = parents

-- The loop of the two functions. `strncpy` puts no NUL behind a text that fills the buffer, whose end
-- the next call then runs over; `tmp` has 1024 bytes.
unfoldable pub climb : (len : ℕ) → VfsDentry → (buf : List ℕ) → Outcome (List ℕ)
climb len [] buf = ok buf
climb len (name ∷ parents) buf =
    let rest : Outcome (List ℕ) = climb len parents (separator ∷ name ++ buf) in
    if ltb 1024 (length (separator ∷ name ++ buf) + 1)
    then fault
    else if ltb len (length (separator ∷ name ++ buf) + 1)
    then fault
    else rest

unfoldable pub get_file_path_from_dentry : VfsDentry → (len : ℕ) → Outcome (List ℕ)
unfolding climb
get_file_path_from_dentry dentry len = climb len dentry []

unfoldable pub get_dir_path_from_dentry : VfsDentry → (len : ℕ) → Outcome (List ℕ)
unfolding climb
get_dir_path_from_dentry dentry len = do
  buf ← climb len (d_parent dentry) []
  ok (if length buf == 0 then separator ∷ [] else buf)

-- A text copied into `room` zeroed bytes; a function that returns FALSE leaves them.
abbrev copied : (room : ℕ) → Option (List ℕ) → Outcome (List ℕ)
copied room none = ok []
copied room (some s) = if ltb room (length s + 1) then fault else ok s

-- The inode that `d_add` is given. `inode` is what `new_inode` makes of the new one; if there is
-- none, it is used all the same.
unfoldable pub mfs_lookup : ℕ → Volume → (inode : Option Inode) → VfsDentry → Outcome (Option Inode)
unfolding get_dir_path_from_dentry mfs_get_inode
mfs_lookup fuel volume inode dentry = do
  path ← get_dir_path_from_dentry dentry 512
  res ← lookup fuel volume path (d_name dentry)
  elim res [
    | none ↦ ok none
    | some t ↦
        elim (mfs_get_inode inode (elim t [ file_dentry ↦ s_ifreg | dir_dentry ↦ s_ifdir ])) [
          | none ↦ fault
          | some i ↦ ok (some (set_ino 2 i))
        ]
  ]

-- The result, the inode for `d_instantiate`, and `*dir`; -28 is -ENOSPC.
unfoldable pub mfs_mknod :
    (inode : Option Inode) → (dir : Inode) → (mode : ℕ) → Bool × Option Inode × Inode
unfolding mfs_get_inode
mfs_mknod inode dir mode = elim (mfs_get_inode inode mode) [
  | none ↦ (false, none, dir)
  | some i ↦
      let i' : Inode =
        if has_bits dir.i_mode s_isgid
        then record i {
          i_gid = dir.i_gid;
          i_mode = if s_ifmt mode == s_ifdir then or_bits i.i_mode s_isgid else i.i_mode;
        }
        else i in
      (true, some i', record dir { i_size = dir.i_size + 0x20 })
]

-- The result of `__mfs_mkdir` is dropped: the call returns 0.
unfoldable pub mfs_mkdir : Bytes → ℕ → Volume → VfsDentry → Outcome (ℕ × Volume)
unfolding get_dir_path_from_dentry
mfs_mkdir stack fuel volume dentry = do
  buf ← get_dir_path_from_dentry dentry 512
  (_, volume) ← mkdir stack fuel volume buf (d_name dentry)
  ok (0, volume)

-- The result, the inode of the dentry, and the volume.
unfoldable pub mfs_create :
    Bytes → ℕ → Volume → (inode : Option Inode) → VfsDentry → Outcome (ℕ × Option Inode × Volume)
unfolding get_dir_path_from_dentry mfs_get_inode
mfs_create stack fuel volume inode dentry = do
  path ← get_dir_path_from_dentry dentry 512
  (created, volume) ← create stack fuel volume path (d_name dentry)
  ok (
      if created
      then elim (mfs_get_inode inode s_ifreg) [
        | none ↦ (0, none, volume)
        | some i ↦ (0, some (set_ino 2 i), volume)
      ]
      else (1, none, volume))

-- `int cluster_number`, handed on as a `u128`.
abbrev int_number : ℕ → ℕ
int_number c = if ltb (c % u32_mod) (2 ^ 31) then c % u32_mod else c % u32_mod + u128_mod - u32_mod

-- What `mfs_getattr`, `mfs_read` and `mfs_write` do first: the cluster of the directory and the entry.
-- `garbage` is what stands on the stack where there is no such file.
unfoldable pub open_entry :
    ℕ → Volume → (garbage : Dirent) → (number : ℕ → ℕ) → VfsDentry → Outcome (ℕ × List ℕ × Dirent)
unfolding get_file_path_from_dentry
open_entry fuel volume garbage number dentry = do
  full_path ← get_file_path_from_dentry dentry 512
  file_name ← copied 64 (get_file_name full_path)
  route ← copied 128 (get_dir_path full_path)
  cluster_number ← get_cluster_number fuel volume route
  d ← get_dentry fuel volume (number cluster_number) file_name
  ok (number cluster_number, file_name, elim d [ none ↦ garbage | some found ↦ found ])

-- The size and the mode of `struct kstat`.
pub record Kstat : Type 0 where
  pub size : ℕ
  pub mode : ℕ

-- `stat` is the result of `simple_getattr` and what it puts into `*kstat`.
unfoldable pub mfs_getattr :
    ℕ → Volume → (garbage : Dirent) → (stat : ℕ × Kstat) → VfsDentry → Outcome (ℕ × Kstat)
unfolding open_entry
mfs_getattr fuel volume garbage (ret, kstat) dentry = do
  (_, _, d) ← open_entry fuel volume garbage int_number dentry
  ok (ret, record { size = size d; mode = or_bits kstat.mode 0o777 })

-- The result, the bytes for `copy_to_user`, and the new offset. `kernel_buf` is what `vmalloc` gives;
-- the length goes into an `unsigned int`.
unfoldable pub mfs_read :
    ℕ
    → Volume
    → (garbage : Dirent) → (kernel_buf : Option Bytes) → VfsDentry
    → (len offset : ℕ) → Outcome (ℕ × Bytes × ℕ)
unfolding open_entry
mfs_read fuel volume garbage none dentry len offset = ok (0, λ i. 0, offset)
mfs_read fuel volume garbage (some kernel_buf) dentry len offset = do
  (_, _, d) ← open_entry fuel volume garbage (λ c. c) dentry
  (ret, buf) ← read_file fuel volume d kernel_buf (len % u32_mod) (offset % u32_mod)
  ok (ret, buf, offset + ret)

-- The result, the new offset, and the volume. `buf` is the user's.
unfoldable pub mfs_write :
    Bytes
    → ℕ
    → Volume
    → (garbage : Dirent) → (kernel_buf : Bool) → VfsDentry
    → (buf : Bytes) → (len offset : ℕ) → Outcome (ℕ × ℕ × Volume)
unfolding open_entry
mfs_write stack fuel volume garbage false dentry buf len offset = ok (0, offset, volume)
mfs_write stack fuel volume garbage true dentry buf len offset = do
  (cluster_number, file_name, d) ← open_entry fuel volume garbage (λ c. c) dentry
  w ← write_file stack fuel volume d buf (len % u32_mod) (offset % u32_mod)
  (_, volume) ← alloc_new_entry fuel w.volume cluster_number file_name w.dentry
  ok (w.count, offset + w.count, volume)
