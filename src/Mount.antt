-- ===== src/Mount.antt =====
-- super.c: the mount of a volume, and `open_volume` of volume.c, which it calls.
pub mod Outcomes
use model_lib.Prelude.{
  ℕ, ◌+◌, Bool, true, false, List, Option, none, some, Outcome, ok, fault, ◌>>=◌,
}
use model_lib.Volume.{Volume}
use model_lib.Namei.Inodes.{Inode, mfs_get_inode, s_ifdir, or_bits}

-- The kernel's constants.
pub record Limits : Type 0 where
  pub max_lfs_filesize : ℕ
  pub page_cache_size : ℕ
  pub page_cache_shift : ℕ

-- The members of `struct super_block` that are set, but for the table of its operations.
pub record SuperBlock : Type 0 where
  pub s_maxbytes : ℕ
  pub s_blocksize : ℕ
  pub s_blocksize_bits : ℕ
  pub s_magic : ℕ
  pub s_time_gran : ℕ
  pub s_fs_info : Option Volume
  pub s_root : Option Inode

-- `MFSFS_MAGIC`
abbrev pub mfsfs_magic : ℕ
mfsfs_magic = 0x73616d70

-- `vmalloc` says whether there is memory, and `filp_open` whether there is the file.
unfoldable pub open_volume :
    (vmalloc : Bool) (filp_open : List ℕ → Option Volume) → List ℕ → Outcome (Option Volume)
open_volume false filp_open name = fault
open_volume true filp_open name = ok (filp_open name)

-- `options` is the text that `mount` is given, the name of the device. The result is 0, or -ENOMEM; then the super block, and how many references to the root's inode the
-- call and `d_make_root` drop. `inode` is what `new_inode` gives, and `d_make_root` says whether it
-- makes a dentry and how many references it drops.
unfoldable pub mfs_fill_super :
    Limits
    → (vmalloc : Bool) (filp_open : List ℕ → Option Volume) (inode : Option Inode)
    → (d_make_root : Inode → Bool × ℕ) → SuperBlock
    → (options : Option (List ℕ)) → Outcome (Bool × SuperBlock × ℕ)
unfolding open_volume mfs_get_inode
mfs_fill_super limits vmalloc filp_open inode d_make_root sb options =
    let sb : SuperBlock = record sb {
      s_maxbytes = limits.max_lfs_filesize;
      s_blocksize = limits.page_cache_size;
      s_blocksize_bits = limits.page_cache_shift;
      s_magic = mfsfs_magic;
      s_time_gran = 1;
    } in
    elim options [
      | none ↦ ok (false, sb, 0)
      | some name ↦ (do
        volume ← open_volume vmalloc filp_open name
        elim volume [
          | none ↦ ok (false, sb, 0)
          | some v ↦
              let sb : SuperBlock = record sb { s_fs_info = some v } in
              elim (mfs_get_inode inode (or_bits s_ifdir 0o755)) [
                | none ↦ ok (false, sb, 0)
                | some root ↦
                    let (made, dropped) = d_make_root root in
                    elim made [
                      | true ↦ ok (true, record sb { s_root = some root }, dropped)
                      | false ↦ ok (false, record sb { s_root = none }, dropped + 1)
                    ]
              ]
        ])
    ]
