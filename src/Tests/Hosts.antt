-- ===== src/Tests/Hosts.antt =====
-- The theorems on a mount and on the calls of FUSE, at a kernel and a host of a few calls.
use model_lib.Prelude.{
  ℕ, suc, ◌-◌, ◌≡◌, refl, inl, Bool, true, false, List, [], ◌∷◌, Option, some, none, ok,
}
use model_lib.Memory.{zeroed}
use model_lib.Volume.{Volume}
use model_lib.Namei.Inodes.{Inode, unset}
use model_lib.Fuse.{Host, fuse_read, fuse_write, fuse_mknod, fuse_readdir}
use model_lib.Fuse.Descriptors.{Counts, fuse_closes}
use model_lib.Mount.{Limits, SuperBlock, mfs_fill_super}
use model_lib.Mount.Outcomes.{Ends, mfs_fill_super-Ends}
use model_lib.Tests.Files.{file_disk}

-- A host whose state is the number of its open descriptors, and on which every call succeeds.
abbrev counter : Host ℕ ℕ ℕ
counter = record {
  errno = λ h. 0;
  lstat = λ path h. (some 0, h);
  statvfs = λ path h. (some 0, h);
  opendir = λ path h. (some h, suc h);
  readdir = λ dp h. (record { d_ino = 1; d_type = 8; d_name = b'a' ∷ [] } ∷ [], h);
  closedir = λ dp h. h - 1;
  open_new = λ path mode h. (some h, suc h);
  open_rdonly = λ path h. (some h, suc h);
  open_wronly = λ path h. (some h, suc h);
  close = λ fd h. (true, h - 1);
  pread = λ fd size offset h. (some (size, zeroed), h);
  pwrite = λ fd buf size offset h. (some size, h);
  mkfifo = λ path mode h. (true, h);
  mknod = λ path mode rdev h. (true, h);
  mkdir = λ path mode h. (true, h);
  unlink = λ path h. (true, h);
  link = λ from to h. (true, h);
  chmod = λ path mode h. (true, h);
  lchown = λ path uid gid h. (true, h);
}

counter-Counts : Counts counter (λ h. h)
counter-Counts = record {
  open_new = λ path mode h. refl;
  open_rdonly = λ path h. refl;
  open_wronly = λ path h. refl;
  opendir = λ path h. refl;
  close = λ fd h. refl;
  closedir = λ dp h. refl;
  readdir = λ dp h. refl;
  pread = λ fd size offset h. refl;
  pwrite = λ fd buf size offset h. refl;
  mkfifo = λ path mode h. refl;
  mknod = λ path mode rdev h. refl;
}

fuse_closes_example :
    ((fuse_read counter (b'a' ∷ []) zeroed 10 0 3).2 ≡ 3)
    × ((fuse_write counter (b'a' ∷ []) zeroed 10 0 3).1 ≡ 3)
    × ((fuse_mknod counter (b'a' ∷ []) 0o100644 0 3).1 ≡ 3)
    × ((fuse_readdir counter (λ name st. false) (b'a' ∷ []) 3).2 ≡ 3)
fuse_closes_example =
    fuse_closes counter (λ h. h) (b'a' ∷ []) zeroed 10 0 0o100644 0 (λ name st. false) 3
      counter-Counts

abbrev limits : Limits
limits = record {
  max_lfs_filesize = 9223372036854775807;
  page_cache_size = 4096;
  page_cache_shift = 12;
}

abbrev new_super : SuperBlock
new_super = record {
  s_maxbytes = 0;
  s_blocksize = 0;
  s_blocksize_bits = 0;
  s_magic = 0;
  s_time_gran = 0;
  s_fs_info = none;
  s_root = none;
}

abbrev new_inode : Inode
new_inode = record { i_mode = 0; i_size = 0; i_gid = 0; i_ino = 1; i_nlink = 1; operations = unset }

abbrev devices : List ℕ → Option Volume
devices name = some file_disk

mfs_fill_super-Ends_example :
    (r : Bool × SuperBlock × ℕ) × (mfs_fill_super limits true devices
        (some new_inode)
        (λ i. (true, 0))
        new_super
        (some (b'd' ∷ []))
      ≡ ok r)
    × Ends devices (some new_inode) (λ i. (true, 0)) (some (b'd' ∷ [])) r
mfs_fill_super-Ends_example =
    mfs_fill_super-Ends limits devices (some new_inode) (λ i. (true, 0)) new_super
      (some (b'd' ∷ [])) (λ i. inl refl)
