-- ===== src/Fuse.antt =====
-- progs/fuse.c: the calls of FUSE, each of which is handed to the host's own file system.
pub mod Descriptors
use model_lib.Prelude.{
  ℕ, ◌*◌, ◌%◌, ◌^◌, ◌==◌, if◌then◌else◌, Bool, true, false, List, [], ◌∷◌, Option, none, some,
  bit_and, same_string,
}
use model_lib.Memory.{Bytes}

-- What a call returns: a number that is not negative, or -errno.
pub data Answer : Type 0 where
  count : ℕ → Answer
  minus : (errno : ℕ) → Answer

-- The members of `struct dirent` and `struct stat` that are used.
pub record HostDirent : Type 0 where
  pub d_ino : ℕ
  pub d_type : ℕ
  pub d_name : List ℕ

pub record Stat : Type 0 where
  pub st_ino : ℕ
  pub st_mode : ℕ

-- The host: its calls, over its state. `false` and `none` are the result -1, or NULL for `opendir`.
pub record Host (H S V : Type 0) : Type 0 where
  pub errno : H → ℕ
  pub lstat : List ℕ → H → Option S × H
  pub statvfs : List ℕ → H → Option V × H
  pub opendir : List ℕ → H → Option ℕ × H
  pub readdir : ℕ → H → List HostDirent × H
  pub closedir : ℕ → H → H
  pub open_new : List ℕ → (mode : ℕ) → H → Option ℕ × H
  pub open_rdonly : List ℕ → H → Option ℕ × H
  pub open_wronly : List ℕ → H → Option ℕ × H
  pub close : ℕ → H → Bool × H
  pub pread : ℕ → (size offset : ℕ) → H → Option (ℕ × Bytes) × H
  pub pwrite : ℕ → Bytes → (size offset : ℕ) → H → Option ℕ × H
  pub mkfifo : List ℕ → (mode : ℕ) → H → Bool × H
  pub mknod : List ℕ → (mode rdev : ℕ) → H → Bool × H
  pub mkdir : List ℕ → (mode : ℕ) → H → Bool × H
  pub unlink : List ℕ → H → Bool × H
  pub link : (from to : List ℕ) → H → Bool × H
  pub chmod : List ℕ → (mode : ℕ) → H → Bool × H
  pub lchown : List ℕ → (uid gid : ℕ) → H → Bool × H

-- -ENOENT
abbrev pub no_entry : Answer
no_entry = minus 2

-- S_IFREG and S_IFIFO
abbrev pub is_reg : ℕ → Bool
is_reg mode = bit_and mode 0o170000 == 0o100000

abbrev pub is_fifo : ℕ → Bool
is_fifo mode = bit_and mode 0o170000 == 0o10000

module _ {H S V : Type 0} (host : Host H S V) where
  -- 0, or -errno for a result of -1.
  abbrev pub checked : Bool × H → Answer × H
  checked (done, h) = (if done then count 0 else minus (host.errno h), h)

  abbrev pub filled : {A : Type 0} → Option A × H → Answer × Option A × H
  filled (some a, h) = (count 0, some a, h)
  filled (none, h) = (minus (host.errno h), none, h)

  -- The answer, and what is put into `*stbuf`.
  unfoldable pub fuse_getattr : List ℕ → H → Answer × Option S × H
  fuse_getattr path h = filled (host.lstat path h)

  unfoldable pub fuse_statfs : List ℕ → H → Answer × Option V × H
  fuse_statfs path h = filled (host.statvfs path h)

  -- `filler` says by `true` that its buffer is full; what it was given is the list.
  unfoldable pub fill : (filler : List ℕ → Stat → Bool) → List HostDirent → List (List ℕ × Stat)
  fill filler [] = []
  fill filler (de ∷ rest) =
      let st : Stat = record { st_ino = de.d_ino; st_mode = de.d_type * 4096 % 2 ^ 32 } in
      let filled_rest : List (List ℕ × Stat) = fill filler rest in
      (de.d_name, st) ∷ (if filler de.d_name st then [] else filled_rest)

  abbrev pub listed :
      (filler : List ℕ → Stat → Bool) → Option ℕ × H → Answer × List (List ℕ × Stat) × H
  listed filler (none, h) = (minus (host.errno h), [], h)
  listed filler (some dp, h) =
      let (entries, h) = host.readdir dp h in (count 0, fill filler entries, host.closedir dp h)

  unfoldable pub fuse_readdir :
      (filler : List ℕ → Stat → Bool) → List ℕ → H → Answer × List (List ℕ × Stat) × H
  fuse_readdir filler path h = listed filler (host.opendir path h)

  abbrev pub node_made : Option ℕ × H → Answer × H
  node_made (none, h) = (minus (host.errno h), h)
  node_made (some fd, h) = checked (host.close fd h)

  -- A regular file is made by opening it, and closed again.
  unfoldable pub fuse_mknod : List ℕ → (mode rdev : ℕ) → H → Answer × H
  fuse_mknod path mode rdev h =
      if is_reg mode
      then node_made (host.open_new path mode h)
      else if is_fifo mode
      then checked (host.mkfifo path mode h)
      else checked (host.mknod path mode rdev h)

  unfoldable pub fuse_mkdir : List ℕ → (mode : ℕ) → H → Answer × H
  fuse_mkdir path mode h = checked (host.mkdir path mode h)

  unfoldable pub fuse_unlink : List ℕ → H → Answer × H
  fuse_unlink path h = checked (host.unlink path h)

  unfoldable pub fuse_link : (from to : List ℕ) → H → Answer × H
  fuse_link from to h = checked (host.link from to h)

  unfoldable pub fuse_chmod : List ℕ → (mode : ℕ) → H → Answer × H
  fuse_chmod path mode h = checked (host.chmod path mode h)

  unfoldable pub fuse_chown : List ℕ → (uid gid : ℕ) → H → Answer × H
  fuse_chown path uid gid h = checked (host.lchown path uid gid h)

  abbrev pub read_closing : (fd : ℕ) → Bytes → Option (ℕ × Bytes) × H → Answer × Bytes × H
  read_closing fd buf (none, h) = (minus (host.errno h), buf, (host.close fd h).1)
  read_closing fd buf (some (n, read), h) = (count n, read, (host.close fd h).1)

  abbrev pub read_opened : Bytes → (size offset : ℕ) → Option ℕ × H → Answer × Bytes × H
  read_opened buf size offset (none, h) = (minus (host.errno h), buf, h)
  read_opened buf size offset (some fd, h) = read_closing fd buf (host.pread fd size offset h)

  -- What is said to be read, and `buf` behind the call.
  unfoldable pub fuse_read : List ℕ → Bytes → (size offset : ℕ) → H → Answer × Bytes × H
  fuse_read path buf size offset h = read_opened buf size offset (host.open_rdonly path h)

  abbrev pub write_closing : (fd : ℕ) → Option ℕ × H → Answer × H
  write_closing fd (none, h) = (minus (host.errno h), (host.close fd h).1)
  write_closing fd (some n, h) = (count n, (host.close fd h).1)

  abbrev pub write_opened : Bytes → (size offset : ℕ) → Option ℕ × H → Answer × H
  write_opened buf size offset (none, h) = (minus (host.errno h), h)
  write_opened buf size offset (some fd, h) = write_closing fd (host.pwrite fd buf size offset h)

  unfoldable pub fuse_write : List ℕ → Bytes → (size offset : ℕ) → H → Answer × H
  fuse_write path buf size offset h = write_opened buf size offset (host.open_wronly path h)

-- Only the root can be opened.
unfoldable pub fuse_open : List ℕ → Answer
fuse_open path = if same_string path (b'/' ∷ []) then count 0 else no_entry
