-- ===== src/Fuse/Descriptors.antt =====
-- progs/fuse.c: the files that the calls open on the host are closed again.
use model_lib.Prelude.{
  ℕ, suc, ◌-◌, ◌≡◌, arith, ◌∙◌, inl, inr, Bool-cases, Bool, List, Option, none, some,
}
use model_lib.Memory.{Bytes}
use model_lib.Fuse.{
  Host, Stat, fuse_read, fuse_write, fuse_mknod, fuse_readdir, is_reg, is_fifo, node_made, listed,
  read_opened, read_closing, write_opened, write_closing,
}

-- What a call that opens does to the number of open descriptors.
abbrev opened : Option ℕ → ℕ → ℕ
opened none n = n
opened (some fd) n = suc n

-- A host whose calls that open count one descriptor more where they succeed, whose `close` and `closedir`
-- count one less, and whose other calls count none.
pub record Counts {H S V : Type 0} (host : Host H S V) (descriptors : H → ℕ) : Type 0 where
  pub open_new :
      (path : List ℕ) (mode : ℕ) (h : H)
      → descriptors (host.open_new path mode h).1
        ≡ opened (host.open_new path mode h).0 (descriptors h)
  pub open_rdonly :
      (path : List ℕ) (h : H)
      → descriptors (host.open_rdonly path h).1 ≡ opened (host.open_rdonly path h).0 (descriptors h)
  pub open_wronly :
      (path : List ℕ) (h : H)
      → descriptors (host.open_wronly path h).1 ≡ opened (host.open_wronly path h).0 (descriptors h)
  pub opendir :
      (path : List ℕ) (h : H)
      → descriptors (host.opendir path h).1 ≡ opened (host.opendir path h).0 (descriptors h)
  pub close : (fd : ℕ) (h : H) → descriptors (host.close fd h).1 ≡ descriptors h - 1
  pub closedir : (dp : ℕ) (h : H) → descriptors (host.closedir dp h) ≡ descriptors h - 1
  pub readdir : (dp : ℕ) (h : H) → descriptors (host.readdir dp h).1 ≡ descriptors h
  pub pread :
      (fd size offset : ℕ) (h : H) → descriptors (host.pread fd size offset h).1 ≡ descriptors h
  pub pwrite :
      (fd : ℕ) (buf : Bytes) (size offset : ℕ) (h : H)
      → descriptors (host.pwrite fd buf size offset h).1 ≡ descriptors h
  pub mkfifo :
      (path : List ℕ) (mode : ℕ) (h : H) → descriptors (host.mkfifo path mode h).1 ≡ descriptors h
  pub mknod :
      (path : List ℕ) (mode rdev : ℕ) (h : H)
      → descriptors (host.mknod path mode rdev h).1 ≡ descriptors h

module _ {H S V : Type 0} {host : Host H S V} {descriptors : H → ℕ}
    (c : Counts host descriptors) where
  one_less : (n m : ℕ) → m ≡ suc n → m - 1 ≡ n
  one_less n m e = omega (arith, e)

  read_closing_lem :
      (n fd : ℕ) (buf : Bytes) (r : Option (ℕ × Bytes) × H)
      → descriptors r.1 ≡ suc n
      → descriptors (read_closing host fd buf r).2 ≡ n
  read_closing_lem n fd buf (none, h) e = c.close fd h ∙ one_less n (descriptors h) e
  read_closing_lem n fd buf (some (m, read), h) e = c.close fd h ∙ one_less n (descriptors h) e

  read_opened_lem :
      (n : ℕ) (buf : Bytes) (size offset : ℕ) (r : Option ℕ × H)
      → descriptors r.1 ≡ opened r.0 n
      → descriptors (read_opened host buf size offset r).2 ≡ n
  read_opened_lem n buf size offset (none, h) e = e
  read_opened_lem n buf size offset (some fd, h) e =
      read_closing_lem n fd buf (host.pread fd size offset h) (c.pread fd size offset h ∙ e)

  write_closing_lem :
      (n fd : ℕ) (r : Option ℕ × H)
      → descriptors r.1 ≡ suc n
      → descriptors (write_closing host fd r).1 ≡ n
  write_closing_lem n fd (none, h) e = c.close fd h ∙ one_less n (descriptors h) e
  write_closing_lem n fd (some m, h) e = c.close fd h ∙ one_less n (descriptors h) e

  write_opened_lem :
      (n : ℕ) (buf : Bytes) (size offset : ℕ) (r : Option ℕ × H)
      → descriptors r.1 ≡ opened r.0 n
      → descriptors (write_opened host buf size offset r).1 ≡ n
  write_opened_lem n buf size offset (none, h) e = e
  write_opened_lem n buf size offset (some fd, h) e =
      write_closing_lem n fd (host.pwrite fd buf size offset h) (c.pwrite fd buf size offset h ∙ e)

  node_made_lem :
      (n : ℕ) (r : Option ℕ × H)
      → descriptors r.1 ≡ opened r.0 n
      → descriptors (node_made host r).1 ≡ n
  node_made_lem n (none, h) e = e
  node_made_lem n (some fd, h) e = c.close fd h ∙ one_less n (descriptors h) e

  listed_lem :
      (n : ℕ) (filler : List ℕ → Stat → Bool) (r : Option ℕ × H)
      → descriptors r.1 ≡ opened r.0 n
      → descriptors (listed host filler r).2 ≡ n
  listed_lem n filler (none, h) e = e
  listed_lem n filler (some dp, h) e =
      c.closedir dp (host.readdir dp h).1
      ∙ one_less n (descriptors (host.readdir dp h).1) (c.readdir dp h ∙ e)

  mknod_lem :
      (path : List ℕ) (mode rdev : ℕ) (h : H)
      → descriptors (fuse_mknod host path mode rdev h).1 ≡ descriptors h
  unfolding fuse_mknod
  mknod_lem path mode rdev h = elim (Bool-cases (is_reg mode)) [
    | inl regular ↦
        rw regular
          (node_made_lem (descriptors h) (host.open_new path mode h) (c.open_new path mode h))
    | inr other ↦ elim (Bool-cases (is_fifo mode)) [
      | inl fifo ↦ rw (other, fifo) (c.mkfifo path mode h)
      | inr node ↦ rw (other, node) (c.mknod path mode rdev h)
    ]
  ]

-- On a host whose calls that open a file or a directory count one descriptor more where they succeed,
-- and whose other calls count none but for the one less of `close` and `closedir`, the calls that read,
-- write, make a node and list a directory leave as many descriptors open as there were, whether the
-- calls that they make succeed or fail.
pub fuse_closes :
    {H S V : Type 0} (host : Host H S V) (descriptors : H → ℕ) (path : List ℕ) (buf : Bytes)
    (size offset mode rdev : ℕ) (filler : List ℕ → Stat → Bool) (h : H)
    → Counts host descriptors
    → (descriptors (fuse_read host path buf size offset h).2 ≡ descriptors h)
      × (descriptors (fuse_write host path buf size offset h).1 ≡ descriptors h)
      × (descriptors (fuse_mknod host path mode rdev h).1 ≡ descriptors h)
      × (descriptors (fuse_readdir host filler path h).2 ≡ descriptors h)
unfolding fuse_read fuse_write fuse_readdir
fuse_closes host descriptors path buf size offset mode rdev filler h c = (
  read_opened_lem c (descriptors h) buf size offset (host.open_rdonly path h)
      (c.open_rdonly path h),
  write_opened_lem c (descriptors h) buf size offset (host.open_wronly path h)
      (c.open_wronly path h),
  mknod_lem c path mode rdev h,
  listed_lem c (descriptors h) filler (host.opendir path h) (c.opendir path h),
)
