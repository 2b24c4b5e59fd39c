-- ===== src/Mount/Outcomes.antt =====
-- super.c: how a mount ends.
use model_lib.Prelude.{
  ℕ, ◌+◌, ◌≡◌, ◌⊎◌, inl, inr, refl, Bool, true, false, List, Option, none, some, ok, ap,
}
use model_lib.Volume.{Volume}
use model_lib.Namei.Inodes.{Inode, mfs_get_inode, s_ifdir, s_ifmt, dir_operations, or_bits}
use model_lib.Mount.{Limits, SuperBlock, mfsfs_magic, mfs_fill_super, open_volume}

-- What a mount that succeeds has: the device, and the root's inode, which is that of a directory.
pub record Mounted (filp_open : List ℕ → Option Volume) (inode : Option Inode)
    (d_make_root : Inode → Bool × ℕ) (options : Option (List ℕ)) (sb : SuperBlock) : Type 0 where
  pub name : List ℕ
  pub volume : Volume
  pub new : Inode
  pub root : Inode
  pub given : options ≡ some name
  pub opened : filp_open name ≡ some volume
  pub made : inode ≡ some new
  pub dentry : (d_make_root root).0 ≡ true
  pub magic : sb.s_magic ≡ mfsfs_magic
  pub fs_info : sb.s_fs_info ≡ some volume
  pub root_is : sb.s_root ≡ some root
  pub directory : s_ifmt root.i_mode ≡ s_ifdir
  pub operations : root.operations ≡ dir_operations
  pub link : root.i_nlink ≡ new.i_nlink + 1

-- What the kernel says of `d_make_root`: it drops the reference to the inode where it fails.
abbrev pub DropsOnFailure : (Inode → Bool × ℕ) → Type 0
DropsOnFailure d_make_root =
    (i : Inode) → (d_make_root i ≡ (true, 0)) ⊎ (d_make_root i ≡ (false, 1))

Option-cases : {A : Type 0} (o : Option A) → (o ≡ none) ⊎ ((a : A) × (o ≡ some a))
Option-cases none = inl refl
Option-cases (some a) = inr (a, refl)

abbrev root_of : Inode → Inode
root_of new = record new {
  i_mode = or_bits s_ifdir 0o755;
  i_size = 0;
  i_gid = 0;
  operations = dir_operations;
  i_nlink = new.i_nlink + 1;
}

-- How a mount ends that answers `r`.
abbrev pub Ends :
    (List ℕ → Option Volume)
    → Option Inode
    → (Inode → Bool × ℕ)
    → Option (List ℕ)
    → Bool × SuperBlock × ℕ
    → Type 0
Ends filp_open inode d_make_root options (true, sb, dropped) =
    Mounted filp_open inode d_make_root options sb × (dropped ≡ 0)
Ends filp_open inode d_make_root options (false, sb, dropped) = (dropped ≡ 0) ⊎ (dropped ≡ 2)

-- With memory for a `struct mfs_volume`, and a `d_make_root` that drops its reference where it fails, a
-- mount returns. Where it answers 0, there were a device name, the device, an inode and a dentry for the
-- root, the super block holds the volume and the root, and the root is a directory with one link more; no
-- reference to its inode was dropped. Where it answers -ENOMEM, none was dropped or two.
pub mfs_fill_super-Ends :
    (limits : Limits) (filp_open : List ℕ → Option Volume) (inode : Option Inode)
    (d_make_root : Inode → Bool × ℕ) (sb : SuperBlock) (options : Option (List ℕ))
    → DropsOnFailure d_make_root
    → (r : Bool × SuperBlock × ℕ) × (mfs_fill_super limits true filp_open inode d_make_root sb
          options
        ≡ ok r)
      × Ends filp_open inode d_make_root options r
unfolding mfs_fill_super open_volume mfs_get_inode
mfs_fill_super-Ends limits filp_open inode d_make_root sb none drops = (_, refl, inl refl)
mfs_fill_super-Ends limits filp_open none d_make_root sb (some name) drops =
    elim (Option-cases (filp_open name)) [
      | inl missing ↦ rw missing (_, refl, inl refl)
      | inr (v, opened) ↦ rw opened (_, refl, inl refl)
    ]
mfs_fill_super-Ends limits filp_open (some new) d_make_root sb (some name) drops =
    elim (Option-cases (filp_open name)) [
      | inl missing ↦ rw missing (_, refl, inl refl)
      | inr (v, opened) ↦ elim (drops (root_of new)) [
        | inl e ↦
            rw (opened, e)
              (
                _,
                refl,
                (
                  record {
                    name = name;
                    volume = v;
                    new = new;
                    root = root_of new;
                    given = refl;
                    opened = opened;
                    made = refl;
                    dentry = ap (λ (p : Bool × ℕ). p.0) e;
                    magic = refl;
                    fs_info = refl;
                    root_is = refl;
                    directory = refl;
                    operations = refl;
                    link = refl;
                  },
                  ap (λ (p : Bool × ℕ). p.1) e,
                ),
              )
        | inr e ↦ rw (opened, e) (_, refl, inr (ap (λ (p : Bool × ℕ). p.1 + 1) e))
      ]
    ]
