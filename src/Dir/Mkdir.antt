-- ===== src/Dir/Mkdir.antt =====
-- dir.c and file.c: `__mfs_mkdir` and `__mfs_create` add one live entry to a directory.
use model_lib.Prelude.{ℕ, ◌<◌, ◌≡◌, refl, arith, true, false, some, List, ok, length}
use mathlib.Core.Path.{subst}
use model_lib.Memory.{Bytes}
use model_lib.Volume.{Volume}
use model_lib.Volume.Layout.{layout_end}
use model_lib.Fat.Entries.{write_in_fat_index-ok}
use model_lib.Entry.Dirent.{is_long_file_name, attribute, set_attribute}
use model_lib.Entry.Made.{made, made_file, made_dir, set_name_fits}
use model_lib.Entry.Walk.Chain.{end_mark}
use model_lib.Entry.Walk.Claim.{claimed, contents}
use model_lib.Entry.Walk.First.{first_in-inl}
use model_lib.Entry.Directory.{get_cluster_number}
use model_lib.Entry.Directory.Free.{is_free, alloc_new_dirent-free_slot}
use model_lib.Entry.Directory.New as New
use model_lib.Entry.Directory.New.{Ready, Holds}
use model_lib.Entry.Directory.Slot.{put_at}
use model_lib.File.{create}
use model_lib.File.Create.{create-claimed, plain_file}
use model_lib.Dir.{DentryType, file_dentry, dir_dentry, new_dir_entry, mkdir}
use model_lib.Dir.Added.{Added, listing-Added, listing-contents}
use model_lib.Dir.Live.{kind_of, listing}

new_dir_entry-made :
    (name : List ℕ) (head : ℕ) → length name < 59 → new_dir_entry name head ≡ ok (made 3 name head)
unfolding new_dir_entry made set_attribute
new_dir_entry-made name head h = rw (set_name_fits name _ h) refl

plain_dir : (name : List ℕ) (head : ℕ) → is_long_file_name (attribute (made 3 name head)) ≡ false
plain_dir name head = rw (made_dir name head) refl

mkdir-claimed :
    {stack : Bytes} {fuel s : ℕ} {v : Volume} {c : ℕ} {cs name : List ℕ} {c' n head : ℕ}
    (r : Ready stack fuel s v c cs name c' n head) (path : List ℕ)
    → get_cluster_number fuel v path ≡ ok c
    → mkdir stack fuel v path name ≡ ok (true, put_at s (claimed v head) c' n (made 3 name head))
unfolding mkdir
mkdir-claimed {stack} {fuel} {s} {v} {c} {cs} {name} {c'} {n} {head} r path at =
    rw
      (
        layout_end r.layout,
        at,
        r.free_cluster,
        new_dir_entry-made name head (omega (arith, r.short)),
        write_in_fat_index-ok r.layout head r.cluster.in_fat end_mark
            (omega (arith, r.cluster.in_fat, r.layout.few)),
        alloc_new_dirent-free_slot stack fuel s (claimed v head) c cs (made 3 name head) c' n
            (New.layout1 r) (New.chain1 r r.chain) (New.tidy1 r) r.rounds (New.free_entry1 r),
      )
      refl

-- The directory behind a new entry of a kind.
module _ {stack : Bytes} {fuel s : ℕ} {v : Volume} {c : ℕ} {cs name : List ℕ} {c' n head : ℕ}
    (r : Ready stack fuel s v c cs name c' n head) (kind : ℕ)
    (plain : is_long_file_name (attribute (made kind name head)) ≡ false) where
  new_live :
      (k : DentryType)
      → kind_of (attribute (made kind name head)) ≡ some k
      → Added
          (record { name = name; kind = k })
          (listing s v cs)
          (listing s (New.created r kind plain) cs)
  new_live k e =
      let at =
        first_in-inl (λ x. is_free (contents s (New.v1 r) x)) 0 cs c' n (New.free_entry1 r) in
      subst
        (λ old.
          Added (record { name = name; kind = k }) old (listing s (New.created r kind plain) cs))
        (listing-contents s v (New.v1 r) cs (New.same r))
        (listing-Added (New.layout1 r) c' n (New.in_dir r kind plain) at.1 (made kind name head)
          name plain (New.new_named r kind plain) k (New.chain1 r r.chain) at.0 at.2 e)

-- For a route to a directory with a free entry (on a formatted volume with two-byte indices and a free
-- cluster; entries with short names that end; a name that fits into its field; more rounds than the
-- directory has clusters), `__mfs_create` succeeds, and the live entries of the directory are those
-- that it had, in the same order, and at some place among them a file of the name.
pub create-Added :
    (stack : Bytes) (fuel s : ℕ) (v : Volume) (route : List ℕ) (c : ℕ) (cs name : List ℕ)
    (c' n head : ℕ)
    → Ready stack fuel s v c cs name c' n head
    → get_cluster_number fuel v route ≡ ok c
    → (v' : Volume) × (create stack fuel v route name ≡ ok (true, v'))
      × Holds s v' c cs c' n head (made 1 name head)
      × Added (record { name = name; kind = file_dentry }) (listing s v cs) (listing s v' cs)
create-Added stack fuel s v route c cs name c' n head r at = (
  New.created r 1 (plain_file r),
  create-claimed r route at,
  New.created-Holds r 1 (plain_file r),
  new_live r 1 (plain_file r) file_dentry (rw (made_file name head) refl),
)

-- Under the conditions of `create-Added`, `__mfs_mkdir` succeeds, and the live entries of the directory are those that it
-- had, in the same order, and at some place among them a directory of the name, whose one cluster is the
-- free one, which the table links to nothing.
pub mkdir-Added :
    (stack : Bytes) (fuel s : ℕ) (v : Volume) (path : List ℕ) (c : ℕ) (cs name : List ℕ)
    (c' n head : ℕ)
    → Ready stack fuel s v c cs name c' n head
    → get_cluster_number fuel v path ≡ ok c
    → (v' : Volume) × (mkdir stack fuel v path name ≡ ok (true, v'))
      × Holds s v' c cs c' n head (made 3 name head)
      × Added (record { name = name; kind = dir_dentry }) (listing s v cs) (listing s v' cs)
mkdir-Added stack fuel s v path c cs name c' n head r at = (
  New.created r 3 (plain_dir name head),
  mkdir-claimed r path at,
  New.created-Holds r 3 (plain_dir name head),
  new_live r 3 (plain_dir name head) dir_dentry (rw (made_dir name head) refl),
)
