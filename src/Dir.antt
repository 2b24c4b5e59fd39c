-- ===== src/Dir.antt =====
-- dir.c: looking a name up, listing a directory, and making one.
pub mod Missing
pub mod Walk
pub mod Live
pub mod Readdir
pub mod Lookup
pub mod Added
pub mod Mkdir
use model_lib.Prelude.{
  ℕ, zero, suc, ◌+◌, ◌==◌, if◌then◌else◌, Bool, true, false, List, [], ◌∷◌, ◌++◌, Option, none,
  some, Outcome, ok, out_of_fuel, ◌>>=◌, ◌⊎◌, inl, inr, same_string, ltb,
}
use model_lib.Memory.{Bytes, zeroed}
use model_lib.Volume.{Volume, cluster_size, read_at, get_end_cluster}
use model_lib.Fat.{read_fat_index, write_in_fat_index, find_empty_fat_index}
use model_lib.Entry.Dirent.{
  Dirent, entry_per_data_cluster, is_normal_dir, is_normal_file, attribute, entry_in,
  set_normal_dir_attribute, set_head_cluster_number, set_size, set_name,
}
use model_lib.Entry.Walk.{found, passed, read_cluster, get_first_entry, scan_entries}
use model_lib.Entry.LongName.{take_name}
use model_lib.Entry.Directory.{get_cluster_number, alloc_new_dirent}

-- FILE_DENTRY and DIR_DENTRY.
pub data DentryType : Type 0 where
  file_dentry dir_dentry : DentryType

-- The body of the inner loop of `__mfs_lookup`.
unfoldable pub visit_lookup :
    ℕ → Volume → List ℕ → (cluster_number : ℕ) → Bytes → ℕ → List ℕ → Outcome (DentryType ⊎ List ℕ)
visit_lookup fuel volume file_name current cluster n composited = do
  name ← take_name fuel volume current cluster n composited
  ok (
      if same_string name file_name
      then if is_normal_dir (attribute (entry_in cluster n))
        then inl dir_dentry
        else if is_normal_file (attribute (entry_in cluster n))
        then inl file_dentry
        else inr name
      else inr name)

module _ {S A : Type 0} where
  -- The outer loop of `__mfs_lookup` and `__mfs_readdir`, which read the next cluster at the end of a
  -- round: `buffer` holds the current one. The state is passed on at the end of the chain.
  unfoldable pub walk_read :
      (visit : (cluster_number : ℕ) → Bytes → ℕ → S → Outcome (A ⊎ S))
      → ℕ
      → Volume
      → (end_cluster : ℕ) → Bytes
      → (current : ℕ) → Bool
      → S
      → Outcome (A ⊎ S)
  walk_read visit zero volume end_cluster buffer current flag s = out_of_fuel
  walk_read visit (suc fuel) volume end_cluster buffer current flag s =
      elim (current == end_cluster) [
        | true ↦ ok (inr s)
        | false ↦ get_first_entry flag >>= λ n.
            scan_entries (visit current) (entry_per_data_cluster + 1) buffer n flag s >>= λ r.
            elim r [
              | found a ↦ ok (inl a)
              | passed flag' s' ↦ read_fat_index volume current >>= λ next.
                  read_cluster volume next >>= λ position.
                  walk_read visit fuel volume end_cluster
                    (read_at volume position buffer cluster_size) next flag' s'
            ]
      ]

-- `__mfs_lookup`: `none` is 0.
unfoldable pub lookup : ℕ → Volume → List ℕ → List ℕ → Outcome (Option DentryType)
unfolding visit_lookup walk_read
lookup fuel volume route file_name = do
  end_cluster ← get_end_cluster volume
  current ← get_cluster_number fuel volume route
  position ← read_cluster volume current
  r ←
      walk_read (visit_lookup fuel volume file_name) fuel volume end_cluster
        (read_at volume position zeroed cluster_size) current false []
  elim r [ inl t ↦ ok (some t) | inr _ ↦ ok none ]

-- What `dir_emit` is given of an entry.
pub record Emitted : Type 0 where
  pub name : List ℕ
  pub kind : DentryType

-- The entries that `dir_emit` took, in order, and the contents of `composited_file_name`.
pub record Listing : Type 0 where
  pub composited : List ℕ
  pub emitted : List Emitted

-- The kernel's `dir_emit`: whether there is room for an entry behind those that it took.
abbrev pub DirEmit : Type 0
DirEmit = List Emitted → Emitted → Bool

-- One call of it: `inl` where the listing is broken off.
unfoldable pub emit : DirEmit → Listing → List ℕ → DentryType → Listing ⊎ Listing
emit dir_emit l name kind =
    let e : Emitted = record { name = name; kind = kind } in
    if dir_emit l.emitted e
    then inr (record { composited = name; emitted = l.emitted ++ e ∷ [] })
    else inl (record l { composited = name })

-- The body of the inner loop of `__mfs_readdir`.
unfoldable pub visit_emit :
    DirEmit → ℕ → Volume → (cluster_number : ℕ) → Bytes → ℕ → Listing → Outcome (Listing ⊎ Listing)
unfolding emit
visit_emit dir_emit fuel volume current cluster n l = do
  name ← take_name fuel volume current cluster n l.composited
  ok (
      if is_normal_dir (attribute (entry_in cluster n))
      then emit dir_emit l name dir_dentry
      else if is_normal_file (attribute (entry_in cluster n))
      then emit dir_emit l name file_dentry
      else inr (record l { composited = name }))

-- `__mfs_readdir`, behind the entries that were emitted before. A route of no directory emits none.
unfoldable pub list_dir : DirEmit → ℕ → Volume → List ℕ → List Emitted → Outcome (List Emitted)
unfolding visit_emit walk_read
list_dir dir_emit fuel volume route before = do
  end_cluster ← get_end_cluster volume
  current ← get_cluster_number fuel volume route
  if current == 0 then ok before else (do
    position ← read_cluster volume current
    r ←
        walk_read (visit_emit dir_emit fuel volume) fuel volume end_cluster
          (read_at volume position zeroed cluster_size) current false
          (record { composited = []; emitted = before })
    elim r [ inl l ↦ ok l.emitted | inr l ↦ ok l.emitted ])

-- `mfs_readdir` on a kernel from 3.11 on: its result, and what is emitted behind `.` and `..`.
-- `dots` is `dir_emit_dots`: `none` where it has no room.
unfoldable pub readdir :
    DirEmit
    → (dots : Option (List Emitted)) → ℕ
    → Volume
    → List ℕ
    → (pos : ℕ) → Outcome (ℕ × List Emitted)
unfolding list_dir
readdir dir_emit dots fuel volume path pos = if ltb 0 pos then ok (1, []) else elim dots [
  | none ↦ ok (0, [])
  | some first ↦ do all ← list_dir dir_emit fuel volume path first; ok (1, all)
]

-- The entry of a new directory.
unfoldable pub new_dir_entry : List ℕ → ℕ → Outcome Dirent
unfolding set_head_cluster_number set_size set_name
new_dir_entry dir_name head = do
  d ← set_name dir_name (set_normal_dir_attribute zeroed)
  ok (set_size 0 (set_head_cluster_number head d))

-- `__mfs_mkdir`. The new cluster keeps the bytes that it had.
unfoldable pub mkdir : Bytes → ℕ → Volume → List ℕ → List ℕ → Outcome (Bool × Volume)
unfolding new_dir_entry
mkdir stack fuel volume path dir_name = do
  end_cluster ← get_end_cluster volume
  cluster_number ← get_cluster_number fuel volume path
  head ← find_empty_fat_index stack volume
  new_dentry ← new_dir_entry dir_name head
  (_, volume) ← write_in_fat_index volume head end_cluster
  alloc_new_dirent stack fuel volume cluster_number new_dentry
