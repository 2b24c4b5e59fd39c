-- ===== src/Entry/Directory.antt =====
-- entry.c: the functions that look for an entry in a directory, put one into it, and follow a path.
pub mod Find
pub mod Free
pub mod Slot
pub mod Put
pub mod New
pub mod Insert
pub mod Route
pub mod Leads
pub mod Update
pub mod Renew
pub mod Others
use model_lib.Prelude.{
  ℕ, zero, suc, ◌+◌, ◌*◌, ◌%◌, ◌==◌, if◌then◌else◌, Bool, true, false, ◌||◌, List, [], ◌∷◌, Option,
  none, some, Outcome, ok, out_of_fuel, ◌>>=◌, ◌⊎◌, inl, inr, same_string,
}
use model_lib.Memory.{Bytes, zeroed, copy_to}
use model_lib.Volume.{Volume, cluster_size, read_at, write_at, get_end_cluster}
use model_lib.Fat.{u32_mod, read_fat_index, write_in_fat_index, find_empty_fat_index}
use model_lib.Util.{strtok_r, scan_token}
use model_lib.Entry.Paths.{separator}
use model_lib.Entry.Dirent.{
  Dirent, dirent_size, entry_per_data_cluster, is_normal_dir, is_normal_file, is_deleted_file,
  is_deleted_dir, attribute, head_cluster_number, entry_in,
}
use model_lib.Entry.Walk.{found, passed, read_cluster, get_first_entry, scan_entries, walk_clusters}
use model_lib.Entry.LongName.{take_name}

-- The body of the inner loop of `get_dentry`.
unfoldable pub visit_file :
    ℕ
    → Volume
    → List ℕ
    → (cluster_number position : ℕ) → Bytes
    → ℕ
    → List ℕ
    → Outcome (Dirent ⊎ List ℕ)
visit_file fuel volume file_name current position cluster n composited =
    if is_normal_file (attribute (entry_in cluster n))
    then (do
      name ← take_name fuel volume current cluster n composited
      if same_string file_name name then ok (inl (entry_in cluster n)) else ok (inr name))
    else ok (inr composited)

-- `none` is FALSE: `*searched_dir_entry` is left as it was.
unfoldable pub get_dentry : ℕ → Volume → ℕ → List ℕ → Outcome (Option Dirent)
get_dentry fuel volume dir_cluster_number file_name = do
  end_cluster ← get_end_cluster volume
  r ←
      walk_clusters (visit_file fuel volume file_name) fuel volume end_cluster zeroed 0
        dir_cluster_number false []
  elim r [ inl d ↦ ok (some d) | inr _ ↦ ok none ]

-- The body of the inner loop of `alloc_new_dirent`: the position of a free entry.
unfoldable pub visit_free :
    (cluster_number position : ℕ) → Bytes → ℕ → Unit {0} → Outcome (ℕ ⊎ Unit {0})
visit_free current position cluster n s =
    if is_deleted_file (attribute (entry_in cluster n))
      || is_deleted_dir (attribute (entry_in cluster n))
    then ok (inl (position + n * dirent_size))
    else ok (inr s)

-- The end of `alloc_new_dirent`: a cluster more. The numbers go into `u32_t` parameters.
unfoldable pub add_cluster :
    Bytes → Volume → (end_cluster before : ℕ) → Dirent → Outcome (Bool × Volume)
add_cluster stack volume end_cluster before dirent = do
  current ← find_empty_fat_index stack volume
  (_, volume) ← write_in_fat_index volume (before % u32_mod) current
  (_, volume) ← write_in_fat_index volume current end_cluster
  position ← read_cluster volume current
  ok (true, write_at volume position dirent dirent_size)

unfoldable pub alloc_new_dirent : Bytes → ℕ → Volume → ℕ → Dirent → Outcome (Bool × Volume)
unfolding visit_free add_cluster
alloc_new_dirent stack fuel volume dir_cluster_number dirent = do
  end_cluster ← get_end_cluster volume
  r ← walk_clusters visit_free fuel volume end_cluster zeroed 0 dir_cluster_number false tt
  elim r [
    | inl position ↦ ok (true, write_at volume position dirent dirent_size)
    | inr before ↦ add_cluster stack volume end_cluster before dirent
  ]

-- The body of the inner loop of `alloc_new_entry`: the position and the contents of the cluster to
-- write.
unfoldable pub visit_update :
    ℕ
    → Volume
    → List ℕ
    → Dirent
    → (cluster_number position : ℕ) → Bytes
    → ℕ
    → List ℕ
    → Outcome ((ℕ × Bytes) ⊎ List ℕ)
visit_update fuel volume file_name dentry current position cluster n composited =
    if is_normal_file (attribute (entry_in cluster n))
    then (do
      name ← take_name fuel volume current cluster n composited
      if same_string file_name name
          then ok (inl (position, copy_to cluster (n * dirent_size) dentry dirent_size))
          else ok (inr name))
    else ok (inr composited)

unfoldable pub alloc_new_entry : ℕ → Volume → ℕ → List ℕ → Dirent → Outcome (Bool × Volume)
alloc_new_entry fuel volume dir_cluster_number file_name dentry = do
  end_cluster ← get_end_cluster volume
  r ←
      walk_clusters (visit_update fuel volume file_name dentry) fuel volume end_cluster zeroed 0
        dir_cluster_number false []
  elim r [
    | inl (position, cluster) ↦ ok (true, write_at volume position cluster cluster_size)
    | inr _ ↦ ok (false, volume)
  ]

-- The body of the inner loop of `get_cluster_number`: the head cluster of the directory of that
-- name, with the contents of `composited_file_name`.
unfoldable pub visit_dir :
    ℕ
    → Volume
    → List ℕ
    → (cluster_number : ℕ) → Bytes
    → ℕ
    → List ℕ
    → Outcome ((ℕ × List ℕ) ⊎ List ℕ)
visit_dir fuel volume dir_name current cluster n composited =
    if is_normal_dir (attribute (entry_in cluster n))
    then (do
      name ← take_name fuel volume current cluster n composited
      if same_string dir_name name
          then ok (inl (head_cluster_number (entry_in cluster n), name))
          else ok (inr name))
    else ok (inr composited)

abbrev pub slash : List ℕ
slash = separator ∷ []

-- The loop of `get_cluster_number`. `buffer` holds the current cluster, `last` what `strtok` keeps.
-- A `break` leaves the flag as it was at the first entry, which is FALSE.
unfoldable pub follow :
    ℕ
    → Volume
    → (end_cluster : ℕ) → Bytes
    → (current : ℕ) → Bool
    → List ℕ
    → (seperated_path last : Option (List ℕ)) → Outcome ℕ
unfolding visit_dir
follow zero volume end_cluster buffer current flag composited tok last = out_of_fuel
follow (suc fuel) volume end_cluster buffer current flag composited none last = ok current
follow (suc fuel) volume end_cluster buffer current flag composited (some dir_name) last =
    get_first_entry flag >>= λ n.
    scan_entries (visit_dir fuel volume dir_name current) (entry_per_data_cluster + 1) buffer n flag
      composited
    >>= λ r. elim r [
      | found (head, name) ↦ read_cluster volume head >>= λ position.
          follow fuel volume end_cluster (read_at volume position buffer cluster_size) head flag
            name (strtok_r slash last).0 (strtok_r slash last).1
      | passed flag' composited' ↦ read_fat_index volume current >>= λ next.
          elim (next == end_cluster) [
            | true ↦ ok 0
            | false ↦ read_cluster volume next >>= λ position.
                follow fuel volume end_cluster (read_at volume position buffer cluster_size) next
                  flag' composited' (some dir_name) last
          ]
    ]

-- `strtok(path, "/")`, then the loop from the root directory, cluster 2.
unfoldable pub get_cluster_number : ℕ → Volume → List ℕ → Outcome ℕ
unfolding follow
get_cluster_number fuel volume path = do
  end_cluster ← get_end_cluster volume
  position ← read_cluster volume 2
  follow fuel volume end_cluster (read_at volume position zeroed cluster_size) 2 false []
      (strtok_r slash (some path)).0 (strtok_r slash (some path)).1

-- What the caller's buffer holds as a string behind `get_cluster_number`: `strtok` has put a NUL
-- behind the first token.
unfoldable pub path_after : List ℕ → List ℕ
path_after [] = []
path_after (c ∷ s) = if c == separator then c ∷ path_after s else (scan_token slash (c ∷ s)).0
