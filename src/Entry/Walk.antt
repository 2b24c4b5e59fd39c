-- ===== src/Entry/Walk.antt =====
-- entry.c: how the directory functions go through a directory, entry by entry and cluster by cluster.
-- `get_dentry`, `alloc_new_dirent` and `alloc_new_entry` share this pair of loops in the source, each
-- with its own work at an entry, which is `visit` here.
pub mod Clusters
pub mod Chain
pub mod Slots
pub mod First
pub mod Once
pub mod Kept
pub mod Claim
pub mod Extend
pub mod Spare
use model_lib.Prelude.{
  ℕ, zero, suc, ◌+◌, ◌-◌, ◌*◌, ◌%◌, leb, ◌==◌, if◌then◌else◌, Bool, true, false, Outcome, ok, fault,
  out_of_fuel, ◌>>=◌, ◌⊎◌, inl, inr,
}
use model_lib.Memory.{Bytes}
use model_lib.Volume.{Volume, cluster_size, read_sb, read_at}
use model_lib.Fat.{u32_mod, u128_mod, read_fat_index}
use model_lib.Entry.Dirent.{entry_per_data_cluster, is_long_file_name, attribute, entry_in}

-- `read_cluster` gives the position of a cluster, in `u128`.
unfoldable pub read_cluster : Volume → ℕ → Outcome ℕ
read_cluster volume cluster_number = do
  sb ← read_sb volume
  ok (
      (sb.data_cluster_sector * sb.bytes_per_sector % u32_mod
        + (cluster_number + u128_mod - 2) % u128_mod * cluster_size % u128_mod)
      % u128_mod)

-- `get_first_entry`: the number of the entry. With the flag set it reads through a NULL pointer.
abbrev pub get_first_entry : Bool → Outcome ℕ
get_first_entry has_long_file_name_next_entry =
    if has_long_file_name_next_entry then fault else ok 0

-- `sizeof(struct mfs_LFN_entry)`
abbrev pub lfn_size : ℕ
lfn_size = 32

-- The `do` loop over the entries of a long name: `inl` is the number at which the cluster ended.
unfoldable pub skip_long_name : ℕ → Bytes → ℕ → Outcome (ℕ ⊎ ℕ)
skip_long_name zero cluster n = out_of_fuel
skip_long_name (suc fuel) cluster n =
    let rest : Outcome (ℕ ⊎ ℕ) = skip_long_name fuel cluster (n + 1) in
    if leb entry_per_data_cluster (n + 1)
    then ok (inl (n + 1))
    else if cluster ((n + 1) * lfn_size) == 0x40
    then ok (inr (n + 1))
    else rest

-- The number of the next entry, and `*has_long_file_name_next_entry`, which only the first of the two
-- returns of NULL sets: the other assigns to the pointer. NULL goes with the number 8.
unfoldable pub get_next_entry : Bytes → ℕ → Bool → Outcome (ℕ × Bool)
unfolding skip_long_name
get_next_entry cluster n flag =
    if is_long_file_name (attribute (entry_in cluster n))
    then (do
      r ← skip_long_name entry_per_data_cluster cluster n
      elim r [ inl m ↦ ok (m, true) | inr m ↦ ok (m + 1, flag) ])
    else ok (n + 1, flag)

-- How a scan of one cluster ends: by a `return` in the loop, or at the end of the cluster.
pub data Scanned (S A : Type 0) : Type 0 where
  found : A → Scanned S A
  passed : Bool → S → Scanned S A

module _ {S A : Type 0} where
  -- `while(current_entry_number != entry_per_data_cluster)`
  unfoldable pub scan_entries :
      (visit : Bytes → ℕ → S → Outcome (A ⊎ S)) → ℕ → Bytes → ℕ → Bool → S → Outcome (Scanned S A)
  unfolding get_next_entry
  scan_entries visit zero cluster n flag s = out_of_fuel
  scan_entries visit (suc fuel) cluster n flag s = elim (n == entry_per_data_cluster) [
    | true ↦ ok (passed flag s)
    | false ↦ visit cluster n s >>= λ r. elim r [
      | inl a ↦ ok (found a)
      | inr s' ↦
          get_next_entry cluster n flag >>= λ next. scan_entries visit fuel cluster next.0 next.1 s'
    ]
  ]

  -- `while(current_cluster_number != end_cluster)`: what a `return` gives, or the number of the last
  -- cluster that was read. `before` is that number so far, and `buffer` the cluster read before.
  unfoldable pub walk_clusters :
      (visit : (cluster_number position : ℕ) → Bytes → ℕ → S → Outcome (A ⊎ S))
      → ℕ
      → Volume
      → (end_cluster : ℕ) → Bytes
      → (before current : ℕ) → Bool
      → S
      → Outcome (A ⊎ ℕ)
  walk_clusters visit zero volume end_cluster buffer before current flag s = out_of_fuel
  walk_clusters visit (suc fuel) volume end_cluster buffer before current flag s =
      elim (current == end_cluster) [
        | true ↦ ok (inr before)
        | false ↦ read_cluster volume current >>= λ position.
            let cluster = read_at volume position buffer cluster_size in
            get_first_entry flag >>= λ n.
            scan_entries (visit current position) (entry_per_data_cluster + 1) cluster n flag s
            >>= λ r. elim r [
              | found a ↦ ok (inl a)
              | passed flag' s' ↦ read_fat_index volume current >>= λ next.
                  walk_clusters visit fuel volume end_cluster cluster current next flag' s'
            ]
      ]
