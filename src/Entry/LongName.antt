-- ===== src/Entry/LongName.antt =====
-- dir.c: `composite_long_file_name`.
use model_lib.Prelude.{
  ℕ, zero, suc, ◌+◌, ◌*◌, ltb, leb, ◌==◌, if◌then◌else◌, Bool, true, false, not, List, ◌++◌, none,
  some, Outcome, ok, fault, out_of_fuel, ◌>>=◌, ◌⊎◌, inl, inr, length,
}
use model_lib.Memory.{Bytes, zeroed, c_string}
use model_lib.Volume.{Volume, cluster_size, read_at, get_end_cluster, get_bad_cluster}
use model_lib.Fat.{read_fat_index}
use model_lib.Entry.Dirent.{
  entry_per_data_cluster, is_long_file_name, attribute, entry_in, entry_name,
}
use model_lib.Entry.Walk.{read_cluster, lfn_size}

-- `strcat(composited_file_name, entry->name)` into 128 bytes; the name stands behind the `id`.
unfoldable pub add_part : Bytes → ℕ → List ℕ → Outcome (List ℕ)
add_part cluster n name = elim (c_string 128 cluster (n * lfn_size + 1)) [
  | none ↦ fault
  | some part ↦ if leb 128 (length (name ++ part)) then fault else ok (name ++ part)
]

-- The inner loop: `inl` is the name at `return TRUE`, `inr` the name and the entry number behind it.
unfoldable pub composite_cluster : ℕ → Bytes → ℕ → List ℕ → Outcome (List ℕ ⊎ (List ℕ × ℕ))
unfolding add_part
composite_cluster zero cluster n name = out_of_fuel
composite_cluster (suc fuel) cluster n name = elim (ltb n entry_per_data_cluster) [
  | false ↦ ok (inr (name, n))
  | true ↦ add_part cluster n name >>= λ name'. elim (cluster (n * lfn_size) == 0x40) [
    | true ↦ ok (inl name')
    | false ↦ composite_cluster fuel cluster (n + 1) name'
  ]
]

-- The outer loop. The entry number is not set back at the next cluster.
unfoldable pub composite_walk :
    ℕ
    → Volume
    → (end_cluster bad_cluster : ℕ) → Bytes
    → (current n : ℕ) → List ℕ
    → Outcome (Bool × List ℕ)
unfolding composite_cluster
composite_walk zero volume end_cluster bad_cluster buffer current n name = out_of_fuel
composite_walk (suc fuel) volume end_cluster bad_cluster buffer current n name =
    elim (current == end_cluster) [
      | true ↦ ok (false, name)
      | false ↦ read_cluster volume current >>= λ position.
          let cluster = read_at volume position buffer cluster_size in
          composite_cluster (entry_per_data_cluster + 1) cluster n name >>= λ r. elim r [
            | inl name' ↦ ok (true, name')
            | inr (name', n') ↦ read_fat_index volume current >>= λ next.
                elim (next == bad_cluster) [
                  | true ↦ ok (false, name')
                  | false ↦ composite_walk fuel volume end_cluster bad_cluster cluster next n' name'
                ]
          ]
    ]

-- The entry is looked for in the local `cluster` before anything is read into it. The result is the
-- `BOOL` with the contents of `composited_file_name`.
unfoldable pub composite_long_file_name :
    ℕ → Volume → (dir_cluster_number long_file_entry_number : ℕ) → List ℕ → Outcome (Bool × List ℕ)
unfolding composite_walk
composite_long_file_name fuel volume dir_cluster_number n name = do
  end_cluster ← get_end_cluster volume
  bad_cluster ← get_bad_cluster volume
  if not (is_long_file_name (attribute (entry_in zeroed n))) then ok (false, name) else (do
    name' ← entry_name zeroed n
    composite_walk fuel volume end_cluster bad_cluster zeroed dir_cluster_number (n + 1) name')

-- The name at an entry, as every loop over a directory takes it: `composited` is what the buffer
-- holds from the entry before.
unfoldable pub take_name :
    ℕ → Volume → (current_cluster_number : ℕ) → Bytes → ℕ → List ℕ → Outcome (List ℕ)
unfolding composite_long_file_name
take_name fuel volume current cluster n composited =
    if is_long_file_name (attribute (entry_in cluster n))
    then (do (done, name) ← composite_long_file_name fuel volume current n composited; ok name)
    else entry_name cluster n
