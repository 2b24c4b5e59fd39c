-- ===== src/File.antt =====
-- file.c: reading and writing one file, whose clusters the table links, and making a new one.
pub mod Lengths
pub mod Seek
pub mod RoundTrip
pub mod Create
pub mod Append
use model_lib.Prelude.{
  ℕ, zero, suc, ◌+◌, ◌-◌, ◌%◌, ◌^◌, ◌==◌, ltb, leb, if◌then◌else◌, Bool, true, false, ◌&&◌, not,
  List, Outcome, ok, fault, out_of_fuel, ◌>>=◌,
}
use model_lib.Memory.{Bytes, zeroed}
use model_lib.Volume.{Volume, cluster_size, read_at, write_at, get_end_cluster}
use model_lib.Fat.{u32_mod, u128_mod, read_fat_index, write_in_fat_index, find_empty_fat_index}
use model_lib.Entry.Dirent.{
  Dirent, head_cluster_number, size, set_normal_file_attribute, set_head_cluster_number, set_size,
  set_name,
}
use model_lib.Entry.Walk.{read_cluster}
use model_lib.Entry.Directory.{get_cluster_number, alloc_new_dirent}

-- "goto valid positon" of `read_file`: `pos` is an `unsigned long`.
unfoldable pub seek_cluster : ℕ → Volume → (offset pos current : ℕ) → Outcome ℕ
seek_cluster zero volume offset pos current = out_of_fuel
seek_cluster (suc fuel) volume offset pos current = elim (leb (pos + cluster_size) offset) [
  | false ↦ ok current
  | true ↦ read_fat_index volume current >>= λ next.
      seek_cluster fuel volume offset (pos + cluster_size) next
]

-- The length that is left of `len` at the end of the file: sums of `unsigned int` wrap.
unfoldable pub clip_len : (file_size len offset : ℕ) → ℕ
clip_len file_size len offset =
    if ltb file_size ((offset + len) % u32_mod) then (file_size - offset) % u32_mod else len

-- `local_len`, the part of it in the cluster.
unfoldable pub local_len_of : (len cluster_offset : ℕ) → ℕ
local_len_of len cluster_offset =
    if ltb cluster_size ((len + cluster_offset) % u32_mod)
    then cluster_size - cluster_offset
    else len

-- The number of bytes that are said to be read, and `buf` behind the call.
unfoldable pub read_file : ℕ → Volume → Dirent → Bytes → (len offset : ℕ) → Outcome (ℕ × Bytes)
unfolding seek_cluster clip_len local_len_of
read_file fuel volume dentry buf len offset = if ltb (size dentry) offset then ok (0, buf) else (do
  current ← seek_cluster fuel volume offset 0 (head_cluster_number dentry)
  let cluster_offset = offset % cluster_size
  let local_len = local_len_of (clip_len (size dentry) len offset) cluster_offset
  position ← read_cluster volume current
  ok (local_len, read_at volume ((position + cluster_offset) % u128_mod) buf local_len))

-- `valid_len` in `unsigned int`, for `len` that is not 0.
unfoldable pub valid_len_of : (len cluster_offset : ℕ) → ℕ
valid_len_of len cluster_offset =
    if ltb len cluster_size
    then if not (cluster_offset == 0) && ltb cluster_size (cluster_offset + len)
      then (len + u32_mod - (cluster_size - cluster_offset + len)) % u32_mod
      else len
    else cluster_size

-- A cluster more at the end of a chain.
unfoldable pub extend_chain : Bytes → Volume → (end_cluster current : ℕ) → Outcome (ℕ × Volume)
extend_chain stack volume end_cluster current = do
  next ← find_empty_fat_index stack volume
  (_, volume) ← write_in_fat_index volume (current % u32_mod) next
  (_, volume) ← write_in_fat_index volume next end_cluster
  ok (next, volume)

-- "goto valid positon" of `write_file`: the cluster to write. `pos` is an `unsigned int`.
unfoldable pub seek_or_extend :
    Bytes → ℕ → Volume → (end_cluster offset pos current : ℕ) → Outcome (ℕ × Volume)
unfolding extend_chain
seek_or_extend stack zero volume end_cluster offset pos current = out_of_fuel
seek_or_extend stack (suc fuel) volume end_cluster offset pos current =
    elim (leb ((pos + cluster_size) % u32_mod) offset) [
      | false ↦ ok (current, volume)
      | true ↦ read_fat_index volume current >>= λ next. elim (next == end_cluster) [
        | true ↦ extend_chain stack volume end_cluster current
        | false ↦
            seek_or_extend stack fuel volume end_cluster offset ((pos + cluster_size) % u32_mod)
              next
      ]
    ]

-- What `write_file` leaves: its result, `*dentry` and the volume.
pub record Written : Type 0 where
  pub count : ℕ
  pub dentry : Dirent
  pub volume : Volume

-- `buf` holds `len` bytes: a longer write reads past its end.
unfoldable pub write_file : Bytes → ℕ → Volume → Dirent → Bytes → (len offset : ℕ) → Outcome Written
unfolding valid_len_of seek_or_extend set_size
write_file stack fuel volume dentry buf len offset = do
  end_cluster ← get_end_cluster volume
  if len == 0 then ok (record { count = 0; dentry = dentry; volume = volume }) else (do
    let cluster_offset = offset % cluster_size
    let valid_len = valid_len_of len cluster_offset
    (current, volume) ←
        seek_or_extend stack fuel volume (end_cluster % u32_mod) offset 0
          (head_cluster_number dentry)
    position ← read_cluster volume current
    if ltb len valid_len
        then fault
        else ok (record {
          count = valid_len;
          dentry = set_size ((size dentry + valid_len) % 2 ^ 64) dentry;
          volume = write_at volume ((position + cluster_offset) % u128_mod) buf valid_len;
        }))

-- The entry of a new file: `memset`, the attribute, the name, the head cluster and the size.
unfoldable pub new_file_entry : List ℕ → ℕ → Outcome Dirent
unfolding set_head_cluster_number set_size set_name
new_file_entry file_name head = do
  d ← set_name file_name (set_normal_file_attribute zeroed)
  ok (set_size 0 (set_head_cluster_number head d))

-- `__mfs_create`. The entry is put together in two steps of the source, round the search for a free
-- cluster; only the search can end the call in between, without a write.
unfoldable pub create : Bytes → ℕ → Volume → List ℕ → List ℕ → Outcome (Bool × Volume)
unfolding new_file_entry
create stack fuel volume route file_name = do
  end_cluster ← get_end_cluster volume
  searched_cluster_number ← get_cluster_number fuel volume route
  head ← find_empty_fat_index stack volume
  new_dentry ← new_file_entry file_name head
  (_, volume) ← write_in_fat_index volume head end_cluster
  alloc_new_dirent stack fuel volume searched_cluster_number new_dentry
