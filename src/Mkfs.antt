-- ===== src/Mkfs.antt =====
-- progs/mkfs.c and progs/mkfs.h: making a volume. The calls of stdio move in the file as those of the
-- kernel do. progs/mdbfs.c has the same functions, but for `create_volume`, which there goes on to copy
-- ./test.db into the new volume by `create_dummy`.
pub mod Superblock
pub mod Zeros
pub mod Image
pub mod Format
use model_lib.Prelude.{
  ℕ, zero, suc, ◌+◌, ◌-◌, ◌*◌, ◌/◌, ◌%◌, ◌^◌, ltb, leb, ◌==◌, if◌then◌else◌, Bool, true, false,
  List, [], ◌∷◌, length, Option, none, some, Outcome, ok, fault, halt, out_of_fuel, ◌>>=◌,
}
use model_lib.Memory.{Bytes, zeroed, bytes_of, copy_to, store_string}
use model_lib.Volume.{
  Volume, sb_size, bytes_per_sector, sectors_per_cluster, sb_of, seek_volume, write_volume,
  write_at, get_end_cluster,
}
use model_lib.Fat.{u32_mod, u128_mod, start_position, end_position}

-- A product of `n` times 256 in `int`, which the compiler wraps.
abbrev int_256 : ℕ → ℕ
int_256 n = 256 ^ n % u32_mod

-- The bytes of an index, by the number of clusters.
unfoldable pub mfs_fat_index_size : ℕ → ℕ
mfs_fat_index_size total_cluster_size =
    if ltb total_cluster_size 256
    then 1
    else if ltb total_cluster_size (256 * 256)
    then 2
    else if ltb total_cluster_size (int_256 4)
    then 4
    else if ltb total_cluster_size (int_256 8)
    then 8
    else if ltb total_cluster_size (int_256 16)
    then 16
    else 0

-- COUNT_TOTAL_SECTOR
abbrev pub count_total_sector : ℕ → ℕ
count_total_sector volume_size = volume_size / bytes_per_sector

-- COUNT_TOTAL_CLUSTER
abbrev pub count_total_cluster : ℕ → ℕ
count_total_cluster total_sector_size = total_sector_size / sectors_per_cluster

-- SECTORS_OF_SUPER_BLK
abbrev pub sectors_of_super_blk : ℕ
sectors_of_super_blk = sb_size / bytes_per_sector

-- `(u16_t) SECTORS_OF_FAT(...)`: the cast stands before the parenthesis that opens the macro's text, and
-- so is one of the product, which it cuts to 16 bits ahead of the division.
unfoldable pub sectors_of_fat : ℕ → ℕ
unfolding mfs_fat_index_size
sectors_of_fat total_cluster_size =
    total_cluster_size * mfs_fat_index_size total_cluster_size % u128_mod % 65536 / bytes_per_sector

-- One assignment to a field of `*sb`.
pub record Field : Type 0 where
  pub offset : ℕ
  pub width : ℕ
  pub value : ℕ

unfoldable pub store_fields : List Field → Bytes → Bytes
store_fields [] m = m
store_fields (f ∷ fs) m = store_fields fs (copy_to m f.offset (bytes_of f.value) f.width)

abbrev field : (offset width value : ℕ) → Field
field offset width value = record { offset = offset; width = width; value = value }

-- The assignments of `initialize_sb`, in their order.
abbrev pub sb_fields : (total_sectors : ℕ) → List Field
sb_fields total_sectors =
    let fat_sectors = sectors_of_fat (count_total_cluster total_sectors) in
    field 20 2 bytes_per_sector
    ∷ field 22 1 sectors_per_cluster
    ∷ field 23 1 2
    ∷ field 24 2 fat_sectors
    ∷ field 28 4 0
    ∷ field 32 1 1
    ∷ field 33 1 0
    ∷ field 34 2 16
    ∷ field 36 4 sectors_of_super_blk
    ∷ field 40 4 (sectors_of_super_blk + fat_sectors * 2)
    ∷ field 44 2 (mfs_fat_index_size (count_total_cluster total_sectors))
    ∷ field 48 8 0
    ∷ field 56 8 total_sectors
    ∷ field 64 1 0
    ∷ field 72 8 0
    ∷ field 80 8 (count_total_cluster total_sectors)
    ∷ field 88 1 0
    ∷ field 89 416 0
    ∷ field 506 2 0
    ∷ []

-- The character of the serial number for `rand()`.
abbrev pub serial_char : ℕ → ℕ
serial_char r = let n = r % 36 in if ltb n 10 then n + 0x30 else n - 10 + 0x41

-- `rand i` is what the call of round `i` gives. A name that does not fit into the superblock runs
-- over the stack.
unfoldable pub initialize_sb :
    (rand : ℕ → ℕ) → Bytes → (volume_name : List ℕ) → (volume_size : ℕ) → Outcome Bytes
unfolding store_fields
initialize_sb rand sb volume_name volume_size =
    if ltb sb_size (length volume_name + 1)
    then fault
    else ok (
        store_fields (sb_fields (count_total_sector volume_size))
          (copy_to (store_string sb 0 volume_name) 11 (λ i. serial_char (rand i)) 8))

-- The loop of `make_data_cluster`, over the round `i`.
unfoldable pub write_zeros : ℕ → Volume → (cluster_size count i : ℕ) → Outcome Volume
write_zeros zero volume cluster_size count i = out_of_fuel
write_zeros (suc fuel) volume cluster_size count i = elim (leb i count) [
  | false ↦ ok volume
  | true ↦
      write_zeros fuel (write_volume volume zeroed cluster_size) cluster_size count
        ((i + 1) % u32_mod)
]

-- From where the file stands on.
unfoldable pub make_data_cluster : ℕ → Volume → (volume_size cluster_size : ℕ) → Outcome Volume
unfolding write_zeros
make_data_cluster fuel volume volume_size cluster_size =
    if cluster_size == 0
    then fault
    else write_zeros fuel volume cluster_size (volume_size / cluster_size) 1

-- `sb` is the superblock in memory. Always `sizeof(u32_t)` bytes are written.
unfoldable pub make_fat_index : Volume → (sb : Bytes) → (index size : ℕ) → Outcome Volume
unfolding sb_of
make_fat_index volume sb index size =
    let s = sb_of sb in
    let index_position =
      (start_position s + s.fat_index_size * ((index + u32_mod - 2) % u32_mod)) % u32_mod in
    if ltb (end_position s) index_position
    then halt
    else ok (write_at volume index_position (bytes_of size) 4)

unfoldable pub make_fat : Volume → (sb : Bytes) → Outcome Volume
unfolding make_fat_index
make_fat volume sb = do end_cluster ← get_end_cluster volume; make_fat_index volume sb 2 end_cluster

-- The volume is not NULL; a name that is NULL is the empty one.
unfoldable pub create_volume :
    (rand : ℕ → ℕ)
    → ℕ
    → Volume
    → (volume_name : List ℕ) → (volume_size cluster_size : ℕ) → Outcome Volume
unfolding initialize_sb make_data_cluster make_fat
create_volume rand fuel new_volume volume_name volume_size cluster_size = do
  volume ← make_data_cluster fuel new_volume volume_size cluster_size
  sb ← initialize_sb rand zeroed volume_name volume_size
  make_fat (write_at volume 0 sb sb_size) sb

-- A file that was just made.
abbrev pub new_file : Volume
new_file = record { bytes = zeroed; size = 0; f_pos = 0 }

-- Whether there is a file of the name already, and whether one can be made.
unfoldable pub create_loopback : (exists can_create : Bool) → Outcome Volume
create_loopback true can_create = halt
create_loopback false false = halt
create_loopback false true = ok new_file

-- The device stands at its end; `none` is one that cannot be opened, or no name for it.
unfoldable pub open_device : Option Volume → Outcome (Volume × ℕ)
open_device none = halt
open_device (some device) = ok (record device { f_pos = device.size }, device.size)

-- What the options of the command line set. A size is 0 where it is not given.
pub record Options : Type 0 where
  pub auto_create_loopback : Bool
  pub volume_name : Option (List ℕ)
  pub volume_size : ℕ
  pub cluster_size : ℕ

abbrev or_empty : Option (List ℕ) → List ℕ
or_empty none = []
or_empty (some name) = name

-- The volume and its size.
unfoldable pub open_target :
    (exists can_create : Bool) → (device : Option Volume) → Options → Outcome (Volume × ℕ)
unfolding create_loopback open_device
open_target exists can_create device o =
    if o.auto_create_loopback
    then elim o.volume_name [
      | none ↦ halt
      | some name ↦
          if o.volume_size == 0
          then halt
          else (do volume ← create_loopback exists can_create; ok (volume, o.volume_size))
    ]
    else open_device device

-- `main`, behind the reading of the options.
unfoldable pub main :
    (rand : ℕ → ℕ)
    → ℕ
    → (exists can_create : Bool) → (device : Option Volume) → Options
    → Outcome Volume
unfolding create_volume open_target
main rand fuel exists can_create device o = do
  (volume, volume_size) ← open_target exists can_create device o
  if o.cluster_size == 0
      then halt
      else create_volume rand fuel volume (or_empty o.volume_name) volume_size o.cluster_size
