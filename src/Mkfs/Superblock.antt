-- ===== src/Mkfs/Superblock.antt =====
-- progs/mkfs.c: what `initialize_sb` leaves in the superblock.
use model_lib.Prelude.{
  ℕ, ◌+◌, ◌*◌, ◌/◌, ◌%◌, ◌<◌, ◌≡◌, refl, arith, List, [], ◌∷◌, length, ok, ltb, le→ltb, false, zero,
  suc,
}
use model_lib.Memory.{Bytes, zeroed, u32_at, bytes_of, copy_to, store_string, string_bytes}
use model_lib.Memory.Laws.{copy_to-byte}
use model_lib.Volume.{SbInfo, sb_of}
use model_lib.Fat.{u128_mod}
use model_lib.Mkfs.{
  Field, store_fields, sb_fields, serial_char, initialize_sb, mfs_fat_index_size, sectors_of_fat,
  count_total_sector, count_total_cluster,
}

-- The superblock behind the name and the serial number.
abbrev pub sb_image : (rand : ℕ → ℕ) → List ℕ → ℕ → Bytes
sb_image rand volume_name volume_size =
    store_fields (sb_fields (count_total_sector volume_size))
      (copy_to (store_string zeroed 0 volume_name) 11 (λ i. serial_char (rand i)) 8)

pub initialize_sb-image :
    (rand : ℕ → ℕ) (volume_name : List ℕ) (volume_size : ℕ)
    → length volume_name < 512
    → initialize_sb rand zeroed volume_name volume_size ≡ ok (sb_image rand volume_name volume_size)
unfolding initialize_sb
initialize_sb-image rand volume_name volume_size h =
    let fits : ltb 512 (length volume_name + 1) ≡ false = le→ltb _ _ (omega arith) in rw fits

store_fields-byte :
    (fs : List Field) (m : Bytes) → ((i : ℕ) → m i < 256) → (i : ℕ) → store_fields fs m i < 256
unfolding store_fields
store_fields-byte [] m h = h
store_fields-byte (f ∷ fs) m h =
    store_fields-byte fs _ (copy_to-byte m f.offset (bytes_of f.value) f.width h (λ i. omega arith))

-- A text of bytes.
unfoldable pub IsText : List ℕ → Type 0
IsText [] = Unit {0}
IsText (c ∷ s) = (c < 256) × IsText s

string_bytes-byte : (s : List ℕ) → IsText s → (i : ℕ) → string_bytes s i < 256
unfolding IsText
string_bytes-byte [] h i = omega arith
string_bytes-byte (c ∷ s) (k, h) zero = k
string_bytes-byte (c ∷ s) (k, h) (suc i) = string_bytes-byte s h i

pub sb_image-byte :
    (rand : ℕ → ℕ) (volume_name : List ℕ) (volume_size : ℕ)
    → IsText volume_name
    → (i : ℕ) → sb_image rand volume_name volume_size i < 256
sb_image-byte rand volume_name volume_size text =
    store_fields-byte (sb_fields (count_total_sector volume_size)) _ (
      copy_to-byte _ 11 _ 8
        (copy_to-byte zeroed 0 (string_bytes volume_name) _ (λ i. omega arith)
          (string_bytes-byte volume_name text))
        (λ i. ground arith))

two_bytes : (n : ℕ) → bytes_of n 0 + 256 * bytes_of n 1 ≡ n % 65536
two_bytes n = omega arith

two_bytes_small : (n : ℕ) → n < 128 → bytes_of n 0 + 256 * bytes_of n 1 ≡ n
two_bytes_small n h = omega arith

four_bytes_small : (n : ℕ) → n < 128 → u32_at (bytes_of (1 + n * 2)) 0 ≡ 1 + n * 2
four_bytes_small n h = omega arith

cut_small : (n : ℕ) → n % 65536 / 512 < 128
cut_small n = omega arith

sectors_of_fat_small : (clusters : ℕ) → sectors_of_fat clusters < 128
unfolding sectors_of_fat
sectors_of_fat_small clusters = cut_small (clusters * mfs_fat_index_size clusters % u128_mod)

-- The fields that the rest of the program reads.
pub record Holds (sb : SbInfo) (clusters : ℕ) : Type 0 where
  pub sector : sb.bytes_per_sector ≡ 512
  pub copies : sb.copies_of_fat ≡ 2
  pub sectors : sb.sectors_of_fat ≡ sectors_of_fat clusters
  pub fat : sb.fat_sector ≡ 1
  pub data_sector : sb.data_cluster_sector ≡ 1 + sectors_of_fat clusters * 2
  pub width : sb.fat_index_size ≡ mfs_fat_index_size clusters % 65536

-- The number of clusters of a volume.
abbrev pub clusters_of : (volume_size : ℕ) → ℕ
clusters_of volume_size = count_total_cluster (count_total_sector volume_size)

pub sb_image-Holds :
    (rand : ℕ → ℕ) (volume_name : List ℕ) (volume_size : ℕ)
    → Holds (sb_of (sb_image rand volume_name volume_size)) (clusters_of volume_size)
unfolding sb_of store_fields copy_to
sb_image-Holds rand volume_name volume_size =
    let clusters = clusters_of volume_size in
    record {
      sector = refl;
      copies = refl;
      sectors = two_bytes_small (sectors_of_fat clusters) (sectors_of_fat_small clusters);
      fat = refl;
      data_sector = four_bytes_small (sectors_of_fat clusters) (sectors_of_fat_small clusters);
      width = two_bytes (mfs_fat_index_size clusters);
    }
