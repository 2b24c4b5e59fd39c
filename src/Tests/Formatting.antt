-- ===== src/Tests/Formatting.antt =====
-- The theorems on new volumes and on the paths of the kernel at small inputs.
use model_lib.Prelude.{
  ℕ, ◌-◌, ◌*◌, ◌%◌, ◌≤◌, ◌↔◌, ◌/◌, ◌<◌, ◌≡◌, refl, false, arith, ok, halt, some, List, [], ◌∷◌,
  length,
}
use model_lib.Volume.{Volume}
use model_lib.Entry.Paths.{get_dir_path, get_file_name}
use model_lib.Entry.Paths.Split.{has_separator}
use model_lib.Memory.{Bytes, zeroed}
use model_lib.Volume.{sb_of}
use model_lib.Mkfs.{create_volume, new_file, initialize_sb, sectors_of_fat, mfs_fat_index_size}
use model_lib.Mkfs.Superblock.{IsText}
use model_lib.Mkfs.Image.{Formatted}
use model_lib.Mkfs.Format.{create_volume-Formatted, initialize_sb-covers_iff, create_volume-too_big}
use model_lib.Namei.{get_file_path_from_dentry}
use model_lib.Namei.Paths.{path_of, get_file_path_from_dentry-parts}

-- "ab"
abbrev label : List ℕ
label = b'a' ∷ b'b' ∷ []

label-IsText : IsText label
unfolding IsText
label-IsText = (omega arith, (omega arith, tt))

create_volume-Formatted_example :
    (v : Volume) × (create_volume (λ i. i) 300 new_file label 131072 512 ≡ ok v)
    × Formatted (131072 / 512 % 32768 / 256) (131072 / 512) v
create_volume-Formatted_example =
    create_volume-Formatted (λ i. i) 300 label 131072 (omega arith) label-IsText (omega arith)
      (omega arith) (omega arith)

-- A volume of 36256 sectors.
initialize_sb-covers_iff_example :
    (sb : Bytes) × (initialize_sb (λ i. i) zeroed label 18563072 ≡ ok sb)
    × ((36256 - (sb_of sb).data_cluster_sector
          ≤ (sb_of sb).sectors_of_fat * (sb_of sb).copies_of_fat * 512 / (sb_of sb).fat_index_size)
        ↔ (36256 < 32768))
initialize_sb-covers_iff_example =
    initialize_sb-covers_iff (λ i. i) label 18563072 (omega arith) (omega arith) (omega arith)

-- Its table has 13 sectors to a copy.
cast_example : sectors_of_fat 36256 ≡ 13
unfolding sectors_of_fat mfs_fat_index_size
cast_example = refl

create_volume-too_big_example : create_volume (λ i. i) 70000 new_file label 33554432 512 ≡ halt
create_volume-too_big_example =
    create_volume-too_big (λ i. i) 70000 label 33554432 (omega arith) (omega arith) (omega arith)
      (omega arith)

label_plain : has_separator label ≡ false
unfolding has_separator
label_plain = refl

short_path : length (path_of (label ∷ label ∷ [])) < 512
unfolding path_of
short_path = omega arith

-- "/ab/ab"
get_file_path_from_dentry-parts_example :
    (p : List ℕ) × (get_file_path_from_dentry (label ∷ label ∷ []) 512 ≡ ok p)
    × (get_dir_path p ≡ some (path_of (label ∷ [])))
    × (get_file_name p ≡ some label)
get_file_path_from_dentry-parts_example =
    get_file_path_from_dentry-parts label (label ∷ []) label_plain short_path
