-- ===== src/Mkfs/Format.antt =====
-- progs/mkfs.c: what a formatted volume holds, and which sizes are refused.
use mathlib.Core.Path.{subst}
use model_lib.Prelude.{
  ℕ, ◌+◌, ◌-◌, ◌*◌, ◌/◌, ◌%◌, ◌≤◌, ◌↔◌, ◌<◌, ◌≡◌, refl, arith, max, List, length, ok, halt, ap, ◌∙◌,
}
use model_lib.Memory.{Bytes, zeroed, copy_to}
use model_lib.Memory.Laws.{copy_to_in}
use model_lib.Volume.{Volume, SbInfo, end_cluster_of, write_at, sb_of, max_pos, get_end_cluster}
use model_lib.Volume.Layout.{same_sb, write_at_lem, read_sb_lem}
use model_lib.Fat.{u32_mod}
use model_lib.Mkfs.{initialize_sb, make_fat, create_volume, new_file, mfs_fat_index_size}
use model_lib.Mkfs.Superblock.{
  sb_image, initialize_sb-image, sb_image-byte, IsText, sb_image-Holds, Holds, clusters_of,
}
use model_lib.Mkfs.Zeros.{zeros, fresh_clusters}
use model_lib.Mkfs.Image.{two_bytes, table_sectors, Formatted, made, made-Formatted, make_fat-made}

-- For a new file, a name of bytes that fits into the superblock, clusters of 512 bytes, and a size of
-- fewer than 65536 sectors whose remainder by 32768 is at least 256, `create_volume`, given more rounds
-- than there are sectors, returns a volume of that many sectors whose superblock describes two-byte indices
-- and two copies of a table of one sector for each 256 sectors of that remainder (which is the whole
-- volume only below 32768 sectors), whose root directory is one empty cluster, and whose other
-- entries of the table are free.
pub create_volume-Formatted :
    (rand : ℕ → ℕ) (fuel : ℕ) (volume_name : List ℕ) (volume_size : ℕ)
    → length volume_name < 512
    → IsText volume_name
    → 256 ≤ volume_size / 512 % 32768
    → volume_size / 512 < 65536
    → volume_size / 512 < fuel
    → (v : Volume) × (create_volume rand fuel new_file volume_name volume_size 512 ≡ ok v)
      × Formatted (volume_size / 512 % 32768 / 256) (volume_size / 512) v
unfolding create_volume
create_volume-Formatted rand fuel volume_name volume_size short text some_table few h =
    let sb = sb_image rand volume_name volume_size in
    let n = volume_size / 512 in
    let all : clusters_of volume_size ≡ n = omega arith in
    let holds : Holds (sb_of sb) n =
      subst (λ x. Holds (sb_of sb) x) all (sb_image-Holds rand volume_name volume_size) in
    let byte = sb_image-byte rand volume_name volume_size text in
    (
      made sb n holds some_table few byte,
      rw
          (
            fresh_clusters fuel volume_size (omega arith) h,
            initialize_sb-image rand volume_name volume_size short,
          )
          (make_fat-made sb n holds some_table few byte),
      made-Formatted sb n holds some_table few byte,
    )

-- For a name that fits into the superblock, and a size of at least 256 and fewer than 65536 sectors:
-- `initialize_sb` returns, and the table that its superblock describes, both copies taken as one as the
-- rest of the code does, has an entry for every cluster behind it exactly if there are fewer than 32768
-- sectors.
pub initialize_sb-covers_iff :
    (rand : ℕ → ℕ) (volume_name : List ℕ) (volume_size : ℕ)
    → length volume_name < 512
    → 256 ≤ volume_size / 512
    → volume_size / 512 < 65536
    → (sb : Bytes) × (initialize_sb rand zeroed volume_name volume_size ≡ ok sb)
      × ((volume_size / 512 - (sb_of sb).data_cluster_sector
            ≤ (sb_of sb).sectors_of_fat
              * (sb_of sb).copies_of_fat
              * 512
              / (sb_of sb).fat_index_size)
          ↔ (volume_size / 512 < 32768))
initialize_sb-covers_iff rand volume_name volume_size short some_table few =
    let n = volume_size / 512 in
    let all : clusters_of volume_size ≡ n = omega arith in
    let holds : Holds (sb_of (sb_image rand volume_name volume_size)) n =
      subst (λ x. Holds (sb_of (sb_image rand volume_name volume_size)) x) all
        (sb_image-Holds rand volume_name volume_size) in
    (
      sb_image rand volume_name volume_size,
      initialize_sb-image rand volume_name volume_size short,
      rw
          (
            holds.data_sector,
            holds.sectors,
            holds.copies,
            holds.width,
            two_bytes n some_table few,
            table_sectors n some_table few,
          )
          (λ a. omega (arith, a), λ b. omega (arith, b)),
    )

-- A volume without a width of its indices.
unset_end :
    (sb : Bytes) (n clusters : ℕ)
    → Holds (sb_of sb) clusters
    → 65536 ≤ clusters
    → 512 ≤ n
    → n ≤ max_pos
    → get_end_cluster (write_at (zeros n) 0 sb 512) ≡ halt
unfolding get_end_cluster mfs_fat_index_size
unset_end sb n clusters holds big long fits =
    let none_left : mfs_fat_index_size clusters ≡ 0 = ground arith in
    let size : max n 512 ≡ n = omega arith in
    let same : (i : ℕ) → i < 512 → copy_to zeroed 0 sb 512 i ≡ sb i =
      λ i h. copy_to_in zeroed 0 sb 512 i i (omega arith) h in
    rw
      (
        write_at_lem (zeros n) 0 512 sb (omega arith) (omega arith),
        size,
        read_sb_lem (record { bytes = copy_to zeroed 0 sb 512; size = n; f_pos = 512 }) long,
      )
      (ap (λ (x : SbInfo). end_cluster_of x.fat_index_size)
          (same_sb sb (copy_to zeroed 0 sb 512) same)
        ∙ rw (holds.width, none_left) refl)

-- For a new file, clusters of 512 bytes, a name that fits into the superblock, and a size of 65536 sectors or more whose
-- number of sectors a `u32_t` can count past, `create_volume` stops the program, given more rounds than
-- there are sectors: the width of its indices is 0.
pub create_volume-too_big :
    (rand : ℕ → ℕ) (fuel : ℕ) (volume_name : List ℕ) (volume_size : ℕ)
    → length volume_name < 512
    → 65536 ≤ volume_size / 512
    → volume_size / 512 + 1 < u32_mod
    → volume_size / 512 < fuel
    → create_volume rand fuel new_file volume_name volume_size 512 ≡ halt
unfolding create_volume make_fat
create_volume-too_big rand fuel volume_name volume_size short big few h =
    let n = volume_size / 512 in
    let all : clusters_of volume_size ≡ n = omega arith in
    rw (
      fresh_clusters fuel volume_size few h,
      initialize_sb-image rand volume_name volume_size short,
      make_fat,
      unset_end (sb_image rand volume_name volume_size) (512 * n) (clusters_of volume_size)
          (sb_image-Holds rand volume_name volume_size) (omega arith) (omega arith) (omega arith),
    )
