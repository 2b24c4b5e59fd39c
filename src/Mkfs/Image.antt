-- ===== src/Mkfs/Image.antt =====
-- progs/mkfs.c: the superblock and the first entry of the table in the file.
use model_lib.Prelude.{
  ℕ, ◌+◌, ◌-◌, ◌*◌, ◌/◌, ◌%◌, ◌≤◌, ◌<◌, ◌≡◌, ◌==◌, refl, arith, max, ok, ltb, false, ap, ◌∙◌,
  Bool-cases, inl, inr, ==→eq, ==→ne,
}
use model_lib.Memory.{Bytes, zeroed, bytes_of, copy_to}
use model_lib.Memory.Laws.{copy_to_in, copy_to_out, copy_to-byte}
use model_lib.Volume.{Volume, SbInfo, end_cluster_of, write_at, sb_of, get_end_cluster}
use model_lib.Volume.Layout.{Layout, same_sb, write_at_lem, read_sb_lem}
use model_lib.Fat.{u32_mod, start_position, end_position}
use model_lib.Fat.Entries.{entry, entry_pos, entry-u16}
use model_lib.Mkfs.{make_fat_index, make_fat, sectors_of_fat, mfs_fat_index_size}
use model_lib.Mkfs.Superblock.{Holds}
use model_lib.Mkfs.Zeros.{zeros}

-- The file behind the superblock and the end mark of the root directory.
abbrev image : (sb : Bytes) → Bytes
image sb = copy_to (copy_to zeroed 0 sb 512) 512 (bytes_of 0xffff) 4

image_sb : (sb : Bytes) (i : ℕ) → i < 512 → image sb i ≡ sb i
image_sb sb i h =
    copy_to_out (copy_to zeroed 0 sb 512) 512 (bytes_of 0xffff) 4 i (omega arith)
    ∙ copy_to_in zeroed 0 sb 512 i i (omega arith) h

image_mark : (sb : Bytes) (k : ℕ) → k < 4 → image sb (512 + k) ≡ bytes_of 0xffff k
image_mark sb k h =
    copy_to_in (copy_to zeroed 0 sb 512) 512 (bytes_of 0xffff) 4 (512 + k) k (omega arith) h

image_rest : (sb : Bytes) (i : ℕ) → 516 ≤ i → image sb i ≡ 0
image_rest sb i h =
    copy_to_out (copy_to zeroed 0 sb 512) 512 (bytes_of 0xffff) 4 i (omega arith)
    ∙ copy_to_out zeroed 0 sb 512 i (omega arith)

image_tail : (sb : Bytes) (i : ℕ) → 514 ≤ i → image sb i ≡ 0
image_tail sb i h = elim (Bool-cases (i == 514)) [
  | inl e ↦ let at : i ≡ 514 = ==→eq i 514 e in rw at (image_mark sb 2 (omega arith))
  | inr e ↦ elim (Bool-cases (i == 515)) [
    | inl e' ↦ let at : i ≡ 515 = ==→eq i 515 e' in rw at (image_mark sb 3 (omega arith))
    | inr e' ↦ image_rest sb i (omega (arith, ==→ne i 514 e, ==→ne i 515 e'))
  ]
]

image_byte : (sb : Bytes) → ((i : ℕ) → sb i < 256) → (i : ℕ) → image sb i < 256
image_byte sb h =
    copy_to-byte _ 512 (bytes_of 0xffff) 4 (copy_to-byte zeroed 0 sb 512 (λ i. omega arith) h)
      (λ i. omega arith)

-- A volume with two-byte indices as it is made: the layout, the root directory of one cluster, every
-- other entry of the table free, nothing in the clusters, and as many sectors as were asked for.
pub record Formatted (s sectors : ℕ) (v : Volume) : Type 0 where
  pub layout : Layout 2 s v
  pub root_end : entry 2 v 2 ≡ 0xffff
  pub free : (i : ℕ) → 2 < i → entry 2 v i ≡ 0
  pub empty : (p : ℕ) → 512 * (1 + s * 2) ≤ p → v.bytes p ≡ 0
  pub root_in_file : 512 * (1 + s * 2) + 512 ≤ v.size
  pub size_is : v.size ≡ 512 * sectors

pub two_bytes : (clusters : ℕ) → 256 ≤ clusters → clusters < 65536 → mfs_fat_index_size clusters ≡ 2
unfolding mfs_fat_index_size
two_bytes clusters some_table few = ground arith

-- What the cast leaves of the table.
pub table_sectors :
    (clusters : ℕ)
    → 256 ≤ clusters
    → clusters < 65536
    → sectors_of_fat clusters ≡ clusters % 32768 / 256
unfolding sectors_of_fat
table_sectors clusters some_table few = rw (two_bytes clusters some_table few) (omega arith)

module _ (sb : Bytes) (clusters : ℕ) (holds : Holds (sb_of sb) clusters)
    (some_table : 256 ≤ clusters % 32768) (few : clusters < 65536)
    (byte : (i : ℕ) → sb i < 256) where
  width_lem : mfs_fat_index_size clusters ≡ 2
  width_lem = two_bytes clusters (omega arith) few

  sectors_lem : sectors_of_fat clusters ≡ clusters % 32768 / 256
  sectors_lem = table_sectors clusters (omega arith) few

  abbrev pub made : Volume
  made = record { bytes = image sb; size = 512 * clusters; f_pos = 516 }

  made_sb : sb_of (image sb) ≡ sb_of sb
  made_sb = same_sb sb (image sb) (image_sb sb)

  made-Layout : Layout 2 (clusters % 32768 / 256) made
  made-Layout = record {
    sector = rw made_sb holds.sector;
    copies = rw made_sb holds.copies;
    sectors = rw (made_sb, ← sectors_lem) holds.sectors;
    fat = rw made_sb holds.fat;
    data_sector = rw (made_sb, ← sectors_lem) holds.data_sector;
    width = rw (made_sb, holds.width, width_lem) refl;
    few = omega arith;
    room = omega arith;
    byte = image_byte sb byte;
  }

  pub made-Formatted : Formatted (clusters % 32768 / 256) clusters made
  made-Formatted = record {
    layout = made-Layout;
    root_end =
        rw (entry-u16 made 2)
          (omega (arith, image_mark sb 0 (omega arith), image_mark sb 1 (omega arith)));
    free = λ i h. rw (entry-u16 made i) (
        omega (
          arith,
          image_tail sb (entry_pos 2 i) (omega arith),
          image_tail sb (entry_pos 2 i + 1) (omega arith),
        ));
    empty = λ p h. image_rest sb p (omega arith);
    root_in_file = omega arith;
    size_is = refl;
  }

  abbrev pub labelled : Volume
  labelled = write_at (zeros (512 * clusters)) 0 sb 512

  labelled_lem :
      labelled ≡ record { bytes = copy_to zeroed 0 sb 512; size = 512 * clusters; f_pos = 512 }
  labelled_lem =
      let size : max (512 * clusters) 512 ≡ 512 * clusters = omega arith in
      rw (write_at_lem (zeros (512 * clusters)) 0 512 sb (omega arith) (omega arith), size) refl

  first_is_sb : (i : ℕ) → i < 512 → copy_to zeroed 0 sb 512 i ≡ sb i
  first_is_sb i h = copy_to_in zeroed 0 sb 512 i i (omega arith) h

  labelled_end : get_end_cluster labelled ≡ ok 0xffff
  unfolding get_end_cluster
  labelled_end =
      rw
        (
          labelled_lem,
          read_sb_lem
              (record { bytes = copy_to zeroed 0 sb 512; size = 512 * clusters; f_pos = 512 })
              (omega arith),
        )
        (ap (λ (x : SbInfo). end_cluster_of x.fat_index_size)
            (same_sb sb (copy_to zeroed 0 sb 512) first_is_sb)
          ∙ rw (holds.width, width_lem) refl)

  mark_position :
      (start_position (sb_of sb) + (sb_of sb).fat_index_size * ((2 + u32_mod - 2) % u32_mod))
        % u32_mod
      ≡ 512
  mark_position = rw (holds.fat, holds.sector, holds.width, width_lem) refl

  mark_fits : ltb (end_position (sb_of sb)) 512 ≡ false
  mark_fits = rw (holds.fat, holds.sector, holds.sectors, holds.copies, sectors_lem) (ground arith)

  marked_lem : write_at labelled 512 (bytes_of 0xffff) 4 ≡ made
  marked_lem =
      let size : max (512 * clusters) (512 + 4) ≡ 512 * clusters = omega arith in
      rw
        (
          labelled_lem,
          write_at_lem
              (record { bytes = copy_to zeroed 0 sb 512; size = 512 * clusters; f_pos = 512 }) 512 4
              (bytes_of 0xffff) (omega arith) (omega arith),
          size,
        )
        refl

  pub make_fat-made : make_fat labelled sb ≡ ok made
  unfolding make_fat make_fat_index
  make_fat-made = rw (make_fat, labelled_end, make_fat_index, mark_position, mark_fits, marked_lem)
