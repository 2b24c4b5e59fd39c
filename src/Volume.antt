-- ===== src/Volume.antt =====
-- volume.c and super.h: the device file, the calls that move in it, and the superblock.
pub mod Layout
-- The calls are those of the kernel module, over `struct file` with its position `f_pos`.
use model_lib.Prelude.{
  ℕ, ◌+◌, ◌-◌, ◌*◌, ◌%◌, ◌^◌, min, max, ◌==◌, ltb, if◌then◌else◌, Outcome, ok, fault, halt, ◌>>=◌,
}
use model_lib.Memory.{Bytes, zeroed, u16_at, u32_at, u64_at, copy_to}

-- `struct mfs_volume`, with the file that it has open: its bytes, its size and its position.
pub record Volume : Type 0 where
  pub bytes : Bytes
  pub size : ℕ
  pub f_pos : ℕ

-- `struct mfs_sb_info`, without its text and padding. It is not packed: the offsets are in `sb_of`.
pub record SbInfo : Type 0 where
  pub bytes_per_sector : ℕ
  pub sectors_per_cluster : ℕ
  pub copies_of_fat : ℕ
  pub sectors_of_fat : ℕ
  pub fat_sector : ℕ
  pub data_cluster_sector : ℕ
  pub fat_index_size : ℕ
  pub total_sectors_low : ℕ
  pub total_data_cluster_sectors_low : ℕ

-- `sizeof(struct mfs_sb_info)`
abbrev pub sb_size : ℕ
sb_size = 512

abbrev pub bytes_per_sector : ℕ
bytes_per_sector = 512

abbrev pub sectors_per_cluster : ℕ
sectors_per_cluster = 1

-- `CLUSTER_SIZE`
abbrev pub cluster_size : ℕ
cluster_size = bytes_per_sector * sectors_per_cluster

unfoldable pub sb_of : Bytes → SbInfo
sb_of m = record {
  bytes_per_sector = u16_at m 20;
  sectors_per_cluster = m 22;
  copies_of_fat = m 23;
  sectors_of_fat = u16_at m 24;
  fat_sector = u32_at m 36;
  data_cluster_sector = u32_at m 40;
  fat_index_size = u16_at m 44;
  total_sectors_low = u64_at m 56;
  total_data_cluster_sectors_low = u64_at m 80;
}

-- The largest `loff_t`.
abbrev pub max_pos : ℕ
max_pos = 2 ^ 63 - 1

-- The position is an `unsigned long`.
unfoldable pub seek_volume : Volume → ℕ → Volume
seek_volume volume pos = record volume { f_pos = pos % 2 ^ 64 }

-- Up to the end of the file; what is not read of the buffer stays as it was.
unfoldable pub read_volume : Volume → Bytes → ℕ → ℕ × Bytes × Volume
read_volume volume ptr n =
    let count = min n (volume.size - volume.f_pos) in
    (
      count,
      λ i. if ltb i count then volume.bytes (volume.f_pos + i) else ptr i,
      record volume { f_pos = volume.f_pos + count },
    )

-- A write past the end makes the file longer. A position that is no `loff_t` is refused.
unfoldable pub write_volume : Volume → Bytes → ℕ → Volume
write_volume volume ptr n =
    if n == 0 then volume else if ltb max_pos (volume.f_pos + n) then volume else record {
      bytes = copy_to volume.bytes volume.f_pos ptr n;
      size = max volume.size (volume.f_pos + n);
      f_pos = volume.f_pos + n;
    }

-- `seek_volume` and the `read_volume` behind it, for a caller that seeks again before it next reads
-- or writes: the buffer after the two calls.
unfoldable pub read_at : Volume → ℕ → Bytes → ℕ → Bytes
unfolding seek_volume read_volume
read_at volume pos ptr n = (read_volume (seek_volume volume pos) ptr n).1

-- `seek_volume` and the `write_volume` behind it.
unfoldable pub write_at : Volume → ℕ → Bytes → ℕ → Volume
unfolding seek_volume write_volume
write_at volume pos ptr n = write_volume (seek_volume volume pos) ptr n

-- A volume shorter than a superblock leaves some of `sb` without a value.
unfoldable pub read_sb : Volume → Outcome SbInfo
unfolding read_at sb_of
read_sb volume =
    if ltb volume.size sb_size then fault else ok (sb_of (read_at volume 0 zeroed sb_size))

abbrev pub end_cluster_of : ℕ → Outcome ℕ
end_cluster_of size =
    if size == 1
    then ok 0xff
    else if size == 2
    then ok 0xffff
    else if size == 4
    then ok 0xffff_ffff
    else if size == 8
    then ok 0xffff_ffff_ffff_ffff
    else halt

unfoldable pub get_end_cluster : Volume → Outcome ℕ
unfolding read_sb
get_end_cluster volume = do sb ← read_sb volume; end_cluster_of sb.fat_index_size

abbrev pub bad_cluster_of : ℕ → Outcome ℕ
bad_cluster_of size =
    if size == 1
    then ok 0xfe
    else if size == 2
    then ok 0xfffe
    else if size == 4
    then ok 0xffff_fffe
    else if size == 8
    then ok 0xffff_ffff_ffff_fffe
    else halt

unfoldable pub get_bad_cluster : Volume → Outcome ℕ
unfolding read_sb
get_bad_cluster volume = do sb ← read_sb volume; bad_cluster_of sb.fat_index_size
