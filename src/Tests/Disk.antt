-- ===== src/Tests/Disk.antt =====
-- Small volumes for the tests: a superblock, two sectors of table and six clusters.
use model_lib.Prelude.{ℕ, ◌*◌, ◌<◌, ◌≤◌, ◌≡◌, ◌==◌, refl, if◌then◌else◌, arith}
use model_lib.Memory.{Bytes}
use model_lib.Volume.{Volume, sb_of}
use model_lib.Volume.Layout.{Layout}

-- The first sector for indices of `w` bytes and one sector to a copy of the table.
abbrev pub sb_bytes : ℕ → Bytes
sb_bytes w i =
    if i == 21
    then 2
    else if i == 22
    then 1
    else if i == 23
    then 2
    else if i == 24
    then 1
    else if i == 36
    then 1
    else if i == 40
    then 3
    else if i == 44
    then w
    else 0

-- Behind it the table, in which entry 2 is the end mark of two bytes.
abbrev pub blank : ℕ → Bytes
blank w i = if i == 512 then 255 else if i == 513 then 255 else sb_bytes w i

abbrev pub disk : ℕ → Volume
disk w = record { bytes = blank w; size = 512 * 9; f_pos = 0 }

pub blank_byte : (w i : ℕ) → w < 256 → blank w i < 256
blank_byte w i h = ground arith

pub disk-Layout : (w : ℕ) → w < 256 → Layout w 1 (disk w)
unfolding sb_of
disk-Layout w h = record {
  sector = refl;
  copies = refl;
  sectors = refl;
  fat = refl;
  data_sector = refl;
  width = omega arith;
  few = omega arith;
  room = omega arith;
  byte = λ i. blank_byte w i h;
}

-- A volume with two sectors to a copy of the table, of which the last are free.
abbrev wide_bytes : Bytes
wide_bytes i = if i == 24 then 2 else if i == 40 then 5 else blank 2 i

abbrev pub wide_disk : Volume
wide_disk = record { bytes = wide_bytes; size = 512 * 12; f_pos = 0 }

wide_byte : (i : ℕ) → wide_bytes i < 256
wide_byte i = ground (arith, blank_byte 2 i)

pub wide_disk-Layout : Layout 2 2 wide_disk
unfolding sb_of
wide_disk-Layout = record {
  sector = refl;
  copies = refl;
  sectors = refl;
  fat = refl;
  data_sector = refl;
  width = refl;
  few = omega arith;
  room = omega arith;
  byte = wide_byte;
}

pub wide_free : (i : ℕ) → 514 ≤ i → wide_disk.bytes i ≡ 0
wide_free i h = ground arith
