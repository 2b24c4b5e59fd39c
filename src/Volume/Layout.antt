-- ===== src/Volume/Layout.antt =====
-- volume.c: what the superblock of a formatted volume says, and that a write behind it keeps it.
use model_lib.Prelude.{
  ℕ, ◌+◌, ◌-◌, ◌*◌, ◌%◌, ◌^◌, ◌≤◌, ◌<◌, ◌==◌, ◌≡◌, refl, sym, ◌∙◌, ltb, if◌then◌else◌, le→ltb,
  ne→==, arith, min, false, ok, max, fun_ext, ap,
}
use model_lib.Memory.{Bytes, copy_to}
use model_lib.Memory.Laws.{copy_to_out, copy_to-byte}
use model_lib.Volume.{
  Volume, sb_size, max_pos, sb_of, read_at, write_at, read_sb, end_cluster_of, get_end_cluster,
}

-- A volume that is made by `create_volume`, with `w` bytes to an index and `s` sectors to each of
-- the two copies of the table, behind one sector of superblock.
pub record Layout (w s : ℕ) (v : Volume) : Type 0 where
  pub sector : (sb_of v.bytes).bytes_per_sector ≡ 512
  pub copies : (sb_of v.bytes).copies_of_fat ≡ 2
  pub sectors : (sb_of v.bytes).sectors_of_fat ≡ s
  pub fat : (sb_of v.bytes).fat_sector ≡ 1
  pub data_sector : (sb_of v.bytes).data_cluster_sector ≡ 1 + s * 2
  pub width : (sb_of v.bytes).fat_index_size ≡ w
  pub few : s < 65536
  pub room : 512 * (1 + s * 2) ≤ v.size
  pub byte : (i : ℕ) → v.bytes i < 256

-- Reading inside the file gives the file's bytes.
pub read_at_inside :
    (v : Volume) (pos n : ℕ) (ptr : Bytes) (i : ℕ)
    → pos + n ≤ v.size
    → pos < 2 ^ 64
    → i < n
    → read_at v pos ptr n i ≡ v.bytes (pos + i)
unfolding read_at
read_at_inside v pos n ptr i h k l = ground arith

-- As a function, from where the file holds all the bytes.
pub read_at_lem :
    (v : Volume) (pos n : ℕ) (ptr : Bytes)
    → pos + n ≤ v.size
    → pos < 2 ^ 64
    → read_at v pos ptr n ≡ (λ i. if ltb i n then v.bytes (pos + i) else ptr i)
unfolding read_at
read_at_lem v pos n ptr h k = fun_ext λ i. ground arith

pub read_sb_lem : (v : Volume) → sb_size ≤ v.size → read_sb v ≡ ok (sb_of v.bytes)
unfolding read_sb
read_sb_lem v h =
    let long : min 512 (v.size - 0) ≡ 512 = omega arith in
    let short : ltb v.size 512 ≡ false = le→ltb v.size 512 h in rw (short, long)

pub write_at_lem :
    (v : Volume) (pos n : ℕ) (ptr : Bytes)
    → 0 < n
    → pos + n ≤ max_pos
    → write_at v pos ptr n
      ≡ record { bytes = copy_to v.bytes pos ptr n; size = max v.size (pos + n); f_pos = pos + n }
unfolding write_at
write_at_lem v pos n ptr h k =
    let place : pos % 2 ^ 64 ≡ pos = omega arith in
    let some_bytes : (n == 0) ≡ false = ne→== n 0 (omega arith) in
    let fits : ltb max_pos (pos + n) ≡ false = le→ltb max_pos (pos + n) k in
    rw (place, some_bytes, fits)

-- The superblock is a function of the first sector.
abbrev first_sector : Bytes → Bytes
first_sector m i = if ltb i sb_size then m i else 0

sb_of-first_sector : (m : Bytes) → sb_of (first_sector m) ≡ sb_of m
unfolding sb_of
sb_of-first_sector m = refl

pub same_sb : (m m' : Bytes) → ((i : ℕ) → i < sb_size → m' i ≡ m i) → sb_of m' ≡ sb_of m
same_sb m m' same =
    sym (sb_of-first_sector m')
    ∙ ap sb_of (fun_ext λ i. ground (arith, same i))
    ∙ sb_of-first_sector m

pub Layout-same :
    (w s : ℕ) (v v' : Volume)
    → Layout w s v
    → ((i : ℕ) → i < sb_size → v'.bytes i ≡ v.bytes i)
    → v.size ≤ v'.size
    → ((i : ℕ) → v'.bytes i < 256)
    → Layout w s v'
Layout-same w s v v' l same longer byte =
    let e : sb_of v'.bytes ≡ sb_of v.bytes = same_sb v.bytes v'.bytes same in
    record {
      sector = rw e l.sector;
      copies = rw e l.copies;
      sectors = rw e l.sectors;
      fat = rw e l.fat;
      data_sector = rw e l.data_sector;
      width = rw e l.width;
      few = l.few;
      room = omega (arith, l.room);
      byte = byte;
    }

module _ {w s : ℕ} {v : Volume} (l : Layout w s v) where
  pub layout_sb : read_sb v ≡ ok (sb_of v.bytes)
  layout_sb = read_sb_lem v (omega (arith, l.room))

  pub layout_end : get_end_cluster v ≡ end_cluster_of w
  unfolding get_end_cluster
  layout_end = rw (layout_sb, l.width)

  -- A write behind the superblock keeps the layout.
  pub Layout-write_at :
      (pos n : ℕ) (ptr : Bytes)
      → 512 ≤ pos
      → 0 < n
      → pos + n ≤ max_pos
      → ((i : ℕ) → ptr i < 256)
      → Layout w s (write_at v pos ptr n)
  Layout-write_at pos n ptr h some_bytes k b = rw (write_at_lem v pos n ptr some_bytes k) (
      Layout-same w s v _ l (λ i below. copy_to_out v.bytes pos ptr n i (omega arith)) (omega arith)
        (copy_to-byte v.bytes pos ptr n l.byte b))
