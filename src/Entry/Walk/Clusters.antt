-- ===== src/Entry/Walk/Clusters.antt =====
-- entry.c: the clusters of a formatted volume, and what a write to one leaves alone.
use model_lib.Prelude.{
  ℕ, ◌+◌, ◌-◌, ◌*◌, ◌%◌, ◌^◌, ◌≤◌, ◌<◌, ◌≡◌, arith, ok, ap, ltb, if◌then◌else◌, fun_ext,
}
use model_lib.Memory.{Bytes}
use model_lib.Memory.Laws.{u16_at-copy_to_apart}
use model_lib.Volume.{Volume, sb_of, max_pos, cluster_size, read_at, write_at}
use model_lib.Volume.Layout.{Layout, layout_sb, read_at_lem, write_at_lem}
use model_lib.Fat.{u32_mod, u128_mod}
use model_lib.Fat.Entries.{InFat, entry, entry-u16, entry_pos}
use model_lib.Entry.Walk.{read_cluster}

-- Where the data clusters begin, and where cluster `c` stands.
abbrev pub data_start : ℕ → ℕ
data_start s = 512 * (1 + s * 2)

abbrev pub cluster_pos : (s c : ℕ) → ℕ
cluster_pos s c = data_start s + (c - 2) * 512

module _ {w s : ℕ} {v : Volume} (l : Layout w s v) where
  data_start_lem :
      (sb_of v.bytes).data_cluster_sector * (sb_of v.bytes).bytes_per_sector % u32_mod
      ≡ data_start s
  data_start_lem = rw (l.data_sector, l.sector) (omega (arith, l.few))

  pub read_cluster_lem : (c : ℕ) → 2 ≤ c → c < u32_mod → read_cluster v c ≡ ok (cluster_pos s c)
  unfolding read_cluster
  read_cluster_lem c low high =
      let e : (c + u128_mod - 2) % u128_mod ≡ c - 2 = omega arith in
      rw (layout_sb l, data_start_lem, e) (ap ok (omega (arith, l.few)))

  -- Cluster 0, which `get_cluster_number` returns for a path that leads nowhere, is taken to stand in
  -- the table.
  pub read_cluster_zero : 1 ≤ s → read_cluster v 0 ≡ ok (data_start s - 1024)
  unfolding read_cluster
  read_cluster_zero some_table = rw (layout_sb l, data_start_lem) (ap ok (omega (arith, l.few)))

-- The contents of a cluster, as the buffers of the directory functions hold them.
abbrev pub view : Volume → (position : ℕ) → Bytes
view v position i = if ltb i cluster_size then v.bytes (position + i) else 0

-- A buffer that is zeroed behind `CLUSTER_SIZE`.
abbrev pub Padded : Bytes → Type 0
Padded m = (i : ℕ) → cluster_size ≤ i → m i ≡ 0

pub view-Padded : (v : Volume) (position : ℕ) → Padded (view v position)
view-Padded v position i h = ground arith

pub read_at-view :
    (v : Volume) (position : ℕ) (buffer : Bytes)
    → Padded buffer
    → position + 512 ≤ v.size
    → position < 2 ^ 64
    → read_at v position buffer cluster_size ≡ view v position
read_at-view v position buffer padded h k =
    rw (read_at_lem v position 512 buffer h k) (fun_ext λ i. ground (arith, padded i))

-- A write to the data keeps every entry of the table.
pub entry-write_at :
    {s : ℕ} {v : Volume} (l : Layout 2 s v) (position n : ℕ) (ptr : Bytes) (i : ℕ)
    → data_start s ≤ position
    → 0 < n
    → position + n ≤ max_pos
    → InFat 2 s i
    → entry 2 (write_at v position ptr n) i ≡ entry 2 v i
entry-write_at {v} l position n ptr i h some_bytes k inside = rw (
  entry-u16 (write_at v position ptr n) i,
  entry-u16 v i,
  write_at_lem v position n ptr some_bytes k,
  u16_at-copy_to_apart v.bytes position ptr n (entry_pos 2 i) (omega arith),
)
