-- ===== src/File/RoundTrip.antt =====
-- file.c: what `write_file` writes into a cluster of a file, `read_file` reads.
use mathlib.Core.Path.{subst, sym}
use model_lib.Prelude.{
  ℕ, ◌+◌, ◌/◌, ◌%◌, ◌^◌, ◌≤◌, ◌<◌, ◌==◌, ◌≡◌, refl, ◌∙◌, arith, ltb, le→ltb, ne→==, false, ok, List,
  some,
}
use model_lib.Memory.{Bytes, copy_to}
use model_lib.Memory.Laws.{copy_to_in}
use model_lib.Volume.{Volume, read_at, write_at}
use model_lib.Volume.Layout.{Layout, layout_end, Layout-write_at, read_at_inside, write_at_lem}
use model_lib.Fat.{u32_mod, u128_mod}
use model_lib.Entry.Dirent.{Dirent, head_cluster_number, size, set_size}
use model_lib.Entry.Walk.{read_cluster}
use model_lib.Entry.Walk.Clusters.{cluster_pos, read_cluster_lem}
use model_lib.Entry.Walk.Chain.{Chain, IsCluster}
use model_lib.Entry.Walk.Kept.{Chain-write_at}
use model_lib.File.{Written, clip_len, local_len_of, valid_len_of, read_file, write_file}
use model_lib.File.Lengths.{local_len-min}
use model_lib.File.Seek.{nth, nth-IsCluster, seek_cluster-nth, seek_or_extend-nth}

pub head-set_size :
    (n : ℕ) (d : Dirent) → head_cluster_number (set_size n d) ≡ head_cluster_number d
unfolding set_size copy_to
head-set_size n d = refl

pub size-set_size : (n : ℕ) (d : Dirent) → n < u32_mod → size (set_size n d) ≡ n
unfolding set_size copy_to
size-set_size n d h = omega arith

-- A request inside a cluster is written whole.
valid_len-whole :
    (len cluster_offset : ℕ)
    → 0 < len
    → cluster_offset + len ≤ 512
    → valid_len_of len cluster_offset ≡ len
unfolding valid_len_of
valid_len-whole len cluster_offset h k = ground arith

module _ {s : ℕ} {v : Volume} (l : Layout 2 s v) (fuel : ℕ) (d : Dirent) (cs : List ℕ) (x : ℕ)
    (len offset : ℕ) (chain : Chain s v (head_cluster_number d) cs)
    (at : nth cs (offset / 512) ≡ some x) (enough : offset / 512 < fuel) (some_bytes : 0 < len)
    (inside : offset % 512 + len ≤ 512) (fits : offset + 512 < u32_mod) where
  abbrev pub target : ℕ
  target = cluster_pos s x + offset % 512

  abbrev pub written : Bytes → Volume
  written buf = write_at v target buf len

  is : IsCluster s v x
  is = nth-IsCluster (offset / 512) x chain at

  position_lem : target % u128_mod ≡ target
  position_lem = omega (arith, is.in_fat, l.few)

  cluster_lem : read_cluster v x ≡ ok (cluster_pos s x)
  cluster_lem = read_cluster_lem l x is.in_fat.0 (omega (arith, is.in_fat, l.few))

  -- A request that lies in a cluster of the file is written there whole, and the size grows by it.
  pub write_file-written :
      (stack buf : Bytes)
      → write_file stack fuel v d buf len offset
        ≡ ok (record {
          count = len;
          dentry = set_size ((size d + len) % 2 ^ 64) d;
          volume = written buf;
        })
  unfolding write_file
  write_file-written stack buf =
      let more : (len == 0) ≡ false = ne→== len 0 (omega arith) in
      let whole : ltb len len ≡ false = le→ltb len len (omega arith) in
      rw
        (
          layout_end l,
          more,
          seek_or_extend-nth l offset stack (offset / 512) fuel 0 (head_cluster_number d) x cs chain
              at (omega arith) (omega arith) fits enough,
          cluster_lem,
          valid_len-whole len (offset % 512) some_bytes inside,
          whole,
          position_lem,
        )
        refl

  pub Layout-written : (buf : Bytes) → ((i : ℕ) → buf i < 256) → Layout 2 s (written buf)
  Layout-written buf byte =
      Layout-write_at l target len buf (omega arith) some_bytes (omega (arith, is.in_fat, l.few))
        byte

  -- A request that lies in a cluster of the file and ends no later than the file is read whole.
  pub read_file-inside :
      (out : Bytes)
      → offset + len ≤ size d
      → size d < u32_mod
      → read_file fuel v d out len offset ≡ ok (len, read_at v target out len)
  unfolding read_file
  read_file-inside out enough_bytes small =
      let reached : ltb (size d) offset ≡ false = le→ltb _ _ (omega arith) in
      let whole : local_len_of (clip_len (size d) len offset) (offset % 512) ≡ len =
        local_len-min (size d) len offset (omega arith) small (omega arith) ∙ omega arith in
      rw
        (
          reached,
          seek_cluster-nth l offset (offset / 512) fuel 0 (head_cluster_number d) x cs chain at
              (omega arith) (omega arith) enough,
          cluster_lem,
          whole,
          position_lem,
        )
        refl

  pub Chain-written :
      (buf : Bytes) → {c : ℕ} {cs' : List ℕ} → Chain s v c cs' → Chain s (written buf) c cs'
  Chain-written buf =
      Chain-write_at l target len buf (omega arith) some_bytes (omega (arith, is.in_fat, l.few))

  bytes-written :
      (buf out : Bytes) (i : ℕ) → i < len → read_at (written buf) target out len i ≡ buf i
  bytes-written buf out i h =
      let place = write_at_lem v target len buf some_bytes (omega (arith, is.in_fat, l.few)) in
      read_at_inside (written buf) target len out i (rw place (omega arith))
        (omega (arith, is.in_fat, l.few)) h
      ∙ rw place (copy_to_in v.bytes target buf len (target + i) i (omega arith) h)

-- On a formatted volume with two-byte indices, for a file whose clusters the table links, and a request
-- that is not empty, begins no later than the file ends, lies in one cluster of the file, and whose
-- numbers fit into 32 bits: `write_file` writes all of it, and then `read_file`, with the entry that
-- `write_file` leaves, reads as many bytes, and the same. Both are given more rounds than there are
-- clusters up to the offset.
pub write_file-read_file :
    (stack : Bytes) (fuel s : ℕ) (v : Volume) (d : Dirent) (cs : List ℕ) (x len offset : ℕ)
    (buf out : Bytes)
    → Layout 2 s v
    → Chain s v (head_cluster_number d) cs
    → nth cs (offset / 512) ≡ some x
    → offset / 512 < fuel
    → 0 < len
    → offset % 512 + len ≤ 512
    → offset + 512 < u32_mod
    → offset ≤ size d
    → size d + len < u32_mod
    → ((i : ℕ) → buf i < 256)
    → (w : Written) × (out' : Bytes) × (write_file stack fuel v d buf len offset ≡ ok w)
      × (w.count ≡ len)
      × (read_file fuel w.volume w.dentry out len offset ≡ ok (len, out'))
      × ((i : ℕ) → i < len → out' i ≡ buf i)
write_file-read_file stack fuel s v d cs x len offset buf out l chain at enough some_bytes inside
      fits no_gap small byte =
    let fits_size : (size d + len) % 2 ^ 64 ≡ size d + len = omega arith in
    (
      record {
        count = len;
        dentry = set_size (size d + len) d;
        volume = written l fuel d cs x len offset chain at enough some_bytes inside fits buf;
      },
      read_at (written l fuel d cs x len offset chain at enough some_bytes inside fits buf)
          (target l fuel d cs x len offset chain at enough some_bytes inside fits) out len,
      subst
          (λ n.
            write_file stack fuel v d buf len offset
            ≡ ok (record {
              count = len;
              dentry = set_size n d;
              volume = written l fuel d cs x len offset chain at enough some_bytes inside fits buf;
            }))
          fits_size
          (write_file-written l fuel d cs x len offset chain at enough some_bytes inside fits stack
            buf),
      refl,
      again (set_size (size d + len) d) (head-set_size (size d + len) d)
          (size-set_size (size d + len) d small),
      bytes-written l fuel d cs x len offset chain at enough some_bytes inside fits buf out,
    )
  where
    v' : Volume
    v' = written l fuel d cs x len offset chain at enough some_bytes inside fits buf

    again :
        (d' : Dirent)
        → head_cluster_number d' ≡ head_cluster_number d
        → size d' ≡ size d + len
        → read_file fuel v' d' out len offset
          ≡ ok (len, read_at v' (cluster_pos s x + offset % 512) out len)
    again d' head grown =
        read_file-inside
          (Layout-written l fuel d cs x len offset chain at enough some_bytes inside fits buf byte)
          fuel d' cs x len offset
          (subst (λ c. Chain s v' c cs) (sym head)
            (Chain-written l fuel d cs x len offset chain at enough some_bytes inside fits buf
              chain))
          at enough some_bytes inside fits out (omega arith) (omega arith)
