-- ===== src/Sqlite/Read.antt =====
-- sqliteio.c: what `read_sqlite_file` reads of a file of the root directory.
use model_lib.Prelude.{
  ℕ, zero, suc, ◌+◌, ◌-◌, ◌/◌, ◌%◌, ◌≤◌, ◌<◌, ◌≡◌, refl, sym, ◌∙◌, ap, arith, List, [], ◌∷◌, some,
  ok, length, min, ltb, false, le→ltb,
}
use model_lib.Memory.{Bytes}
use model_lib.Volume.{Volume, read_at}
use model_lib.Volume.Layout.{Layout, read_at_inside}
use model_lib.Fat.{u32_mod, u128_mod}
use model_lib.Entry.Dirent.{Dirent, entry_in, head_cluster_number, size}
use model_lib.Entry.Walk.Clusters.{cluster_pos, read_cluster_lem}
use model_lib.Entry.Walk.Chain.{Chain}
use model_lib.Entry.Walk.Claim.{contents}
use model_lib.Entry.Directory.Find.{get_dentry-find_file}
use model_lib.Entry.Directory.Slot.{view_lem}
use model_lib.File.{read_file, clip_len, local_len_of}
use model_lib.File.Lengths.{local_len-min}
use model_lib.File.Seek.{nth, nth-IsCluster, seek_cluster-nth}
use model_lib.Sqlite.{read_sqlite_file}
use model_lib.Sqlite.Root.{root_route, get_cluster_number_root}
use model_lib.Sqlite.Content.{FileAt}

nth-some : (cs : List ℕ) (k : ℕ) → k < length cs → (x : ℕ) × (nth cs k ≡ some x)
unfolding nth
nth-some [] k h = absurd (omega arith)
nth-some (c ∷ cs) zero h = (c, refl)
nth-some (c ∷ cs) (suc k) h = nth-some cs k (omega arith)

-- `read_file` of a file whose clusters the table links.
read_file-nth :
    {s : ℕ} {v : Volume} (l : Layout 2 s v) (fuel : ℕ) (d : Dirent) (cs : List ℕ) (x n m offset : ℕ)
    (out : Bytes)
    → Chain s v (head_cluster_number d) cs
    → nth cs (offset / 512) ≡ some x
    → offset / 512 < fuel
    → offset ≤ size d
    → local_len_of (clip_len (size d) n offset) (offset % 512) ≡ m
    → read_file fuel v d out n offset ≡ ok (m, read_at v (cluster_pos s x + offset % 512) out m)
unfolding read_file
read_file-nth {s} l fuel d cs x n m offset out chain at enough reaches part =
    let is = nth-IsCluster (offset / 512) x chain at in
    let reached : ltb (size d) offset ≡ false = le→ltb _ _ reaches in
    let position : (cluster_pos s x + offset % 512) % u128_mod ≡ cluster_pos s x + offset % 512 =
      omega (arith, is.in_fat, l.few) in
    rw
      (
        reached,
        seek_cluster-nth l offset (offset / 512) fuel 0 (head_cluster_number d) x cs chain at
            (omega arith) (omega arith) enough,
        read_cluster_lem l x is.in_fat.0 (omega (arith, is.in_fat, l.few)),
        part,
        position,
      )
      refl

-- How many bytes of a file of `len` bytes a request for `n` at an offset moves.
abbrev pub moved : (len n offset : ℕ) → ℕ
moved len n offset = min (min n (len - offset)) (512 - offset % 512)

-- For a file of the root directory (on a formatted volume with two-byte indices; entries with short
-- names that end), and a request at an offset inside the file whose end and the file's length fit into
-- 32 bits, `read_sqlite_file` returns the least of: what is asked for, what is left of the file, and what
-- is left of the cluster, and the buffer holds as many bytes of the file's content from the offset on.
-- It is given more rounds than the directory has clusters and than the file has before the offset.
pub read_sqlite_file-FileAt :
    (garbage out : Bytes) (fuel s : ℕ) (v : Volume) (t dir : List ℕ) (c n : ℕ) (cs : List ℕ)
    (len : ℕ) (content : Bytes) (count offset : ℕ)
    → FileAt s v t dir c n cs len content
    → length dir < fuel
    → offset / 512 < fuel
    → offset < len
    → len < u32_mod
    → offset + count < u32_mod
    → (out' : Bytes) × (read_sqlite_file garbage fuel v root_route t (some out) count offset
        ≡ ok (some (moved len count offset, out')))
      × ((i : ℕ) → i < moved len count offset → out' i ≡ content (offset + i))
unfolding read_sqlite_file
read_sqlite_file-FileAt garbage out fuel s v t dir c n cs len content count offset f rounds enough
      inside small fits =
    let (x, at) = nth-some cs (offset / 512) (omega (arith, f.covered)) in
    let is = nth-IsCluster (offset / 512) x f.chain at in
    let wrapped : offset % u32_mod ≡ offset = omega arith in
    let part : local_len_of (clip_len (size (entry_in (contents s v c) n)) count offset)
          (offset % 512)
        ≡ moved len count offset =
      ap (λ l. local_len_of (clip_len l count offset) (offset % 512)) f.size_is
      ∙ local_len-min len count offset (omega arith) small fits in
    (
      read_at v (cluster_pos s x + offset % 512) out (moved len count offset),
      rw
          (
            get_cluster_number_root fuel s v f.layout (omega arith),
            get_dentry-find_file fuel s v 2 dir t f.layout f.root f.tidy rounds,
            f.there,
            wrapped,
            read_file-nth f.layout fuel (entry_in (contents s v c) n) cs x count
                (moved len count offset) offset out f.chain at enough (omega (arith, f.size_is))
                part,
          )
          refl,
      λ i h.
          let same_block : (offset + i) / 512 ≡ offset / 512 = omega arith in
          read_at_inside v (cluster_pos s x + offset % 512) (moved len count offset) out i
            (omega (arith, is.in_file)) (omega (arith, is.in_fat, f.layout.few)) h
          ∙ ap v.bytes (omega arith)
          ∙ sym (view_lem v (cluster_pos s x) ((offset + i) % 512) (omega arith))
          ∙ f.holds (offset + i) x (omega arith) (rw same_block at),
    )
