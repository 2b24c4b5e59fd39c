-- ===== src/Entry/Directory/Slot.antt =====
-- entry.c: what `alloc_new_dirent` changes when it writes one entry of a directory.
use mathlib.Core.List.{Memᴰ}
use model_lib.Prelude.{
  ℕ, ◌+◌, ◌*◌, ◌≤◌, ◌<◌, ◌≡◌, ◌≢◌, ◌⊎◌, sym, ◌∙◌, arith, max, ltb, lt→ltb, List, true,
}
use model_lib.Memory.{copy_to}
use model_lib.Memory.Laws.{copy_to_in, copy_to_out}
use model_lib.Volume.{Volume, write_at}
use model_lib.Volume.Layout.{Layout, write_at_lem, Layout-write_at}
use model_lib.Entry.Dirent.{Dirent}
use model_lib.Entry.Walk.Clusters.{cluster_pos, view}
use model_lib.Entry.Walk.Kept.{Chain-write_at}
use model_lib.Entry.Walk.Chain.{Chain, stop, link, IsCluster}

-- The volume behind the write of an entry.
abbrev pub put_at : (s : ℕ) → Volume → (c n : ℕ) → Dirent → Volume
put_at s v c n d = write_at v (cluster_pos s c + n * 64) d 64

pub view_lem : (v : Volume) (position i : ℕ) → i < 512 → view v position i ≡ v.bytes (position + i)
view_lem v position i h = let inside : ltb i 512 ≡ true = lt→ltb i 512 h in rw inside

pub Chain-IsCluster :
    {s : ℕ} {v : Volume} {c : ℕ} {cs : List ℕ}
    → Chain s v c cs
    → (c' : ℕ) → Memᴰ c' cs
    → IsCluster s v c'
Chain-IsCluster (stop e) c' m = elim m [ ]
Chain-IsCluster (link is rest) c' (Memᴰ.head here) = rw here is
Chain-IsCluster (link is rest) c' (Memᴰ.tail m) =
    let is' = Chain-IsCluster rest c' m in
    record { in_fat = is'.in_fat; in_file = is'.in_file; not_end = is'.not_end }

module _ {s : ℕ} {v : Volume} (l : Layout 2 s v) (c n : ℕ) (is : IsCluster s v c) (h : n < 8)
    (d : Dirent) where
  pub put_lem : put_at s v c n d ≡ record {
    bytes = copy_to v.bytes (cluster_pos s c + n * 64) d 64;
    size = max v.size (cluster_pos s c + n * 64 + 64);
    f_pos = cluster_pos s c + n * 64 + 64;
  }
  put_lem =
      write_at_lem v (cluster_pos s c + n * 64) 64 d (omega arith) (omega (arith, is.in_fat, l.few))

  pub Layout-put_at : ((i : ℕ) → d i < 256) → Layout 2 s (put_at s v c n d)
  Layout-put_at byte =
      Layout-write_at l (cluster_pos s c + n * 64) 64 d (omega arith) (omega arith)
        (omega (arith, is.in_fat, l.few)) byte

  pub Chain-put_at : {c' : ℕ} {cs : List ℕ} → Chain s v c' cs → Chain s (put_at s v c n d) c' cs
  Chain-put_at =
      Chain-write_at l (cluster_pos s c + n * 64) 64 d (omega arith) (omega arith)
        (omega (arith, is.in_fat, l.few))

  pub put_at_self : (i : ℕ) → i < 64 → view (put_at s v c n d) (cluster_pos s c) (n * 64 + i) ≡ d i
  put_at_self i k =
      view_lem (put_at s v c n d) (cluster_pos s c) (n * 64 + i) (omega arith)
      ∙ rw put_lem (
          copy_to_in v.bytes (cluster_pos s c + n * 64) d 64 (cluster_pos s c + (n * 64 + i)) i
            (omega arith) k)

  pub put_at_other :
      (c' m : ℕ) (is' : IsCluster s v c')
      → m < 8
      → (c' ≢ c) ⊎ (m ≢ n)
      → (i : ℕ) → i < 64
      → view (put_at s v c n d) (cluster_pos s c') (m * 64 + i)
        ≡ view v (cluster_pos s c') (m * 64 + i)
  put_at_other c' m is' h' other i k =
      view_lem (put_at s v c n d) (cluster_pos s c') (m * 64 + i) (omega arith)
      ∙ rw put_lem (
          copy_to_out v.bytes (cluster_pos s c + n * 64) d 64 (cluster_pos s c' + (m * 64 + i))
            (apart is.in_fat.0 is'.in_fat.0 other))
      ∙ sym (view_lem v (cluster_pos s c') (m * 64 + i) (omega arith))
    where
      apart :
          2 ≤ c
          → 2 ≤ c'
          → (c' ≢ c) ⊎ (m ≢ n)
          → (cluster_pos s c' + (m * 64 + i) < cluster_pos s c + n * 64)
            ⊎ (cluster_pos s c + n * 64 + 64 ≤ cluster_pos s c' + (m * 64 + i))
      apart low low' other = ground arith
