-- ===== src/Entry/Directory/Others.antt =====
-- entry.c: `alloc_new_dirent` leaves the files of other names as they are.
use mathlib.Core.List.{Memᴰ}
use model_lib.Prelude.{
  ℕ, ◌<◌, ◌≡◌, ◌≢◌, ◌⊎◌, inl, inr, refl, sym, ap, ◌∙◌, arith, true, false, List, Option, some, none,
  Outcome, ok, same_string, length,
}
use model_lib.Memory.{Bytes, c_string}
use model_lib.Volume.{Volume}
use model_lib.Volume.Layout.{Layout}
use model_lib.Entry.Dirent.{Dirent, attribute, entry_in}
use model_lib.Entry.Walk.Clusters.{cluster_pos, view}
use model_lib.Entry.Walk.Chain.{Chain, IsCluster}
use model_lib.Entry.Walk.Slots.{All}
use model_lib.Entry.Walk.First.{first_in-inl, first_in_same}
use model_lib.Entry.Directory.{alloc_new_dirent, get_dentry}
use model_lib.Entry.Directory.Free.{is_free, free_slot, alloc_new_dirent-free_slot}
use model_lib.Entry.Directory.Slot.{put_at, Chain-IsCluster, Layout-put_at, Chain-put_at}
use model_lib.Entry.Directory.Find.{
  TidyAt, is_file_named, find_file, dirent_at, get_dentry-find_file,
}
use model_lib.Entry.Directory.Insert.{file_named_lem, self_kind}
use model_lib.Entry.Directory.Put.{
  Agree, self_named, same_other, other_kind, other_named, entries-after, All-tidy-after, All-Mem,
  file_short,
}

-- Two searches that both find nothing, or entries with the same bytes.
pub data Alike : Outcome (Option Dirent) → Outcome (Option Dirent) → Type 0 where
  neither : Alike (ok none) (ok none)
  both : {e e' : Dirent} → Agree e e' → Alike (ok (some e)) (ok (some e'))

pub free_unnamed :
    (u : List ℕ) (cluster : Bytes) (n : ℕ)
    → is_free cluster n ≡ true
    → is_file_named u cluster n ≡ false
unfolding is_file_named
free_unnamed u cluster n h = ground arith

module _ {s : ℕ} {v : Volume} (l : Layout 2 s v) (c : ℕ) (cs : List ℕ) (chain : Chain s v c cs)
    (tidy : All (TidyAt s v) cs) (c' n : ℕ) (mem : Memᴰ c' cs) (hn : n < 8) (d : Dirent)
    (t u : List ℕ) (kind : attribute d ≡ 1) (named : c_string 59 d 5 ≡ some t)
    (other_name : same_string u t ≡ false)
    (was_unnamed : is_file_named u (view v (cluster_pos s c')) n ≡ false) where
  is : IsCluster s v c'
  is = Chain-IsCluster chain c' mem

  abbrev v' : Volume
  v' = put_at s v c' n d

  still_unnamed : is_file_named u (view v' (cluster_pos s c')) n ≡ false
  still_unnamed =
      file_named_lem u (view v' (cluster_pos s c')) n t hn
        (self_named l c' n is hn d t (file_short d kind) named)
      ∙ rw (self_kind l c' n is hn d t kind named, other_name) refl

  pub same_find : find_file s v' u cs ≡ find_file s v u cs
  same_find =
      first_in_same (λ c1. is_file_named u (view v (cluster_pos s c1)))
        (λ c1. is_file_named u (view v' (cluster_pos s c1))) 0 cs
        (λ c1 m mem1 h.
          entries-after l c' n is hn d t (file_short d kind) named
            (λ c2 m2.
              is_file_named u (view v' (cluster_pos s c2)) m2
              ≡ is_file_named u (view v (cluster_pos s c2)) m2)
            c1 m (still_unnamed ∙ sym was_unnamed) (λ other. same c1 m mem1 h other))
    where
      same :
          (c1 m : ℕ)
          → Memᴰ c1 cs
          → m < 8
          → (c1 ≢ c') ⊎ (m ≢ n)
          → is_file_named u (view v' (cluster_pos s c1)) m
            ≡ is_file_named u (view v (cluster_pos s c1)) m
      same c1 m mem1 h other =
          let is1 = Chain-IsCluster chain c1 mem1 in
          let (t1, e) = (All-Mem (TidyAt s v) cs tidy c1 mem1).named m h in
          file_named_lem u (view v' (cluster_pos s c1)) m t1 h
            (other_named l c' n is hn d t (file_short d kind) named c1 m is1 h other ∙ e)
          ∙ rw (other_kind l c' n is hn d t (file_short d kind) named c1 m is1 h other)
              (sym (file_named_lem u (view v (cluster_pos s c1)) m t1 h e))

  pub same_entry :
      (r : (ℕ × ℕ) ⊎ ℕ)
      → find_file s v u cs ≡ r
      → Alike (ok (dirent_at s v r)) (ok (dirent_at s v' r))
  same_entry (inr before) e = neither
  same_entry (inl (c1, m)) e =
      let hit = first_in-inl (λ c2. is_file_named u (view v (cluster_pos s c2))) 0 cs c1 m e in
      both (
        entries-after l c' n is hn d t (file_short d kind) named
          (λ c2 m2.
            is_file_named u (view v (cluster_pos s c2)) m2 ≡ true
            → Memᴰ c2 cs
            → m2 < 8
            → Agree (entry_in (view v (cluster_pos s c2)) m2)
                (entry_in (view v' (cluster_pos s c2)) m2))
          c1 m (λ yes mem1 h i k. let no = was_unnamed in cc)
          (λ other yes mem1 h.
            same_other l c' n is hn d t (file_short d kind) named c1 m
              (Chain-IsCluster chain c1 mem1) h other)
          hit.2 hit.0 hit.1)

-- On a formatted volume with two-byte indices, for a directory whose entries all have short names that
-- end, with a free entry, and an entry of bytes that is a file of some name: `alloc_new_dirent`
-- succeeds, and `get_dentry` for any other name finds on the volume that it leaves an entry with the
-- same 64 bytes as before, or nothing, as before. All are given more rounds than the directory has
-- clusters.
pub alloc_new_dirent-others :
    (stack : Bytes) (fuel s : ℕ) (v : Volume) (c : ℕ) (cs : List ℕ) (d : Dirent) (t u : List ℕ)
    (c' n : ℕ)
    → Layout 2 s v
    → Chain s v c cs
    → All (TidyAt s v) cs
    → length cs < fuel
    → free_slot s v cs ≡ inl (c', n)
    → ((i : ℕ) → d i < 256)
    → attribute d ≡ 1
    → c_string 59 d 5 ≡ some t
    → same_string u t ≡ false
    → (v' : Volume) × (alloc_new_dirent stack fuel v c d ≡ ok (true, v'))
      × Alike (get_dentry fuel v c u) (get_dentry fuel v' c u)
alloc_new_dirent-others stack fuel s v c cs d t u c' n l chain tidy h free byte kind named
      other_name =
    let at = first_in-inl (λ c1. is_free (view v (cluster_pos s c1))) 0 cs c' n free in
    let unnamed = free_unnamed u (view v (cluster_pos s c')) n at.2 in
    let is = Chain-IsCluster chain c' at.0 in
    let v' = put_at s v c' n d in
    let found' : get_dentry fuel v' c u ≡ ok (dirent_at s v' (find_file s v u cs)) =
      get_dentry-find_file fuel s v' c cs u (Layout-put_at l c' n is at.1 d byte)
        (Chain-put_at l c' n is at.1 d chain)
        (All-tidy-after l c' n is at.1 d t (file_short d kind) named cs (Chain-IsCluster chain)
          tidy)
        h
      ∙ ap (λ r. ok (dirent_at s v' r))
          (same_find l c cs chain tidy c' n at.0 at.1 d t u kind named other_name unnamed) in
    (
      v',
      alloc_new_dirent-free_slot stack fuel s v c cs d c' n l chain tidy h free,
      rw (get_dentry-find_file fuel s v c cs u l chain tidy h, found')
          (same_entry l c cs chain tidy c' n at.0 at.1 d t u kind named other_name unnamed
            (find_file s v u cs) refl),
    )
