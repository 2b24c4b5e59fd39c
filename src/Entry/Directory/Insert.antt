-- ===== src/Entry/Directory/Insert.antt =====
-- entry.c: an entry that `alloc_new_dirent` puts into a directory is found by `get_dentry`.
use mathlib.Core.List.{Memᴰ}
use model_lib.Prelude.{
  ℕ, ◌<◌, ◌≡◌, ◌≢◌, ◌⊎◌, inl, inr, refl, sym, ap, ◌∙◌, true, ◌&&◌, List, some, ok, same_string,
  same_string_refl, length,
}
use model_lib.Memory.{Bytes, c_string}
use model_lib.Volume.{Volume}
use model_lib.Volume.Layout.{Layout}
use model_lib.Entry.Dirent.{Dirent, is_normal_file, attribute, entry_in}
use model_lib.Entry.Walk.Clusters.{cluster_pos, view}
use model_lib.Entry.Walk.Chain.{Chain, IsCluster}
use model_lib.Entry.Walk.Slots.{All}
use model_lib.Entry.Walk.First.{first_in-inl, first_in-inr, first_in-only}
use model_lib.Entry.Directory.{alloc_new_dirent, get_dentry}
use model_lib.Entry.Directory.Free.{is_free, free_slot, alloc_new_dirent-free_slot}
use model_lib.Entry.Directory.Slot.{put_at, Chain-IsCluster, Layout-put_at, Chain-put_at}
use model_lib.Entry.Directory.Put.{
  file_short, slot, same_self, self_attribute, self_named, other_kind, other_named, All-tidy-after,
  All-Mem,
}
use model_lib.Entry.Directory.Find.{
  slot_name, TidyAt, has_name, is_file_named, entry_name-slot_name, find_file, dirent_at,
  get_dentry-find_file,
}

pub file_named_lem :
    (file_name : List ℕ) (cluster : Bytes) (n : ℕ) (t : List ℕ)
    → n < 8
    → slot_name cluster n ≡ some t
    → is_file_named file_name cluster n
      ≡ (is_normal_file (attribute (entry_in cluster n)) && same_string file_name t)
unfolding is_file_named
file_named_lem file_name cluster n t h e =
    rw (is_file_named, has_name, entry_name-slot_name cluster n t h e) refl

module _ {s : ℕ} {v : Volume} (l : Layout 2 s v) (c' n : ℕ) (is : IsCluster s v c') (hn : n < 8)
    (d : Dirent) (t : List ℕ) (kind : attribute d ≡ 1) (named : c_string 59 d 5 ≡ some t) where
  pub self_kind : attribute (slot s (put_at s v c' n d) c' n) ≡ 1
  self_kind = self_attribute l c' n is hn d t (file_short d kind) named ∙ kind

  pub self_found : is_file_named t (view (put_at s v c' n d) (cluster_pos s c')) n ≡ true
  self_found =
      file_named_lem t (view (put_at s v c' n d) (cluster_pos s c')) n t hn
        (self_named l c' n is hn d t (file_short d kind) named)
      ∙ rw (self_kind, same_string_refl t) refl

  pub other_missed :
      (c m : ℕ)
      → IsCluster s v c
      → m < 8
      → (c ≢ c') ⊎ (m ≢ n)
      → TidyAt s v c
      → is_file_named t (view (put_at s v c' n d) (cluster_pos s c)) m
        ≡ is_file_named t (view v (cluster_pos s c)) m
  other_missed c m is' h other tidy =
      let (t', e) = tidy.named m h in
      file_named_lem t (view (put_at s v c' n d) (cluster_pos s c)) m t' h
        (other_named l c' n is hn d t (file_short d kind) named c m is' h other ∙ e)
      ∙ rw (other_kind l c' n is hn d t (file_short d kind) named c m is' h other)
          (sym (file_named_lem t (view v (cluster_pos s c)) m t' h e))

-- The entry that was put in is the file of its name.
pub find_file-put_at :
    {s : ℕ} {v : Volume} (l : Layout 2 s v) (c : ℕ) (cs : List ℕ) (d : Dirent) (t : List ℕ)
    (c' n last : ℕ)
    → Chain s v c cs
    → All (TidyAt s v) cs
    → Memᴰ c' cs
    → n < 8
    → find_file s v t cs ≡ inr last
    → attribute d ≡ 1
    → c_string 59 d 5 ≡ some t
    → find_file s (put_at s v c' n d) t cs ≡ inl (c', n)
find_file-put_at {s} {v} l c cs d t c' n last chain tidy mem hn missing kind named =
    let clusters = Chain-IsCluster chain in
    let is = clusters c' mem in
    let v' = put_at s v c' n d in
    first_in-only (λ c1. is_file_named t (view v' (cluster_pos s c1))) 0 cs c' n mem hn
      (self_found l c' n is hn d t kind named)
      (λ c1 m mem' hm other.
        other_missed l c' n is hn d t kind named c1 m (clusters c1 mem') hm other
          (All-Mem (TidyAt s v) cs tidy c1 mem')
        ∙ first_in-inr (λ c2. is_file_named t (view v (cluster_pos s c2))) 0 cs last missing c1 m
            mem' hm)

-- On a formatted volume with two-byte indices, for a directory whose entries all have short names that
-- end, with a free entry and no file of the name, and an entry of bytes that is a file of that name:
-- `alloc_new_dirent` succeeds, and on the volume that it leaves `get_dentry` finds an entry of the name
-- with the same 64 bytes. Both are given more rounds than the directory has clusters.
pub alloc_new_dirent-get_dentry :
    (stack : Bytes) (fuel s : ℕ) (v : Volume) (c : ℕ) (cs : List ℕ) (d : Dirent) (t : List ℕ)
    (c' n last : ℕ)
    → Layout 2 s v
    → Chain s v c cs
    → All (TidyAt s v) cs
    → length cs < fuel
    → free_slot s v cs ≡ inl (c', n)
    → find_file s v t cs ≡ inr last
    → ((i : ℕ) → d i < 256)
    → attribute d ≡ 1
    → c_string 59 d 5 ≡ some t
    → (v' : Volume) × (e : Dirent) × (alloc_new_dirent stack fuel v c d ≡ ok (true, v'))
      × (get_dentry fuel v' c t ≡ ok (some e))
      × ((i : ℕ) → i < 64 → e i ≡ d i)
alloc_new_dirent-get_dentry stack fuel s v c cs d t c' n last l chain tidy h free missing byte kind
      named =
    let at = first_in-inl (λ c1. is_free (view v (cluster_pos s c1))) 0 cs c' n free in
    let is = Chain-IsCluster chain c' at.0 in
    let v' = put_at s v c' n d in
    (
      v',
      entry_in (view v' (cluster_pos s c')) n,
      alloc_new_dirent-free_slot stack fuel s v c cs d c' n l chain tidy h free,
      get_dentry-find_file fuel s v' c cs t (Layout-put_at l c' n is at.1 d byte)
            (Chain-put_at l c' n is at.1 d chain)
            (All-tidy-after l c' n is at.1 d t (file_short d kind) named cs (Chain-IsCluster chain)
              tidy)
            h
          ∙ ap (λ r. ok (dirent_at s v' r))
              (find_file-put_at l c cs d t c' n last chain tidy at.0 at.1 missing kind named),
      same_self l c' n is at.1 d t (file_short d kind) named,
    )
