-- ===== src/Entry/Directory/Renew.antt =====
-- entry.c: `get_dentry` finds the entry that `alloc_new_entry` renewed.
use mathlib.Core.List.{Memᴰ}
use mathlib.Core.Path.{subst}
use model_lib.Prelude.{
  ℕ, ◌+◌, ◌*◌, ◌<◌, ◌≡◌, sym, ap, ◌∙◌, arith, true, List, some, ok, inl, length,
}
use model_lib.Memory.{Bytes, c_string}
use model_lib.Memory.Laws.{copy_to-byte}
use model_lib.Volume.{Volume}
use model_lib.Volume.Layout.{Layout, Layout-write_at}
use model_lib.Entry.Dirent.{Dirent, attribute, entry_in}
use model_lib.Entry.Walk.Clusters.{cluster_pos, view}
use model_lib.Entry.Walk.Chain.{Chain, IsCluster}
use model_lib.Entry.Walk.Kept.{Chain-write_at}
use model_lib.Entry.Walk.Slots.{All}
use model_lib.Entry.Walk.First.{first_in-inl, first_in_same}
use model_lib.Entry.Directory.{get_dentry, alloc_new_entry}
use model_lib.Entry.Directory.Find.{
  TidyAt, is_file_named, find_file, dirent_at, get_dentry-find_file,
}
use model_lib.Entry.Directory.Slot.{put_at, Chain-IsCluster}
use model_lib.Entry.Directory.Insert.{self_found, other_missed}
use model_lib.Entry.Directory.Put.{entries-after, All-tidy-after, same_self, All-Mem, file_short}
use model_lib.Entry.Directory.Update.{renewed, renew_at, renew_at-put_at, alloc_new_entry-find_file}

-- A volume of which only the bytes matter.
abbrev pub of_bytes : Bytes → Volume
of_bytes m = record { bytes = m; size = 0; f_pos = 0 }

module _ {s : ℕ} {v : Volume} (l : Layout 2 s v) (c : ℕ) (cs : List ℕ) (chain : Chain s v c cs)
    (tidy : All (TidyAt s v) cs) (d : Dirent) (t : List ℕ) (byte : (i : ℕ) → d i < 256)
    (kind : attribute d ≡ 1) (named : c_string 59 d 5 ≡ some t) (c' n : ℕ)
    (there : find_file s v t cs ≡ inl (c', n)) where
  at : Memᴰ c' cs × (n < 8) × (is_file_named t (view v (cluster_pos s c')) n ≡ true)
  at = first_in-inl (λ c1. is_file_named t (view v (cluster_pos s c1))) 0 cs c' n there

  in_directory : IsCluster s v c'
  in_directory = Chain-IsCluster chain c' at.0

  abbrev pub behind : Volume
  behind = renew_at s v c' n d

  pub same_bytes : behind.bytes ≡ (put_at s v c' n d).bytes
  same_bytes = renew_at-put_at l c' n in_directory at.1 d

  pub behind-Layout : Layout 2 s behind
  behind-Layout =
      Layout-write_at l (cluster_pos s c') 512 (renewed (view v (cluster_pos s c')) n d)
        (omega arith) (omega arith) (omega (arith, in_directory.in_fat, l.few))
        (copy_to-byte (view v (cluster_pos s c')) (n * 64) d 64
          (λ i. ground (arith, l.byte (cluster_pos s c' + i))) byte)

  pub behind-Chain : {x : ℕ} {xs : List ℕ} → Chain s v x xs → Chain s behind x xs
  behind-Chain =
      Chain-write_at l (cluster_pos s c') 512 (renewed (view v (cluster_pos s c')) n d)
        (omega arith) (omega arith) (omega (arith, in_directory.in_fat, l.few))

  pub behind-tidy : All (TidyAt s behind) cs
  behind-tidy =
      subst (λ m. All (TidyAt s (of_bytes m)) cs) (sym same_bytes)
        (All-tidy-after l c' n in_directory at.1 d t (file_short d kind) named cs
          (Chain-IsCluster chain) tidy)

  put_found : find_file s (put_at s v c' n d) t cs ≡ inl (c', n)
  put_found =
      first_in_same (λ c1. is_file_named t (view v (cluster_pos s c1)))
        (λ c1. is_file_named t (view (put_at s v c' n d) (cluster_pos s c1))) 0 cs
        (λ c1 m mem h.
          entries-after l c' n in_directory at.1 d t (file_short d kind) named
            (λ c2 m2.
              is_file_named t (view (put_at s v c' n d) (cluster_pos s c2)) m2
              ≡ is_file_named t (view v (cluster_pos s c2)) m2)
            c1 m (self_found l c' n in_directory at.1 d t kind named ∙ sym at.2)
            (λ other.
              other_missed l c' n in_directory at.1 d t kind named c1 m
                (Chain-IsCluster chain c1 mem) h other (All-Mem (TidyAt s v) cs tidy c1 mem)))
      ∙ there

  pub behind_found : find_file s behind t cs ≡ inl (c', n)
  behind_found = ap (λ m. find_file s (of_bytes m) t cs) same_bytes ∙ put_found

  abbrev pub renewed_entry : Dirent
  renewed_entry = entry_in (view behind (cluster_pos s c')) n

  pub renewed_same : (i : ℕ) → i < 64 → renewed_entry i ≡ d i
  renewed_same i h =
      ap (λ m. entry_in (view (of_bytes m) (cluster_pos s c')) n i) same_bytes
      ∙ same_self l c' n in_directory at.1 d t (file_short d kind) named i h

  pub get_dentry-behind :
      (fuel : ℕ) → length cs < fuel → get_dentry fuel behind c t ≡ ok (some renewed_entry)
  get_dentry-behind fuel h =
      get_dentry-find_file fuel s behind c cs t behind-Layout (behind-Chain chain) behind-tidy h
      ∙ ap (λ r. ok (dirent_at s behind r)) behind_found

-- On a formatted volume with two-byte indices, for a directory whose entries all have short names that
-- end and which has a file of the name, and an entry of bytes that is a file of that name:
-- `alloc_new_entry` succeeds, and on the volume that it leaves `get_dentry` finds an entry of the name
-- with the same 64 bytes. Both are given more rounds than the directory has clusters.
pub alloc_new_entry-get_dentry :
    (fuel s : ℕ) (v : Volume) (c : ℕ) (cs : List ℕ) (d : Dirent) (t : List ℕ) (c' n : ℕ)
    → Layout 2 s v
    → Chain s v c cs
    → All (TidyAt s v) cs
    → length cs < fuel
    → find_file s v t cs ≡ inl (c', n)
    → ((i : ℕ) → d i < 256)
    → attribute d ≡ 1
    → c_string 59 d 5 ≡ some t
    → (v' : Volume) × (e : Dirent) × (alloc_new_entry fuel v c t d ≡ ok (true, v'))
      × (get_dentry fuel v' c t ≡ ok (some e))
      × ((i : ℕ) → i < 64 → e i ≡ d i)
alloc_new_entry-get_dentry fuel s v c cs d t c' n l chain tidy h there byte kind named = (
  renew_at s v c' n d,
  renewed_entry l c cs chain tidy d t byte kind named c' n there,
  alloc_new_entry-find_file fuel s v c cs t d c' n l chain tidy h there,
  get_dentry-behind l c cs chain tidy d t byte kind named c' n there fuel h,
  renewed_same l c cs chain tidy d t byte kind named c' n there,
)
