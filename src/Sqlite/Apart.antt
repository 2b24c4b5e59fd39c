-- ===== src/Sqlite/Apart.antt =====
-- sqliteio.c: a write to one file of the root directory leaves the other files as they are.
use mathlib.Core.List.{Memᴰ}
use mathlib.Core.Path.{subst}
use model_lib.Prelude.{
  ℕ, ◌+◌, ◌/◌, ◌%◌, ◌<◌, ◌==◌, ◌≡◌, ◌≢◌, ◌⊎◌, inl, inr, refl, sym, ◌∙◌, ap, ap₂, ==→ne, ==→eq,
  arith, true, false, Bool-cases, List, some, same_string, same_string→eq,
}
use model_lib.Memory.{Bytes, c_string}
use model_lib.Memory.Strings.{c_string-same}
use model_lib.Volume.{Volume, write_at}
use model_lib.Entry.Dirent.{Dirent, attribute, entry_in, is_normal_file}
use model_lib.Entry.Made.{head_same, size_same}
use model_lib.Entry.Walk.Clusters.{cluster_pos, view}
use model_lib.Entry.Walk.Chain.{Chain, IsCluster}
use model_lib.Entry.Walk.Claim.{contents}
use model_lib.Entry.Walk.First.{first_in-inl}
use model_lib.Entry.Directory.Find.{TidyAt, IsTidy, is_file_named, find_file}
use model_lib.Entry.Directory.Insert.{file_named_lem}
use model_lib.Entry.Directory.Others.{same_find}
use model_lib.Entry.Directory.Put.{file_short, same_other, All-Mem}
use model_lib.Entry.Directory.Renew as Renew
use model_lib.Entry.Directory.Slot.{Chain-IsCluster, put_at}
use model_lib.Entry.Directory.Update.{renewed, renew_at}
use model_lib.File.Append.{nth-Mem}
use model_lib.Sqlite.Content.{FileAt}
use model_lib.Sqlite.Root.{view-other}

-- An entry of one name has no other.
named_other :
    (t u : List ℕ) (cluster : Bytes) (n : ℕ)
    → IsTidy cluster
    → n < 8
    → same_string u t ≡ false
    → is_file_named t cluster n ≡ true
    → is_file_named u cluster n ≡ false
named_other t u cluster n tidy h other is_t =
    let (t1, named) = tidy.named n h in
    let as_t = file_named_lem t cluster n t1 h named in
    let as_u = file_named_lem u cluster n t1 h named in
    elim (Bool-cases (is_normal_file (attribute (entry_in cluster n)))) [
      | inl yes_file ↦ elim (Bool-cases (same_string t t1)) [
        | inl same ↦
            let e : t ≡ t1 = same_string→eq t t1 same in as_u ∙ rw (yes_file, ← e, other) refl
        | inr differs ↦ cc (rw (as_t, yes_file, differs) at is_t)
      ]
      | inr no_file ↦ as_u ∙ rw no_file refl
    ]

-- The renewal of the entry of one file leaves another.
module _ {s : ℕ} {v : Volume} {t u dir : List ℕ} {c n c2 n2 : ℕ} {cs2 : List ℕ} {len2 : ℕ}
    {content2 : Bytes} (g : FileAt s v u dir c2 n2 cs2 len2 content2)
    (there : find_file s v t dir ≡ inl (c, n)) (d : Dirent) (byte : (i : ℕ) → d i < 256)
    (kind : attribute d ≡ 1) (named : c_string 59 d 5 ≡ some t)
    (other_name : same_string u t ≡ false) where
  at : Memᴰ c dir × (n < 8) × (is_file_named t (contents s v c) n ≡ true)
  at = first_in-inl (λ z. is_file_named t (contents s v z)) 0 dir c n there

  at2 : Memᴰ c2 dir × (n2 < 8) × (is_file_named u (contents s v c2) n2 ≡ true)
  at2 = first_in-inl (λ z. is_file_named u (contents s v z)) 0 dir c2 n2 g.there

  is_c : IsCluster s v c
  is_c = Chain-IsCluster g.root c at.0

  unnamed : is_file_named u (contents s v c) n ≡ false
  unnamed =
      named_other t u (contents s v c) n (All-Mem (TidyAt s v) dir g.tidy c at.0) at.1 other_name
        at.2

  elsewhere : (c2 ≢ c) ⊎ (n2 ≢ n)
  elsewhere = elim (Bool-cases (c2 == c)) [
    | inr ne ↦ inl (==→ne c2 c ne)
    | inl e ↦ inr (λ e'. clash (==→eq c2 c e) e')
  ]
    where
      clash : c2 ≡ c → n2 ≡ n → ⊥
      clash e e' =
          let yes : is_file_named u (contents s v c) n ≡ true =
            ap₂ (λ z i. is_file_named u (contents s v z) i) (sym e) (sym e') ∙ at2.2 in
          let no = unnamed in cc

  abbrev v' : Volume
  v' = renew_at s v c n d

  same_bytes : v'.bytes ≡ (put_at s v c n d).bytes
  same_bytes = Renew.same_bytes g.layout 2 dir g.root g.tidy d t byte kind named c n there

  entry_kept : (i : ℕ) → i < 64 → entry_in (contents s v' c2) n2 i ≡ entry_in (contents s v c2) n2 i
  entry_kept i h =
      ap (λ m. entry_in (view (Renew.of_bytes m) (cluster_pos s c2)) n2 i) same_bytes
      ∙ same_other g.layout c n is_c at.1 d t (file_short d kind) named c2 n2
          (Chain-IsCluster g.root c2 at2.0) at2.1 elsewhere i h

  file_cluster_kept : (z : ℕ) → Memᴰ z cs2 → contents s v' z ≡ contents s v z
  file_cluster_kept z m =
      let start : cluster_pos s c + 0 ≡ cluster_pos s c = omega arith in
      let cluster : Bytes = renewed (view v (cluster_pos s c)) n d in
      subst (λ p. view (write_at v p cluster 512) (cluster_pos s z) ≡ contents s v z) start
        (view-other g.layout c 0 512 cluster is_c (omega arith) (omega arith) z
          (Chain-IsCluster g.chain z m) (λ e. g.apart z (subst (λ w. Memᴰ w dir) (sym e) at.0) m))

  pub FileAt-renewed : FileAt s v' u dir c2 n2 cs2 len2 content2
  FileAt-renewed = record {
    layout = Renew.behind-Layout g.layout 2 dir g.root g.tidy d t byte kind named c n there;
    root = Renew.behind-Chain g.layout 2 dir g.root g.tidy d t byte kind named c n there g.root;
    tidy = Renew.behind-tidy g.layout 2 dir g.root g.tidy d t byte kind named c n there;
    there =
        ap (λ m. find_file s (Renew.of_bytes m) u dir) same_bytes
        ∙ same_find g.layout 2 dir g.root g.tidy c n at.0 at.1 d t u kind named other_name unnamed
        ∙ g.there;
    short_name =
        c_string-same 24 (entry_in (contents s v c2) n2) (entry_in (contents s v' c2) n2) 5 5
          (λ i h. entry_kept (5 + i) (omega arith))
        ∙ g.short_name;
    chain =
        subst (λ h. Chain s v' h cs2)
          (sym
            (head_same (entry_in (contents s v c2) n2) (entry_in (contents s v' c2) n2) entry_kept))
          (Renew.behind-Chain g.layout 2 dir g.root g.tidy d t byte kind named c n there g.chain);
    size_is =
        size_same (entry_in (contents s v c2) n2) (entry_in (contents s v' c2) n2) entry_kept
        ∙ g.size_is;
    apart = g.apart;
    covered = g.covered;
    holds = λ i x h e.
        ap (λ (m : Bytes). m (i % 512)) (file_cluster_kept x (nth-Mem cs2 (i / 512) x e))
        ∙ g.holds i x h e;
  }
