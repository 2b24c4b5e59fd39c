-- ===== src/Sqlite/Beside.antt =====
-- sqliteio.c: a new file of the root directory leaves the other files as they are.
use mathlib.Core.List.{Memᴰ}
use mathlib.Core.Path.{subst}
use model_lib.Prelude.{
  ℕ, ◌+◌, ◌*◌, ◌/◌, ◌%◌, ◌<◌, ◌==◌, ◌≡◌, ◌≢◌, ◌⊎◌, inl, inr, sym, ◌∙◌, ap, ap₂, ==→ne, ==→eq, arith,
  true, false, Bool-cases, List, some, same_string,
}
use model_lib.Memory.{Bytes, c_string}
use model_lib.Memory.Strings.{c_string-same}
use model_lib.Volume.{Volume}
use model_lib.Fat.Entries.{entry}
use model_lib.Entry.Dirent.{Dirent, attribute, entry_in, head_cluster_number, size}
use model_lib.Entry.Made.{head_same, size_same}
use model_lib.Entry.Walk.Chain.{Chain, IsCluster}
use model_lib.Entry.Walk.Claim.{claimed, claimed-Layout, Chain-claimed, contents, contents-claimed}
use model_lib.Entry.Walk.First.{first_in-inl}
use model_lib.Entry.Walk.Slots.{All, first_in}
use model_lib.Entry.Directory.Find.{IsTidy, is_file_named}
use model_lib.Entry.Directory.Free.{is_free}
use model_lib.Entry.Directory.Others.{same_find, free_unnamed}
use model_lib.Entry.Directory.Put.{file_short, same_other, All-tidy-after}
use model_lib.Entry.Directory.Slot.{Chain-IsCluster, put_at, Layout-put_at, Chain-put_at}
use model_lib.File.Append.{nth-Mem}
use model_lib.Sqlite.Content.{FileAt}
use model_lib.Sqlite.Root.{view-other}

-- An entry that is put into a free place of the directory leaves another file.
module _ {s : ℕ} {v : Volume} {t u dir : List ℕ} {c n c2 n2 : ℕ} {cs2 : List ℕ} {len2 : ℕ}
    {content2 : Bytes} (g : FileAt s v u dir c2 n2 cs2 len2 content2) (mem : Memᴰ c dir)
    (hn : n < 8) (free : is_free (contents s v c) n ≡ true) (d : Dirent)
    (byte : (i : ℕ) → d i < 256) (kind : attribute d ≡ 1) (named : c_string 59 d 5 ≡ some t)
    (other_name : same_string u t ≡ false) where
  at2 : Memᴰ c2 dir × (n2 < 8) × (is_file_named u (contents s v c2) n2 ≡ true)
  at2 = first_in-inl (λ z. is_file_named u (contents s v z)) 0 dir c2 n2 g.there

  is_c : IsCluster s v c
  is_c = Chain-IsCluster g.root c mem

  unnamed : is_file_named u (contents s v c) n ≡ false
  unnamed = free_unnamed u (contents s v c) n free

  elsewhere : (c2 ≢ c) ⊎ (n2 ≢ n)
  elsewhere = elim (Bool-cases (c2 == c)) [
    | inr ne ↦ inl (==→ne c2 c ne)
    | inl e ↦ inr (λ e'. clash (==→eq c2 c e) e')
  ]
    where
      clash : c2 ≡ c → n2 ≡ n → ⊥
      clash e e' =
          let is_u : is_file_named u (contents s v c) n ≡ true =
            ap₂ (λ z i. is_file_named u (contents s v z) i) (sym e) (sym e') ∙ at2.2 in
          let not_u = unnamed in cc

  abbrev v' : Volume
  v' = put_at s v c n d

  entry_kept : (i : ℕ) → i < 64 → entry_in (contents s v' c2) n2 i ≡ entry_in (contents s v c2) n2 i
  entry_kept =
      same_other g.layout c n is_c hn d t (file_short d kind) named c2 n2
        (Chain-IsCluster g.root c2 at2.0) at2.1 elsewhere

  file_cluster_kept : (z : ℕ) → Memᴰ z cs2 → contents s v' z ≡ contents s v z
  file_cluster_kept z m =
      view-other g.layout c (n * 64) 64 d is_c (omega arith) (omega arith) z
        (Chain-IsCluster g.chain z m) (λ e. g.apart z (subst (λ w. Memᴰ w dir) (sym e) mem) m)

  pub FileAt-put : FileAt s v' u dir c2 n2 cs2 len2 content2
  FileAt-put = record {
    layout = Layout-put_at g.layout c n is_c hn d byte;
    root = Chain-put_at g.layout c n is_c hn d g.root;
    tidy =
        All-tidy-after g.layout c n is_c hn d t (file_short d kind) named dir
          (Chain-IsCluster g.root) g.tidy;
    there =
        same_find g.layout 2 dir g.root g.tidy c n mem hn d t u kind named other_name unnamed
        ∙ g.there;
    short_name =
        c_string-same 24 (entry_in (contents s v c2) n2) (entry_in (contents s v' c2) n2) 5 5
          (λ i h. entry_kept (5 + i) (omega arith))
        ∙ g.short_name;
    chain =
        subst (λ h. Chain s v' h cs2)
          (sym
            (head_same (entry_in (contents s v c2) n2) (entry_in (contents s v' c2) n2) entry_kept))
          (Chain-put_at g.layout c n is_c hn d g.chain);
    size_is =
        size_same (entry_in (contents s v c2) n2) (entry_in (contents s v' c2) n2) entry_kept
        ∙ g.size_is;
    apart = g.apart;
    covered = g.covered;
    holds = λ i x h e.
        ap (λ (m : Bytes). m (i % 512)) (file_cluster_kept x (nth-Mem cs2 (i / 512) x e))
        ∙ g.holds i x h e;
  }

-- A free cluster that gets an end mark leaves every file.
pub FileAt-claimed :
    {s : ℕ} {v : Volume} {u dir : List ℕ} {c n : ℕ} {cs : List ℕ} {len : ℕ} {content : Bytes}
    (g : FileAt s v u dir c n cs len content) (head : ℕ)
    → IsCluster s v head
    → entry 2 v head ≡ 0
    → FileAt s (claimed v head) u dir c n cs len content
FileAt-claimed {s} {v} {u} {dir} {c} {n} {cs} g head is free =
    let same : contents s (claimed v head) ≡ contents s v =
      contents-claimed g.layout head is free in
    record {
      layout = claimed-Layout g.layout head is free;
      root = Chain-claimed g.layout head is free g.root;
      tidy = subst (λ m. All (λ z. IsTidy (m z)) dir) (sym same) g.tidy;
      there = ap (λ (m : ℕ → Bytes). first_in (λ z. is_file_named u (m z)) 0 dir) same ∙ g.there;
      short_name = ap (λ (m : ℕ → Bytes). c_string 24 (entry_in (m c) n) 5) same ∙ g.short_name;
      chain =
          subst
            (λ (m : ℕ → Bytes).
              Chain s (claimed v head) (head_cluster_number (entry_in (m c) n)) cs)
            (sym same) (Chain-claimed g.layout head is free g.chain);
      size_is = ap (λ (m : ℕ → Bytes). size (entry_in (m c) n)) same ∙ g.size_is;
      apart = g.apart;
      covered = g.covered;
      holds = λ i z h e. ap (λ (m : ℕ → Bytes). m z (i % 512)) same ∙ g.holds i z h e;
    }
