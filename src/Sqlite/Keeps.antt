-- ===== src/Sqlite/Keeps.antt =====
-- sqliteio.c: the other files of the root directory, from volume to volume.
use mathlib.Core.List.{Memᴰ}
use mathlib.Core.Path.{subst}
use model_lib.Prelude.{
  ℕ, suc, ◌+◌, ◌/◌, ◌%◌, ◌≤◌, ◌<◌, ◌≡◌, inl, inr, sym, ◌∙◌, ap, arith, false, List, [], ◌∷◌, ◌++◌,
  some, length, same_string,
}
use model_lib.Memory.{Bytes, c_string}
use model_lib.Volume.{Volume}
use model_lib.Fat.{u32_mod}
use model_lib.Fat.Entries.{entry}
use model_lib.Entry.Dirent.{entry_in, head_cluster_number, size}
use model_lib.Entry.Walk.Clusters.{cluster_pos}
use model_lib.Entry.Walk.Chain.{Chain, IsCluster}
use model_lib.Entry.Walk.Claim.{contents, Chain-used}
use model_lib.Entry.Walk.Extend.{extended, extended-Layout, Chain-apart, contents-extended}
use model_lib.Entry.Walk.Kept.{Chain-write_at}
use model_lib.Entry.Walk.Slots.{All, first_in}
use model_lib.Entry.Walk.First.{first_in-inl}
use model_lib.Entry.Directory.Find.{IsTidy, is_file_named}
use model_lib.Entry.Directory.Slot.{Chain-IsCluster}
use model_lib.File.Append.{nth-Mem}
use model_lib.File.Seek.{nth}
use model_lib.Sqlite.Root.{view-other, find_file-written}
use model_lib.Sqlite.RoundTrip as Trip
use model_lib.Sqlite.Content.{FileAt, is_y, ends, Mem-snoc}
use model_lib.Sqlite.Apart.{FileAt-renewed}
use model_lib.Sqlite.Inside as Inside

-- Two lists have no element in common.
abbrev pub Disjoint : List ℕ → List ℕ → Type 0
Disjoint xs ys = (z : ℕ) → Memᴰ z xs → Memᴰ z ys → ⊥

-- From `v` to `v'`, where the file `t` goes from the clusters `cs` to `cs'`, the other files stay.
pub record Keeps (s : ℕ) (v v' : Volume) (t dir cs cs' : List ℕ) : Type 0 where
  pub others :
      (u : List ℕ) (c n : ℕ) (own : List ℕ) (len : ℕ) (content : Bytes)
      → FileAt s v u dir c n own len content
      → same_string u t ≡ false
      → Disjoint cs own
      → FileAt s v' u dir c n own len content × Disjoint cs' own

pub Keeps-same : (s : ℕ) (v : Volume) (t dir cs : List ℕ) → Keeps s v v t dir cs cs
Keeps-same s v t dir cs = record { others = λ u c n own len content g other apart. (g, apart) }

pub Keeps-then :
    {s : ℕ} {v v' v'' : Volume} {t dir cs cs' cs'' : List ℕ}
    → Keeps s v v' t dir cs cs'
    → Keeps s v' v'' t dir cs' cs''
    → Keeps s v v'' t dir cs cs''
Keeps-then k k' = record {
  others = λ u c n own len content g other apart.
      let (g', apart') = k.others u c n own len content g other apart in
      k'.others u c n own len content g' other apart';
}

-- A cluster more for the file.
module _ {s : ℕ} {v : Volume} {t dir : List ℕ} {c n : ℕ} {cs : List ℕ} {len : ℕ} {content : Bytes}
    (f : FileAt s v t dir c n cs len content) (k y x : ℕ) (at : nth cs k ≡ some y)
    (whole : length cs ≡ suc k) (is : IsCluster s v x) (free : entry 2 v x ≡ 0)
    (small : x < 65536) where
  other_extended :
      {u : List ℕ} {c2 n2 : ℕ} {own : List ℕ} {len2 : ℕ} {content2 : Bytes}
      → FileAt s v u dir c2 n2 own len2 content2
      → Disjoint cs own
      → FileAt s (extended v y x) u dir c2 n2 own len2 content2
  other_extended {u} {c2} {n2} {own} g apart =
      let inside = (is_y f k y x at whole is free small).in_fat in
      let end = ends f k y x at whole is free small in
      let same : contents s (extended v y x) ≡ contents s v =
        contents-extended f.layout y x inside is end free small in
      let y_in : Memᴰ y cs = nth-Mem cs k y at in
      record {
        layout = extended-Layout f.layout y x inside is end free small;
        root =
            Chain-apart f.layout y x inside is end free small g.root
              (λ z m e. f.apart z m (subst (λ w. Memᴰ w cs) (sym e) y_in));
        tidy = subst (λ m. All (λ z. IsTidy (m z)) dir) (sym same) g.tidy;
        there = ap (λ (m : ℕ → Bytes). first_in (λ z. is_file_named u (m z)) 0 dir) same ∙ g.there;
        short_name = ap (λ (m : ℕ → Bytes). c_string 24 (entry_in (m c2) n2) 5) same ∙ g.short_name;
        chain =
            subst
              (λ (m : ℕ → Bytes).
                Chain s (extended v y x) (head_cluster_number (entry_in (m c2) n2)) own)
              (sym same)
              (Chain-apart f.layout y x inside is end free small g.chain
                (λ z m e. apart z (subst (λ w. Memᴰ w cs) (sym e) y_in) m));
        size_is = ap (λ (m : ℕ → Bytes). size (entry_in (m c2) n2)) same ∙ g.size_is;
        apart = g.apart;
        covered = g.covered;
        holds = λ i z h e. ap (λ (m : ℕ → Bytes). m z (i % 512)) same ∙ g.holds i z h e;
      }

  pub Keeps-extended : Keeps s v (extended v y x) t dir cs (cs ++ x ∷ [])
  Keeps-extended = record {
    others = λ u c2 n2 own len2 content2 g other apart. (
      other_extended g apart,
      λ z m in_own. elim (Mem-snoc cs x z m) [
        | inl in_cs ↦ apart z in_cs in_own
        | inr e ↦ Chain-used g.chain z in_own (ap (entry 2 v) e ∙ free)
      ],
    );
  }

-- More bytes in the last cluster of the file.
module _ {s : ℕ} {v : Volume} {t dir : List ℕ} {c n : ℕ} {cs : List ℕ} {len : ℕ} {content : Bytes}
    (f : FileAt s v t dir c n cs len content) (fuel m x : ℕ) (buf : Bytes)
    (byte : (i : ℕ) → buf i < 256) (rounds : length dir < fuel) (at : nth cs (len / 512) ≡ some x)
    (enough : len / 512 < fuel) (some_bytes : 0 < m) (inside : len % 512 + m ≤ 512)
    (fits : len + 512 < u32_mod) where
  abbrev request : Trip.Request fuel s v t dir cs c n x m len
  request = Inside.request f fuel m x buf byte rounds at enough some_bytes inside fits

  abbrev v1 : Volume
  v1 = Trip.v1 request buf byte

  is_x : IsCluster s v x
  is_x = Trip.is request buf byte

  other_written :
      {u : List ℕ} {c2 n2 : ℕ} {own : List ℕ} {len2 : ℕ} {content2 : Bytes}
      → FileAt s v u dir c2 n2 own len2 content2
      → Disjoint cs own
      → FileAt s v1 u dir c2 n2 own len2 content2
  other_written {u} {c2} {n2} {own} {len2} {content2} g apart =
      let in_dir : Memᴰ c2 dir = (first_in-inl _ 0 dir c2 n2 g.there).0 in
      let (is_c2, not_x) = Trip.other request buf byte c2 in_dir in
      let same : contents s v1 c2 ≡ contents s v c2 =
        view-other f.layout x (len % 512) m buf is_x some_bytes inside c2 is_c2 not_x in
      record {
        layout = Trip.l1 request buf byte;
        root = Trip.root1 request buf byte;
        tidy = Trip.tidy1 request buf byte;
        there =
            find_file-written f.layout x (len % 512) m buf is_x some_bytes inside u dir
              (Trip.other request buf byte)
            ∙ g.there;
        short_name = ap (λ (b : Bytes). c_string 24 (entry_in b n2) 5) same ∙ g.short_name;
        chain =
            subst (λ (b : Bytes). Chain s v1 (head_cluster_number (entry_in b n2)) own) (sym same)
              (Chain-write_at f.layout (cluster_pos s x + len % 512) m buf (omega arith) some_bytes
                (omega (arith, is_x.in_fat, f.layout.few)) g.chain);
        size_is = ap (λ (b : Bytes). size (entry_in b n2)) same ∙ g.size_is;
        apart = g.apart;
        covered = g.covered;
        holds = λ i z h e.
            let in_own = nth-Mem own (i / 512) z e in
            ap (λ (b : Bytes). b (i % 512))
              (view-other f.layout x (len % 512) m buf is_x some_bytes inside z
                (Chain-IsCluster g.chain z in_own)
                (λ e'. apart x (nth-Mem cs (len / 512) x at) (subst (λ w. Memᴰ w own) e' in_own)))
            ∙ g.holds i z h e;
      }

  pub Keeps-behind :
      Keeps s v
        (Inside.behind f fuel m x buf byte rounds at enough some_bytes inside fits)
        t
        dir
        cs
        cs
  Keeps-behind = record {
    others = λ u c2 n2 own len2 content2 g other apart. (
      FileAt-renewed (other_written g apart) (Trip.there1 request buf byte)
          (Trip.d1 request buf byte) (Trip.d1_byte request buf byte) (Trip.kind1 request buf byte)
          (Trip.name1 request buf byte) other,
      apart,
    );
  }
