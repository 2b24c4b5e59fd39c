-- ===== src/Sqlite/Content.antt =====
-- sqliteio.c: a file of the root directory and its bytes, as the volume holds them.
use mathlib.Core.List.{Memᴰ}
use mathlib.Core.Path.{subst}
use model_lib.Prelude.{
  ℕ, zero, suc, ◌+◌, ◌*◌, ◌/◌, ◌%◌, ◌≤◌, ◌<◌, ◌≡◌, ◌⊎◌, inl, inr, refl, sym, ◌∙◌, ap, arith, List,
  [], ◌∷◌, ◌++◌, some, length, length-append,
}
use model_lib.Memory.{Bytes, c_string}
use model_lib.Volume.{Volume}
use model_lib.Volume.Layout.{Layout}
use model_lib.Fat.Entries.{entry}
use model_lib.Entry.Dirent.{entry_in, head_cluster_number, size}
use model_lib.Entry.Walk.Chain.{Chain, stop, link, IsCluster, end_mark}
use model_lib.Entry.Walk.Once.{Chain-length}
use model_lib.Entry.Walk.Claim.{contents, Chain-used}
use model_lib.Entry.Walk.Extend.{
  extended, extended-Layout, Chain-extended, Chain-apart, contents-extended,
}
use model_lib.Entry.Walk.Slots.{All, first_in}
use model_lib.Entry.Directory.Find.{IsTidy, TidyAt, is_file_named, find_file}
use model_lib.Entry.Directory.Slot.{Chain-IsCluster}
use model_lib.File.Seek.{nth}
use model_lib.File.Append.{last-end_mark, nth-Mem}

Chain-from :
    {s : ℕ} {v : Volume} {c : ℕ} {cs : List ℕ} (k x : ℕ)
    → Chain s v c cs
    → nth cs k ≡ some x
    → (cs' : List ℕ) × Chain s v x cs' × (length cs ≡ k + length cs')
unfolding nth
Chain-from k x (stop e) at = cc
Chain-from {s} {v} zero x (link {c} {cs} is rest) at =
    let here : c ≡ x = cc in
    (c ∷ cs, subst (λ z. Chain s v z (c ∷ cs)) here (link is rest), omega arith)
Chain-from (suc k) x (link is rest) at =
    let (cs', chain, e) = Chain-from k x rest at in (cs', chain, omega (arith, e))

-- No cluster stands twice in a chain.
pub Chain-once :
    {s : ℕ} {v : Volume} {c : ℕ} {cs : List ℕ} (i j x : ℕ)
    → Chain s v c cs
    → nth cs i ≡ some x
    → nth cs j ≡ some x
    → i ≡ j
Chain-once i j x chain at at' =
    let (xs, from_i, e) = Chain-from i x chain at in
    let (ys, from_j, e') = Chain-from j x chain at' in
    omega (arith, e, e', Chain-length from_i from_j)

pub nth-short : (cs ds : List ℕ) (k : ℕ) → k < length cs → nth (cs ++ ds) k ≡ nth cs k
unfolding nth
nth-short [] ds k h = absurd (omega arith)
nth-short (c ∷ cs) ds zero h = refl
nth-short (c ∷ cs) ds (suc k) h = nth-short cs ds k (omega arith)

pub Mem-snoc : (cs : List ℕ) (x z : ℕ) → Memᴰ z (cs ++ x ∷ []) → Memᴰ z cs ⊎ (z ≡ x)
Mem-snoc [] x z (Memᴰ.head e) = inr e
Mem-snoc [] x z (Memᴰ.tail m) = elim m [ ]
Mem-snoc (c ∷ cs) x z (Memᴰ.head e) = inl (Memᴰ.head e)
Mem-snoc (c ∷ cs) x z (Memᴰ.tail m) = elim (Mem-snoc cs x z m) [
  | inl in_cs ↦ inl (Memᴰ.tail in_cs)
  | inr e ↦ inr e
]

-- The entry `n` of cluster `c` of the root directory, whose clusters are `dir`, is that of the file
-- `t`. The file has the clusters `cs` and holds the first `len` bytes of `content`.
pub record FileAt (s : ℕ) (v : Volume) (t dir : List ℕ) (c n : ℕ) (cs : List ℕ) (len : ℕ)
    (content : Bytes) : Type 0 where
  pub layout : Layout 2 s v
  pub root : Chain s v 2 dir
  pub tidy : All (TidyAt s v) dir
  pub there : find_file s v t dir ≡ inl (c, n)
  pub short_name : c_string 24 (entry_in (contents s v c) n) 5 ≡ some t
  pub chain : Chain s v (head_cluster_number (entry_in (contents s v c) n)) cs
  pub size_is : size (entry_in (contents s v c) n) ≡ len
  pub apart : (x : ℕ) → Memᴰ x dir → Memᴰ x cs → ⊥
  pub covered : len ≤ 512 * length cs
  pub holds : (i x : ℕ) → i < len → nth cs (i / 512) ≡ some x → contents s v x (i % 512) ≡ content i

-- A free cluster that is linked to the end of the file's chain.
module _ {s : ℕ} {v : Volume} {t dir : List ℕ} {c n : ℕ} {cs : List ℕ} {len : ℕ} {content : Bytes}
    (f : FileAt s v t dir c n cs len content) (k y x : ℕ) (at : nth cs k ≡ some y)
    (whole : length cs ≡ suc k) (is : IsCluster s v x) (free : entry 2 v x ≡ 0)
    (small : x < 65536) where
  pub is_y : IsCluster s v y
  is_y = Chain-IsCluster f.chain y (nth-Mem cs k y at)

  pub ends : entry 2 v y ≡ end_mark
  ends = last-end_mark k y f.chain at whole

  same : contents s (extended v y x) ≡ contents s v
  same = contents-extended f.layout y x is_y.in_fat is ends free small

  longer_apart : (z : ℕ) → Memᴰ z dir → Memᴰ z (cs ++ x ∷ []) → ⊥
  longer_apart z in_dir m = elim (Mem-snoc cs x z m) [
    | inl in_cs ↦ f.apart z in_dir in_cs
    | inr e ↦ Chain-used f.root z in_dir (ap (entry 2 v) e ∙ free)
  ]

  longer_holds :
      (i z : ℕ)
      → i < len
      → nth (cs ++ x ∷ []) (i / 512) ≡ some z
      → contents s (extended v y x) z (i % 512) ≡ content i
  longer_holds i z h e =
      ap (λ (m : ℕ → Bytes). m z (i % 512)) same
      ∙ f.holds i z h (sym (nth-short cs (x ∷ []) (i / 512) (omega (arith, f.covered))) ∙ e)

  -- The file, with the same bytes, has a cluster more.
  pub FileAt-extended : FileAt s (extended v y x) t dir c n (cs ++ x ∷ []) len content
  FileAt-extended = record {
    layout = extended-Layout f.layout y x is_y.in_fat is ends free small;
    root =
        Chain-apart f.layout y x is_y.in_fat is ends free small f.root
          (λ z in_dir e. f.apart z in_dir (subst (λ w. Memᴰ w cs) (sym e) (nth-Mem cs k y at)));
    tidy = subst (λ m. All (λ z. IsTidy (m z)) dir) (sym same) f.tidy;
    there = ap (λ (m : ℕ → Bytes). first_in (λ z. is_file_named t (m z)) 0 dir) same ∙ f.there;
    short_name = ap (λ (m : ℕ → Bytes). c_string 24 (entry_in (m c) n) 5) same ∙ f.short_name;
    chain =
        subst
          (λ (m : ℕ → Bytes).
            Chain s (extended v y x) (head_cluster_number (entry_in (m c) n)) (cs ++ x ∷ []))
          (sym same)
          (Chain-extended f.layout y x is_y.in_fat is ends free small f.chain (nth-Mem cs k y at));
    size_is = ap (λ (m : ℕ → Bytes). size (entry_in (m c) n)) same ∙ f.size_is;
    apart = longer_apart;
    covered = omega (arith, f.covered, length-append cs (x ∷ []));
    holds = longer_holds;
  }
