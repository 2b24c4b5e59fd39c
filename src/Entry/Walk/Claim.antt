-- ===== src/Entry/Walk/Claim.antt =====
-- fat.c and entry.c: what it does to the directories and files when a free cluster gets an end mark.
use mathlib.Core.List.{Memᴰ}
use mathlib.Core.Path.{subst}
use model_lib.Prelude.{
  ℕ, ◌+◌, ◌≤◌, ◌<◌, ◌≡◌, ◌≢◌, refl, sym, ◌∙◌, ap, arith, ltb, Bool-cases, inl, inr, fun_ext, ne→==,
  eq→==, List, [], ◌∷◌,
}
use model_lib.Memory.{Bytes, bytes_of}
use model_lib.Memory.Laws.{copy_to_out}
use model_lib.Volume.{Volume}
use model_lib.Volume.Layout.{Layout}
use model_lib.Fat.Entries.{
  InFat, entry, entry_pos, set_entry, set_entry_lem, entry-set_entry, Layout-set_entry,
}
use model_lib.Entry.Walk.Clusters.{cluster_pos, data_start, view}
use model_lib.Entry.Walk.Chain.{Chain, stop, link, end_mark, IsCluster}

-- The volume behind the end mark.
abbrev pub claimed : Volume → ℕ → Volume
claimed v head = set_entry 2 v head end_mark

-- The contents of all clusters.
abbrev pub contents : (s : ℕ) → Volume → ℕ → Bytes
contents s v c = view v (cluster_pos s c)

-- A chain holds no cluster whose entry is 0.
pub Chain-used :
    {s : ℕ} {v : Volume} {c : ℕ} {cs : List ℕ}
    → Chain s v c cs
    → (x : ℕ) → Memᴰ x cs
    → entry 2 v x ≢ 0
Chain-used (stop e) x m = elim m [ ]
Chain-used (link is (stop e)) x (Memᴰ.head here) = rw here (λ z. omega (arith, e, z))
Chain-used (link is (link is' rest)) x (Memᴰ.head here) =
    rw here (λ z. omega (arith, is'.in_fat, z))
Chain-used (link is rest) x (Memᴰ.tail m) = Chain-used rest x m

-- A write to an entry of the table keeps the chains that the entry is not in, and all clusters.
module _ {s : ℕ} {v : Volume} (l : Layout 2 s v) (i value : ℕ) (inside : InFat 2 s i) where
  pub IsCluster-set_entry : (c : ℕ) → IsCluster s v c → IsCluster s (set_entry 2 v i value) c
  IsCluster-set_entry c is = record {
    in_fat = is.in_fat;
    in_file = rw (set_entry_lem l i value inside) (omega (arith, is.in_file));
    not_end = is.not_end;
  }

  pub entry-set_other : (c : ℕ) → 2 ≤ c → c ≢ i → entry 2 (set_entry 2 v i value) c ≡ entry 2 v c
  entry-set_other c low ne =
      entry-set_entry l i c value inside low ∙ rw (ne→== i c (λ e. ne (sym e))) refl

  pub entry-set_self : value < 65536 → entry 2 (set_entry 2 v i value) i ≡ value
  entry-set_self small =
      entry-set_entry l i i value inside inside.0 ∙ rw (eq→== i i refl) (omega arith)

  pub Chain-set_entry :
      {c : ℕ} {cs : List ℕ}
      → ((x : ℕ) → Memᴰ x cs → x ≢ i)
      → Chain s v c cs
      → Chain s (set_entry 2 v i value) c cs
  Chain-set_entry other (stop e) = stop e
  Chain-set_entry other (link {c} {cs} is rest) = link (IsCluster-set_entry c is) (
      subst (λ x. Chain s (set_entry 2 v i value) x cs)
        (sym (entry-set_other c is.in_fat.0 (other c (Memᴰ.head refl))))
        (Chain-set_entry (λ x m. other x (Memᴰ.tail m)) rest))

  pub bytes-set_entry : (p : ℕ) → data_start s ≤ p → (set_entry 2 v i value).bytes p ≡ v.bytes p
  bytes-set_entry p h =
      rw (set_entry_lem l i value inside)
        (copy_to_out v.bytes (entry_pos 2 i) (bytes_of value) 2 p (omega arith))

  pub contents-set_entry : contents s (set_entry 2 v i value) ≡ contents s v
  contents-set_entry = fun_ext λ c. fun_ext λ j. elim (Bool-cases (ltb j 512)) [
    | inl e ↦ rw e (bytes-set_entry (cluster_pos s c + j) (omega arith))
    | inr e ↦ rw e refl
  ]

module _ {s : ℕ} {v : Volume} (l : Layout 2 s v) (head : ℕ) (is : IsCluster s v head)
    (free : entry 2 v head ≡ 0) where
  pub claimed-Layout : Layout 2 s (claimed v head)
  claimed-Layout = Layout-set_entry l head end_mark is.in_fat

  pub not_in : {c : ℕ} {cs : List ℕ} → Chain s v c cs → (x : ℕ) → Memᴰ x cs → x ≢ head
  not_in chain x m e = Chain-used chain x m (ap (entry 2 v) e ∙ free)

  -- Every chain stays, and the free cluster is a chain of its own.
  pub Chain-claimed : {c : ℕ} {cs : List ℕ} → Chain s v c cs → Chain s (claimed v head) c cs
  Chain-claimed chain = Chain-set_entry l head end_mark is.in_fat (not_in chain) chain

  pub Chain-new : Chain s (claimed v head) head (head ∷ [])
  Chain-new =
      link (IsCluster-set_entry l head end_mark is.in_fat head is)
        (stop (entry-set_self l head end_mark is.in_fat (omega arith)))

  pub contents-claimed : contents s (claimed v head) ≡ contents s v
  contents-claimed = contents-set_entry l head end_mark is.in_fat
