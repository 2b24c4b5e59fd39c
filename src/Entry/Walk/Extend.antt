-- ===== src/Entry/Walk/Extend.antt =====
-- file.c and entry.c: a free cluster that is linked to the end of a chain.
use mathlib.Core.List.{Memᴰ}
use mathlib.Core.Path.{subst}
use model_lib.Prelude.{ℕ, ◌≤◌, ◌<◌, ◌≡◌, ◌≢◌, sym, ◌∙◌, ap, arith, List, [], ◌∷◌, ◌++◌}
use model_lib.Volume.{Volume}
use model_lib.Volume.Layout.{Layout}
use model_lib.Fat.Entries.{InFat, entry, set_entry, Layout-set_entry}
use model_lib.Entry.Walk.Chain.{Chain, stop, link, end_mark, IsCluster}
use model_lib.Entry.Walk.Claim.{
  contents, Chain-used, IsCluster-set_entry, entry-set_other, entry-set_self, Chain-set_entry,
  contents-set_entry,
}

-- The volume in which cluster `x` stands behind cluster `y`.
abbrev pub extended : Volume → (y x : ℕ) → Volume
extended v y x = set_entry 2 (set_entry 2 v y x) x end_mark

module _ {s : ℕ} {v : Volume} (l : Layout 2 s v) (y x : ℕ) (inside : InFat 2 s y)
    (is : IsCluster s v x) (ends : entry 2 v y ≡ end_mark) (free : entry 2 v x ≡ 0)
    (small : x < 65536) where
  l1 : Layout 2 s (set_entry 2 v y x)
  l1 = Layout-set_entry l y x inside

  pub extended-Layout : Layout 2 s (extended v y x)
  extended-Layout = Layout-set_entry l1 x end_mark is.in_fat

  other : x ≢ y
  other e = omega (arith, ends, free, ap (entry 2 v) e)

  pub IsCluster-extended : (c : ℕ) → IsCluster s v c → IsCluster s (extended v y x) c
  IsCluster-extended c is' =
      IsCluster-set_entry l1 x end_mark is.in_fat c (IsCluster-set_entry l y x inside c is')

  entry_kept : (c : ℕ) → 2 ≤ c → c ≢ x → c ≢ y → entry 2 (extended v y x) c ≡ entry 2 v c
  entry_kept c low ne ne' =
      entry-set_other l1 x end_mark is.in_fat c low ne ∙ entry-set_other l y x inside c low ne'

  entry_linked : entry 2 (extended v y x) y ≡ x
  entry_linked =
      entry-set_other l1 x end_mark is.in_fat y inside.0 (λ e. other (sym e))
      ∙ entry-set_self l y x inside small

  new_end : Chain s (extended v y x) x (x ∷ [])
  new_end =
      link (IsCluster-extended x is) (stop (entry-set_self l1 x end_mark is.in_fat (omega arith)))

  -- The chain that ends in `y` gets a cluster more.
  pub Chain-extended :
      {c : ℕ} {cs : List ℕ} → Chain s v c cs → Memᴰ y cs → Chain s (extended v y x) c (cs ++ x ∷ [])
  Chain-extended (stop e) m = elim m [ ]
  Chain-extended (link {c} is' (stop e)) (Memᴰ.head here) = link (IsCluster-extended c is') (
      subst (λ z. Chain s (extended v y x) z (x ∷ []))
        (sym (ap (entry 2 (extended v y x)) (sym here) ∙ entry_linked)) new_end)
  Chain-extended (link is' (stop e)) (Memᴰ.tail m) = elim m [ ]
  Chain-extended (link {c} is' (link {cs} is'' rest)) m =
      let ne : c ≢ y = λ e. is''.not_end (ap (entry 2 v) e ∙ ends) in
      let ne' : c ≢ x = λ e. omega (arith, is''.in_fat, free, ap (entry 2 v) e) in
      link (IsCluster-extended c is') (
        subst (λ z. Chain s (extended v y x) z (entry 2 v c ∷ cs ++ x ∷ []))
          (sym (entry_kept c is'.in_fat.0 ne' ne)) (Chain-extended (link is'' rest) (behind ne m)))
    where
      behind : {c : ℕ} {xs : List ℕ} → c ≢ y → Memᴰ y (c ∷ xs) → Memᴰ y xs
      behind ne (Memᴰ.head here) = absurd (ne (sym here))
      behind ne (Memᴰ.tail m) = m

  -- The chains that `y` is not in stay.
  pub Chain-apart :
      {c : ℕ} {cs : List ℕ}
      → Chain s v c cs
      → ((z : ℕ) → Memᴰ z cs → z ≢ y)
      → Chain s (extended v y x) c cs
  Chain-apart chain apart =
      Chain-set_entry l1 x end_mark is.in_fat
        (λ z m e. Chain-used chain z m (ap (entry 2 v) e ∙ free))
        (Chain-set_entry l y x inside apart chain)

  pub contents-extended : contents s (extended v y x) ≡ contents s v
  contents-extended = contents-set_entry l1 x end_mark is.in_fat ∙ contents-set_entry l y x inside
