-- ===== src/Entry/Directory/Put.antt =====
-- entry.c: the entries of a directory behind the write of one.
use mathlib.Core.List.{Memᴰ}
use mathlib.Core.Path.{subst, subst₂}
use model_lib.Prelude.{
  ℕ, ◌+◌, ◌*◌, ◌<◌, ◌≡◌, ◌≢◌, ◌==◌, ◌⊎◌, inl, inr, refl, sym, ap, ◌∙◌, arith, false, List, [], ◌∷◌,
  some, Bool-cases, ==→eq, ==→ne,
}
use model_lib.Memory.{Bytes, c_string}
use model_lib.Memory.Strings.{c_string-same}
use model_lib.Volume.{Volume}
use model_lib.Volume.Layout.{Layout}
use model_lib.Entry.Dirent.{Dirent, is_long_file_name, attribute, entry_in}
use model_lib.Entry.Walk.Clusters.{cluster_pos, view}
use model_lib.Entry.Walk.Chain.{IsCluster}
use model_lib.Entry.Walk.Slots.{All}
use model_lib.Entry.Directory.Slot.{put_at, put_at_self, put_at_other}
use model_lib.Entry.Directory.Find.{slot_name, TidyAt}

-- Two entries with the same bytes.
abbrev pub Agree : Dirent → Dirent → Type 0
Agree e e' = (i : ℕ) → i < 64 → e' i ≡ e i

name_in : (cluster : Bytes) (n : ℕ) → slot_name cluster n ≡ c_string 59 (entry_in cluster n) 5
name_in cluster n =
    c_string-same 59 (entry_in cluster n) cluster 5 (n * 64 + 5)
      (λ i h. let at : n * 64 + 5 + i ≡ n * 64 + (5 + i) = omega arith in ap cluster at)

name-Agree : (e e' : Dirent) → Agree e e' → c_string 59 e' 5 ≡ c_string 59 e 5
name-Agree e e' same = c_string-same 59 e e' 5 5 (λ i h. same (5 + i) (omega arith))

-- Entry `m` of cluster `c`.
abbrev pub slot : (s : ℕ) → Volume → (c m : ℕ) → Dirent
slot s v c m = entry_in (view v (cluster_pos s c)) m

pub file_short : (d : Dirent) → attribute d ≡ 1 → is_long_file_name (attribute d) ≡ false
file_short d kind = rw kind refl

module _ {s : ℕ} {v : Volume} (l : Layout 2 s v) (c' n : ℕ) (is : IsCluster s v c') (hn : n < 8)
    (d : Dirent) (t : List ℕ) (plain : is_long_file_name (attribute d) ≡ false)
    (named : c_string 59 d 5 ≡ some t) where
  abbrev pub after : Volume
  after = put_at s v c' n d

  pub same_self : Agree d (slot s after c' n)
  same_self = put_at_self l c' n is hn d

  pub self_attribute : attribute (slot s after c' n) ≡ attribute d
  self_attribute = same_self 0 (omega arith)

  pub self_named : slot_name (view after (cluster_pos s c')) n ≡ some t
  self_named =
      name_in (view after (cluster_pos s c')) n ∙ name-Agree d (slot s after c' n) same_self ∙ named

  self_short : is_long_file_name (attribute (slot s after c' n)) ≡ false
  self_short = rw self_attribute plain

  module _ (c m : ℕ) (is' : IsCluster s v c) (hm : m < 8) (other : (c ≢ c') ⊎ (m ≢ n)) where
    pub same_other : Agree (slot s v c m) (slot s after c m)
    same_other = put_at_other l c' n is hn d c m is' hm other

    pub other_kind : attribute (slot s after c m) ≡ attribute (slot s v c m)
    other_kind = same_other 0 (omega arith)

    pub other_named :
        slot_name (view after (cluster_pos s c)) m ≡ slot_name (view v (cluster_pos s c)) m
    other_named =
        name_in (view after (cluster_pos s c)) m
        ∙ name-Agree (slot s v c m) (slot s after c m) same_other
        ∙ sym (name_in (view v (cluster_pos s c)) m)

  -- A property of the entries behind the write.
  pub entries-after :
      (P : (c m : ℕ) → Type 0) (c m : ℕ) → P c' n → ((c ≢ c') ⊎ (m ≢ n) → P c m) → P c m
  entries-after P c m here elsewhere = elim (Bool-cases (c == c')) [
    | inr ne ↦ elsewhere (inl (==→ne c c' ne))
    | inl e ↦ elim (Bool-cases (m == n)) [
      | inr ne ↦ elsewhere (inr (==→ne m n ne))
      | inl e' ↦ subst₂ P (sym (==→eq c c' e)) (sym (==→eq m n e')) here
    ]
  ]

  tidy-after : (c : ℕ) → IsCluster s v c → TidyAt s v c → TidyAt s after c
  tidy-after c is' tidy = record {
    short = λ m h.
        entries-after (λ c m. is_long_file_name (attribute (slot s after c m)) ≡ false) c m
          self_short (λ other. rw (other_kind c m is' h other) (tidy.short m h));
    named = λ m h.
        entries-after
          (λ c m. (t' : List ℕ) × (slot_name (view after (cluster_pos s c)) m ≡ some t')) c m
          (t, self_named)
          (λ other. let (t', e) = tidy.named m h in (t', other_named c m is' h other ∙ e));
  }

  pub All-tidy-after :
      (cs : List ℕ)
      → ((c : ℕ) → Memᴰ c cs → IsCluster s v c)
      → All (TidyAt s v) cs
      → All (TidyAt s after) cs
  All-tidy-after [] clusters tidy = tt
  All-tidy-after (c ∷ cs) clusters (tidy, rest) = (
    tidy-after c (clusters c (Memᴰ.head refl)) tidy,
    All-tidy-after cs (λ c m. clusters c (Memᴰ.tail m)) rest,
  )

pub All-Mem : (P : ℕ → Type 0) (cs : List ℕ) → All P cs → (c : ℕ) → Memᴰ c cs → P c
All-Mem P [] ps c m = elim m [ ]
All-Mem P (c' ∷ cs) (p, ps) c (Memᴰ.head here) = subst P (sym here) p
All-Mem P (c' ∷ cs) (p, ps) c (Memᴰ.tail m) = All-Mem P cs ps c m
