-- ===== src/Entry/Directory/Find.antt =====
-- entry.c: `get_dentry` finds the first file of a name in a directory.
use model_lib.Prelude.{
  ℕ, ◌+◌, ◌*◌, ◌-◌, min, ◌<◌, ◌≡◌, refl, ◌⊎◌, inl, inr, arith, Bool, true, false, ◌&&◌, Bool-cases,
  Outcome, ok, List, [], ◌∷◌, length, Option, none, some, same_string,
}
use model_lib.Memory.{Bytes, zeroed, c_string}
use model_lib.Memory.Strings.{c_string_mono}
use model_lib.Volume.{Volume}
use model_lib.Volume.Layout.{Layout, layout_end}
use model_lib.Entry.Dirent.{
  Dirent, is_long_file_name, is_normal_file, attribute, entry_in, entry_name,
}
use model_lib.Entry.Walk.Clusters.{cluster_pos, view}
use model_lib.Entry.Walk.Chain.{Chain, walk_clusters-walk_list}
use model_lib.Entry.Walk.Slots.{first_in, All, answer, Decides, DecidesAt, walk_list-first_in}
use model_lib.Entry.LongName.{take_name}
use model_lib.Entry.Directory.{visit_file, get_dentry}

-- The name of an entry that ends inside the entry.
abbrev pub slot_name : Bytes → ℕ → Option (List ℕ)
slot_name cluster n = c_string 59 cluster (n * 64 + 5)

-- A cluster of a directory without long names, whose entries all have a name that ends in the entry.
pub record IsTidy (cluster : Bytes) : Type 0 where
  pub short : (n : ℕ) → n < 8 → is_long_file_name (attribute (entry_in cluster n)) ≡ false
  pub named : (n : ℕ) → n < 8 → (t : List ℕ) × (slot_name cluster n ≡ some t)

pub entry_name-slot_name :
    (cluster : Bytes) (n : ℕ) (t : List ℕ)
    → n < 8
    → slot_name cluster n ≡ some t
    → entry_name cluster n ≡ ok t
unfolding entry_name
entry_name-slot_name cluster n t h e = rw (
  entry_name,
  c_string_mono 59 (min 128 (512 - (n * 64 + 5))) cluster (n * 64 + 5) t e (omega arith),
)

-- Whether an entry has a name.
unfoldable pub has_name : List ℕ → Bytes → ℕ → Bool
has_name file_name cluster n = elim (entry_name cluster n) [
  | ok t ↦ same_string file_name t
  | _ ↦ false
]

unfoldable pub is_file_named : List ℕ → Bytes → ℕ → Bool
unfolding has_name
is_file_named file_name cluster n =
    is_normal_file (attribute (entry_in cluster n)) && has_name file_name cluster n

pub take_name-short :
    (fuel : ℕ) (v : Volume) (current : ℕ) (cluster : Bytes) (n : ℕ) (composited : List ℕ)
    → is_long_file_name (attribute (entry_in cluster n)) ≡ false
    → take_name fuel v current cluster n composited ≡ entry_name cluster n
unfolding take_name
take_name-short fuel v current cluster n composited e = rw e

module _ (fuel : ℕ) (v : Volume) (file_name : List ℕ) (cluster : Bytes)
    (tidy : IsTidy cluster) where
  module _ (current position n : ℕ) (st : List ℕ)
      (taken : take_name fuel v current cluster n st ≡ entry_name cluster n) (t : List ℕ)
      (named : entry_name cluster n ≡ ok t) where
    hit_lem :
        is_file_named file_name cluster n ≡ true
        → visit_file fuel v file_name current position cluster n st ≡ ok (inl (entry_in cluster n))
    unfolding visit_file is_file_named
    hit_lem e = elim (Bool-cases (is_normal_file (attribute (entry_in cluster n)))) [
      | inl yes_file ↦ elim (Bool-cases (same_string file_name t)) [
        | inl same ↦ rw (yes_file, taken, named, same)
        | inr other ↦ cc (rw (is_file_named, yes_file, has_name, named, other) at e)
      ]
      | inr no_file ↦ cc (rw (is_file_named, no_file) at e)
    ]

    miss_lem :
        is_file_named file_name cluster n ≡ false
        → (st' : List ℕ) × (visit_file fuel v file_name current position cluster n st
            ≡ ok (inr st'))
    unfolding visit_file is_file_named
    miss_lem e = elim (Bool-cases (is_normal_file (attribute (entry_in cluster n)))) [
      | inl yes_file ↦ elim (Bool-cases (same_string file_name t)) [
        | inl same ↦ cc (rw (is_file_named, yes_file, has_name, named, same) at e)
        | inr other ↦ (t, rw (yes_file, taken, named, other))
      ]
      | inr no_file ↦ (st, rw no_file)
    ]

  visit_file-Decides :
      (current position : ℕ)
      → Decides
          (visit_file fuel v file_name current position)
          cluster
          (is_file_named file_name cluster)
          (entry_in cluster)
  unfolding visit_file is_file_named
  visit_file-Decides current position = record {
    short = tidy.short;
    hits = λ n st h e.
        let (t, named) = tidy.named n h in
        hit_lem current position n st (take_name-short fuel v current cluster n st (tidy.short n h))
          t (entry_name-slot_name cluster n t h named) e;
    misses = λ n st h e.
        let (t, named) = tidy.named n h in
        miss_lem current position n st
          (take_name-short fuel v current cluster n st (tidy.short n h)) t
          (entry_name-slot_name cluster n t h named) e;
  }

-- The clusters of a directory are tidy.
abbrev pub TidyAt : (s : ℕ) → Volume → ℕ → Type 0
TidyAt s v c = IsTidy (view v (cluster_pos s c))

visit_file-All :
    (fuel s : ℕ) (v : Volume) (file_name : List ℕ) (cs : List ℕ)
    → All (TidyAt s v) cs
    → All
        (DecidesAt
          (visit_file fuel v file_name)
          s
          v
          (λ c. is_file_named file_name (view v (cluster_pos s c)))
          (λ c. entry_in (view v (cluster_pos s c))))
        cs
visit_file-All fuel s v file_name [] t = tt
visit_file-All fuel s v file_name (c ∷ cs) (t, ts) = (
  visit_file-Decides fuel v file_name (view v (cluster_pos s c)) t c (cluster_pos s c),
  visit_file-All fuel s v file_name cs ts,
)

-- The first file of a name in the clusters of a directory: its cluster and its number.
abbrev pub find_file : (s : ℕ) → Volume → List ℕ → List ℕ → (ℕ × ℕ) ⊎ ℕ
find_file s v file_name cs = first_in (λ c. is_file_named file_name (view v (cluster_pos s c))) 0 cs

abbrev pub dirent_at : (s : ℕ) → Volume → (ℕ × ℕ) ⊎ ℕ → Option Dirent
dirent_at s v (inl (c, n)) = some (entry_in (view v (cluster_pos s c)) n)
dirent_at s v (inr before) = none

-- On a formatted volume with two-byte indices, for a directory whose first cluster leads through the
-- clusters `cs` to the end mark and whose entries all have short names that end, `get_dentry`, given
-- more rounds than there are clusters, returns the first entry of the directory that is a file of the
-- given name, and FALSE if there is none.
pub get_dentry-find_file :
    (fuel s : ℕ) (v : Volume) (c : ℕ) (cs : List ℕ) (file_name : List ℕ)
    → Layout 2 s v
    → Chain s v c cs
    → All (TidyAt s v) cs
    → length cs < fuel
    → get_dentry fuel v c file_name ≡ ok (dirent_at s v (find_file s v file_name cs))
unfolding get_dentry
get_dentry-find_file fuel s v c cs file_name l chain tidy h =
    rw
      (
        layout_end l,
        walk_clusters-walk_list (visit_file fuel v file_name) l fuel zeroed 0 c cs false [] chain h
            (λ i k. refl),
        walk_list-first_in (visit_file fuel v file_name) s v
            (λ c'. is_file_named file_name (view v (cluster_pos s c')))
            (λ c'. entry_in (view v (cluster_pos s c'))) cs 0 []
            (visit_file-All fuel s v file_name cs tidy),
      )
      (settle (find_file s v file_name cs))
  where
    settle :
        (r : (ℕ × ℕ) ⊎ ℕ)
        → ◌≡◌ {A = Outcome (Option Dirent)}
            (elim (answer (λ c'. entry_in (view v (cluster_pos s c'))) r) [
              | inl d ↦ ok (some d)
              | inr _ ↦ ok none
            ])
            (ok (dirent_at s v r))
    settle (inl (c', n)) = refl
    settle (inr before) = refl
