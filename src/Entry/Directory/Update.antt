-- ===== src/Entry/Directory/Update.antt =====
-- entry.c: `alloc_new_entry` renews the entry of a file.
use model_lib.Prelude.{
  ℕ, ◌+◌, ◌-◌, ◌*◌, ◌≤◌, ◌<◌, ◌≡◌, inl, inr, refl, sym, ◌∙◌, arith, fun_ext, ltb, ltb→lt, ltb→le,
  lt→ltb, true, false, Bool-cases, List, [], ◌∷◌, ok, same_string, if◌then◌else◌, length,
}
use model_lib.Memory.{Bytes, zeroed, copy_to}
use model_lib.Memory.Laws.{copy_to_in, copy_to_out}
use model_lib.Volume.{Volume, write_at}
use model_lib.Volume.Layout.{Layout, layout_end, write_at_lem}
use model_lib.Entry.Dirent.{Dirent, attribute, entry_in, entry_name, is_normal_file}
use model_lib.Entry.LongName.{take_name}
use model_lib.Entry.Walk.Clusters.{cluster_pos, view}
use model_lib.Entry.Walk.Chain.{Chain, IsCluster, walk_clusters-walk_list}
use model_lib.Entry.Walk.Slots.{All, DecidesAt, walk_list-first_in}
use model_lib.Entry.Directory.{visit_update, alloc_new_entry}
use model_lib.Entry.Directory.Find.{
  TidyAt, take_name-short, entry_name-slot_name, is_file_named, has_name, find_file,
}
use model_lib.Entry.Directory.Slot.{put_at, put_lem}

-- The contents of the cluster that is written.
abbrev pub renewed : Bytes → ℕ → Dirent → Bytes
renewed cluster n d = copy_to cluster (n * 64) d 64

module _ (fuel : ℕ) (v : Volume) (file_name : List ℕ) (d : Dirent) (cluster : Bytes)
    (current position n : ℕ) (st t : List ℕ)
    (taken : take_name fuel v current cluster n st ≡ entry_name cluster n)
    (named : entry_name cluster n ≡ ok t) where
  update_hit :
      is_file_named file_name cluster n ≡ true
      → visit_update fuel v file_name d current position cluster n st
        ≡ ok (inl (position, renewed cluster n d))
  unfolding visit_update is_file_named
  update_hit e = elim (Bool-cases (is_normal_file (attribute (entry_in cluster n)))) [
    | inl yes_file ↦ elim (Bool-cases (same_string file_name t)) [
      | inl same ↦ rw (yes_file, taken, named, same)
      | inr other ↦ cc (rw (is_file_named, yes_file, has_name, named, other) at e)
    ]
    | inr no_file ↦ cc (rw (is_file_named, no_file) at e)
  ]

  update_miss :
      is_file_named file_name cluster n ≡ false
      → (st' : List ℕ) × (visit_update fuel v file_name d current position cluster n st
          ≡ ok (inr st'))
  unfolding visit_update is_file_named
  update_miss e = elim (Bool-cases (is_normal_file (attribute (entry_in cluster n)))) [
    | inl yes_file ↦ elim (Bool-cases (same_string file_name t)) [
      | inl same ↦ cc (rw (is_file_named, yes_file, has_name, named, same) at e)
      | inr other ↦ (t, rw (yes_file, taken, named, other))
    ]
    | inr no_file ↦ (st, rw no_file)
  ]

visit_update-All :
    (fuel s : ℕ) (v : Volume) (file_name : List ℕ) (d : Dirent) (cs : List ℕ)
    → All (TidyAt s v) cs
    → All
        (DecidesAt
          (visit_update fuel v file_name d)
          s
          v
          (λ c. is_file_named file_name (view v (cluster_pos s c)))
          (λ c n. (cluster_pos s c, renewed (view v (cluster_pos s c)) n d)))
        cs
visit_update-All fuel s v file_name d [] t = tt
visit_update-All fuel s v file_name d (c ∷ cs) (tidy, ts) =
    let cluster = view v (cluster_pos s c) in
    (
      record {
        short = tidy.short;
        hits = λ n st h e.
            let (t, named) = tidy.named n h in
            update_hit fuel v file_name d cluster c (cluster_pos s c) n st t
              (take_name-short fuel v c cluster n st (tidy.short n h))
              (entry_name-slot_name cluster n t h named) e;
        misses = λ n st h e.
            let (t, named) = tidy.named n h in
            update_miss fuel v file_name d cluster c (cluster_pos s c) n st t
              (take_name-short fuel v c cluster n st (tidy.short n h))
              (entry_name-slot_name cluster n t h named) e;
      },
      visit_update-All fuel s v file_name d cs ts,
    )

-- The volume behind the write of the cluster.
abbrev pub renew_at : (s : ℕ) → Volume → (c n : ℕ) → Dirent → Volume
renew_at s v c n d = write_at v (cluster_pos s c) (renewed (view v (cluster_pos s c)) n d) 512

-- On a formatted volume with two-byte indices, for a directory whose entries all have short names that
-- end and which has a file of the name, `alloc_new_entry`, given more rounds than the directory has
-- clusters, succeeds, and changes the volume by the write of one cluster, in which the first entry of
-- the name is renewed.
pub alloc_new_entry-find_file :
    (fuel s : ℕ) (v : Volume) (c : ℕ) (cs : List ℕ) (file_name : List ℕ) (d : Dirent) (c' n : ℕ)
    → Layout 2 s v
    → Chain s v c cs
    → All (TidyAt s v) cs
    → length cs < fuel
    → find_file s v file_name cs ≡ inl (c', n)
    → alloc_new_entry fuel v c file_name d ≡ ok (true, renew_at s v c' n d)
unfolding alloc_new_entry
alloc_new_entry-find_file fuel s v c cs file_name d c' n l chain tidy h there =
    rw
      (
        layout_end l,
        walk_clusters-walk_list (visit_update fuel v file_name d) l fuel zeroed 0 c cs false []
            chain h (λ i k. refl),
        walk_list-first_in (visit_update fuel v file_name d) s v
            (λ c1. is_file_named file_name (view v (cluster_pos s c1)))
            (λ c1 m. (cluster_pos s c1, renewed (view v (cluster_pos s c1)) m d)) cs 0 []
            (visit_update-All fuel s v file_name d cs tidy),
        there,
      )
      refl

-- A part of a cluster is replaced in the cluster's contents, and these are written.
copy_within :
    (m : Bytes) (p a : ℕ) (d : Bytes) (i : ℕ)
    → a + 64 ≤ 512
    → copy_to m p (copy_to (λ j. if ltb j 512 then m (p + j) else 0) a d 64) 512 i
      ≡ copy_to m (p + a) d 64 i
copy_within m p a d i h =
    let old : Bytes = λ j. if ltb j 512 then m (p + j) else 0 in
    elim (Bool-cases (ltb i p)) [
      | inl e ↦
          let low = ltb→lt i p e in
          copy_to_out m p (copy_to old a d 64) 512 i (omega arith)
          ∙ sym (copy_to_out m (p + a) d 64 i (omega arith))
      | inr e ↦ elim (Bool-cases (ltb i (p + 512))) [
        | inr e' ↦
            let high = ltb→le i (p + 512) e' in
            copy_to_out m p (copy_to old a d 64) 512 i (omega arith)
            ∙ sym (copy_to_out m (p + a) d 64 i (omega arith))
        | inl e' ↦
            let low = ltb→le i p e in
            let high = ltb→lt i (p + 512) e' in
            copy_to_in m p (copy_to old a d 64) 512 i (i - p) (omega arith) (omega arith)
            ∙ part m p a d i low high
      ]
    ]
  where
    part :
        (m : Bytes) (p a : ℕ) (d : Bytes) (i : ℕ)
        → p ≤ i
        → i < p + 512
        → copy_to (λ j. if ltb j 512 then m (p + j) else 0) a d 64 (i - p)
          ≡ copy_to m (p + a) d 64 i
    part m p a d i low high =
        let old : Bytes = λ j. if ltb j 512 then m (p + j) else 0 in
        let back : p + (i - p) ≡ i = omega arith in
        let inside : ltb (i - p) 512 ≡ true = lt→ltb _ _ (omega arith) in
        let kept : old (i - p) ≡ m i = rw (inside, back) refl in
        elim (Bool-cases (ltb (i - p) a)) [
          | inl e ↦
              let below = ltb→lt (i - p) a e in
              copy_to_out old a d 64 (i - p) (omega arith)
              ∙ kept
              ∙ sym (copy_to_out m (p + a) d 64 i (omega arith))
          | inr e ↦ elim (Bool-cases (ltb (i - p) (a + 64))) [
            | inl e' ↦
                let above = ltb→le (i - p) a e in
                let below = ltb→lt (i - p) (a + 64) e' in
                copy_to_in old a d 64 (i - p) (i - p - a) (omega arith) (omega arith)
                ∙ sym (copy_to_in m (p + a) d 64 i (i - p - a) (omega arith) (omega arith))
            | inr e' ↦
                let above = ltb→le (i - p) (a + 64) e' in
                copy_to_out old a d 64 (i - p) (omega arith)
                ∙ kept
                ∙ sym (copy_to_out m (p + a) d 64 i (omega arith))
          ]
        ]

-- It changes the bytes of that entry alone.
pub renew_at-put_at :
    {s : ℕ} {v : Volume} (l : Layout 2 s v) (c n : ℕ) (is : IsCluster s v c) (h : n < 8)
    (d : Dirent)
    → (renew_at s v c n d).bytes ≡ (put_at s v c n d).bytes
renew_at-put_at {s} {v} l c n is h d =
    rw
      (
        write_at_lem v (cluster_pos s c) 512 (renewed (view v (cluster_pos s c)) n d) (omega arith)
            (omega (arith, is.in_fat, l.few)),
        put_lem l c n is h d,
      )
      (fun_ext λ i. copy_within v.bytes (cluster_pos s c) (n * 64) d i (omega arith))
