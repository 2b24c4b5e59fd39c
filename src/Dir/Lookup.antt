-- ===== src/Dir/Lookup.antt =====
-- dir.c: `__mfs_lookup` finds the first live entry of a name.
use model_lib.Prelude.{
  ℕ, zero, suc, ◌+◌, ◌<◌, ◌≡◌, ◌⊎◌, inl, inr, refl, ◌∙◌, arith, false, List, [], ◌∷◌, Option, none,
  some, Outcome, ok, ◌>>=◌, length, Bool-cases, eq→==, ne→==, same_string,
}
use model_lib.Memory.{Bytes, zeroed}
use model_lib.Volume.{Volume, read_at, cluster_size}
use model_lib.Volume.Layout.{Layout, layout_end}
use model_lib.Entry.Dirent.{is_normal_dir, is_normal_file, attribute, entry_in}
use model_lib.Entry.Walk.{Scanned, found, passed, get_next_entry, scan_entries}
use model_lib.Entry.Walk.Clusters.{cluster_pos, read_cluster_lem}
use model_lib.Entry.Walk.Chain.{Chain}
use model_lib.Entry.Walk.Claim.{contents}
use model_lib.Entry.Walk.Slots.{All}
use model_lib.Entry.Directory.{get_cluster_number}
use model_lib.Entry.Directory.Find.{
  IsTidy, TidyAt, slot_name, take_name-short, entry_name-slot_name,
}
use model_lib.Dir.{DentryType, Emitted, visit_lookup, lookup}
use model_lib.Dir.Walk.{read_list, walk_read-read_list}
use model_lib.Dir.Live.{live_entry, kind_of, live_in, listing, find_kind, find_kind-append, or_else}
use model_lib.Dir.Readdir.{first_read, next_short}

-- How a scan ends that looks for an entry.
data Sought : Option DentryType → Outcome (Scanned (List ℕ) DentryType) → Type 0 where
  hit : (k : DentryType) → Sought (some k) (ok (found k))
  miss : (name : List ℕ) → Sought none (ok (passed false name))

-- What the visit of one entry gives.
abbrev looked : Option DentryType → List ℕ → DentryType ⊎ List ℕ
looked (some k) name = inl k
looked none name = inr name

module _ (rounds : ℕ) (v : Volume) (t : List ℕ) (current : ℕ) (cluster : Bytes)
    (tidy : IsTidy cluster) where
  visit_lem :
      (n : ℕ) (composited name : List ℕ)
      → n < 8
      → slot_name cluster n ≡ some name
      → visit_lookup rounds v t current cluster n composited
        ≡ ok (
            looked
              (find_kind t (live_entry (some name) (kind_of (attribute (entry_in cluster n)))))
              name)
  unfolding visit_lookup find_kind
  visit_lem n composited name h named =
      let taken =
        take_name-short rounds v current cluster n composited (tidy.short n h)
        ∙ entry_name-slot_name cluster n name h named in
      elim (Bool-cases (is_normal_dir (attribute (entry_in cluster n)))) [
        | inl yes_dir ↦ elim (Bool-cases (same_string name t)) [
          | inl same ↦ rw (taken, yes_dir, same) refl
          | inr other ↦ rw (taken, yes_dir, other) refl
        ]
        | inr no_dir ↦ elim (Bool-cases (is_normal_file (attribute (entry_in cluster n)))) [
          | inl yes_file ↦ elim (Bool-cases (same_string name t)) [
            | inl same ↦ rw (taken, no_dir, yes_file, same) refl
            | inr other ↦ rw (taken, no_dir, yes_file, other) refl
          ]
          | inr no_file ↦ elim (Bool-cases (same_string name t)) [
            | inl same ↦ rw (taken, no_dir, no_file, same) refl
            | inr other ↦ rw (taken, no_dir, no_file, other) refl
          ]
        ]
      ]

  step :
      (here : Option DentryType) (name : List ℕ) (later : Option DentryType)
      (next : List ℕ → Outcome (Scanned (List ℕ) DentryType))
      → ((name' : List ℕ) → Sought later (next name'))
      → Sought
          (or_else here later)
          (ok (looked here name) >>= λ r. elim r [ inl a ↦ ok (found a) | inr s' ↦ next s' ])
  step none name later next rest = rest name
  step (some k) name later next rest = hit k

  scan-Sought :
      (k fuel n : ℕ) (composited : List ℕ)
      → n + k ≡ 8
      → k < fuel
      → Sought
          (find_kind t (live_in cluster k n))
          (scan_entries (visit_lookup rounds v t current) fuel cluster n false composited)
  unfolding scan_entries live_in find_kind
  scan-Sought k zero n composited e h = absurd (omega arith)
  scan-Sought zero (suc fuel) n composited e h =
      let n' : n ≡ 8 = omega arith in rw (scan_entries, eq→== n 8 n') (miss composited)
  scan-Sought (suc k) (suc fuel) n composited e h =
      let (name, named) = tidy.named n (omega arith) in
      let here : List Emitted = live_entry (some name) (kind_of (attribute (entry_in cluster n))) in
      rw
        (
          scan_entries,
          ne→== n 8 (omega arith),
          visit_lem n composited name (omega arith) named,
          named,
          find_kind-append t here (live_in cluster k (n + 1)),
        )
        (step (find_kind t here) name (find_kind t (live_in cluster k (n + 1)))
          (λ name'. get_next_entry cluster n false >>= λ next.
            scan_entries (visit_lookup rounds v t current) fuel cluster next.0 next.1 name')
          (λ name'.
            rw (next_short cluster tidy n (omega arith))
              (scan-Sought k fuel (n + 1) name' (omega arith) (omega arith))))

-- How the walk over a directory ends that looks for an entry.
data Looked : Option DentryType → Outcome (DentryType ⊎ List ℕ) → Type 0 where
  hit_in : (k : DentryType) → Looked (some k) (ok (inl k))
  miss_in : (name : List ℕ) → Looked none (ok (inr name))

read_list-Looked :
    (rounds s : ℕ) (v : Volume) (t cs composited : List ℕ)
    → All (TidyAt s v) cs
    → Looked
        (find_kind t (listing s v cs))
        (read_list (visit_lookup rounds v t) s v false composited cs)
unfolding read_list listing find_kind
read_list-Looked rounds s v t [] composited tidy = miss_in composited
read_list-Looked rounds s v t (c ∷ cs) composited (tidy, ts) =
    rw (find_kind-append t (live_in (contents s v c) 8 0) (listing s v cs)) (
      go _ _ (λ name. read_list-Looked rounds s v t cs name ts)
        (scan-Sought rounds v t c (contents s v c) tidy 8 9 0 composited (omega arith)
          (omega arith)))
  where
    go :
        (o : Option DentryType) (r : Outcome (Scanned (List ℕ) DentryType))
        → ((name : List ℕ)
            → Looked
                (find_kind t (listing s v cs))
                (read_list (visit_lookup rounds v t) s v false name cs))
        → Sought o r
        → Looked (or_else o (find_kind t (listing s v cs))) (
            r >>= λ r'. elim r' [
              | found a ↦ ok (inl a)
              | passed flag' state' ↦ read_list (visit_lookup rounds v t) s v flag' state' cs
            ])
    go _ _ rest (hit k) = hit_in k
    go _ _ rest (miss name) = rest name

Looked-kind :
    (o : Option DentryType) (r : Outcome (DentryType ⊎ List ℕ))
    → Looked o r
    → (r >>= λ r'. elim r' [ inl k ↦ ok (some k) | inr _ ↦ ok none ]) ≡ ok o
Looked-kind _ _ (hit_in k) = refl
Looked-kind _ _ (miss_in name) = refl

-- On a formatted volume with two-byte indices, for a route to a directory whose entries all have short
-- names that end, `__mfs_lookup`, given more rounds than the directory has clusters, returns the kind of
-- the first of the directory's live entries that has the name, or 0 if none has. The live entries are those
-- that `__mfs_readdir` gives to `dir_emit`.
pub lookup-find_kind :
    (fuel s : ℕ) (v : Volume) (route t : List ℕ) (c : ℕ) (cs : List ℕ)
    → Layout 2 s v
    → get_cluster_number fuel v route ≡ ok c
    → Chain s v c cs
    → All (TidyAt s v) cs
    → length cs < fuel
    → lookup fuel v route t ≡ ok (find_kind t (listing s v cs))
unfolding lookup
lookup-find_kind fuel s v route t c cs l at chain tidy h =
    let (low, high, seen) = first_read l c cs chain in
    let ends : (read_list (visit_lookup fuel v t) s v false [] cs >>= λ r'. elim r' [
      | inl k ↦ ok (some k)
      | inr _ ↦ ok none
    ])
        ≡ ok (find_kind t (listing s v cs)) =
      Looked-kind _ _ (read_list-Looked fuel s v t cs [] tidy) in
    rw
      (
        layout_end l,
        at,
        read_cluster_lem l c low high,
        walk_read-read_list (visit_lookup fuel v t) l fuel
            (read_at v (cluster_pos s c) zeroed cluster_size) c cs false [] chain h seen,
        ends,
      )
      refl
