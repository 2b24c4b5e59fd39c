-- ===== src/Dir/Readdir.antt =====
-- dir.c: `__mfs_readdir` gives the live entries of a directory to `dir_emit`, in order.
use model_lib.Prelude.{
  ℕ, zero, suc, ◌+◌, ◌≤◌, ◌<◌, ◌==◌, ◌≡◌, ◌≢◌, ◌⊎◌, inl, inr, refl, ◌∙◌, arith, Bool, true, false,
  List, [], ◌∷◌, ◌++◌, Option, none, some, Outcome, ok, ◌>>=◌, length, Bool-cases, eq→==, ne→==,
}
use model_lib.Memory.{Bytes, zeroed}
use model_lib.Volume.{Volume, read_at, cluster_size}
use model_lib.Fat.{u32_mod}
use model_lib.Volume.Layout.{Layout, layout_end}
use model_lib.Entry.Dirent.{is_normal_dir, is_normal_file, attribute, entry_in}
use model_lib.Entry.Walk.{Scanned, found, passed, get_next_entry, scan_entries}
use model_lib.Entry.Walk.Clusters.{cluster_pos, view, read_cluster_lem, read_at-view}
use model_lib.Entry.Walk.Chain.{Chain, stop, link, end_mark}
use model_lib.Entry.Walk.Claim.{contents}
use model_lib.Entry.Walk.Slots.{All}
use model_lib.Entry.Directory.{get_cluster_number}
use model_lib.Entry.Directory.Find.{
  IsTidy, TidyAt, slot_name, take_name-short, entry_name-slot_name,
}
use model_lib.Dir.{DentryType, Emitted, DirEmit, Listing, visit_emit, emit, list_dir, readdir}
use model_lib.Dir.Walk.{read_list, walk_read-read_list}
use model_lib.Dir.Live.{live_entry, kind_of, live_in, listing, offer, offer-append, then_offer}

-- How a scan ends that offers a list of entries.
data Offered : List Emitted × Bool → Outcome (Scanned Listing Listing) → Type 0 where
  all_taken : (l : Listing) → Offered (l.emitted, true) (ok (passed false l))
  broken_off : (l : Listing) → Offered (l.emitted, false) (ok (found l))

-- What the visit of one entry gives.
abbrev visited : DirEmit → Listing → List ℕ → Option DentryType → Listing ⊎ Listing
unfolding emit
visited dir_emit l name none = inr (record l { composited = name })
visited dir_emit l name (some kind) = emit dir_emit l name kind

pub next_short :
    (cluster : Bytes)
    → IsTidy cluster
    → (n : ℕ) → n < 8
    → get_next_entry cluster n false ≡ ok (n + 1, false)
unfolding get_next_entry
next_short cluster tidy n h = rw (tidy.short n h)

module _ (dir_emit : DirEmit) (rounds : ℕ) (v : Volume) (current : ℕ) (cluster : Bytes)
    (tidy : IsTidy cluster) where
  visit_lem :
      (n : ℕ) (l : Listing) (name : List ℕ)
      → n < 8
      → slot_name cluster n ≡ some name
      → visit_emit dir_emit rounds v current cluster n l
        ≡ ok (visited dir_emit l name (kind_of (attribute (entry_in cluster n))))
  unfolding visit_emit
  visit_lem n l name h named =
      let taken =
        take_name-short rounds v current cluster n l.composited (tidy.short n h)
        ∙ entry_name-slot_name cluster n name h named in
      elim (Bool-cases (is_normal_dir (attribute (entry_in cluster n)))) [
        | inl yes_dir ↦ rw (taken, yes_dir) refl
        | inr no_dir ↦ elim (Bool-cases (is_normal_file (attribute (entry_in cluster n)))) [
          | inl yes_file ↦ rw (taken, no_dir, yes_file) refl
          | inr no_file ↦ rw (taken, no_dir, no_file) refl
        ]
      ]

  -- The step of the scan, from what the rest of it offers.
  step :
      (name : List ℕ) (kind : Option DentryType) (l : Listing) (es : List Emitted)
      (next : Listing → Outcome (Scanned Listing Listing))
      → ((l' : Listing) → Offered (offer dir_emit l'.emitted es) (next l'))
      → Offered (offer dir_emit l.emitted (live_entry (some name) kind ++ es)) (
          ok (visited dir_emit l name kind) >>= λ r. elim r [
            | inl a ↦ ok (found a)
            | inr s' ↦ next s'
          ])
  unfolding offer visited
  step name none l es next rest = rest (record l { composited = name })
  step name (some kind) l es next rest =
      elim (Bool-cases (dir_emit l.emitted (record { name = name; kind = kind }))) [
        | inl room ↦ rw room (
            rest (record {
              composited = name;
              emitted = l.emitted ++ record { name = name; kind = kind } ∷ [];
            }))
        | inr full ↦ rw full (broken_off (record l { composited = name }))
      ]

  scan-Offered :
      (k fuel n : ℕ) (l : Listing)
      → n + k ≡ 8
      → k < fuel
      → Offered
          (offer dir_emit l.emitted (live_in cluster k n))
          (scan_entries (visit_emit dir_emit rounds v current) fuel cluster n false l)
  unfolding scan_entries live_in offer
  scan-Offered k zero n l e h = absurd (omega arith)
  scan-Offered zero (suc fuel) n l e h =
      let n' : n ≡ 8 = omega arith in rw (scan_entries, eq→== n 8 n') (all_taken l)
  scan-Offered (suc k) (suc fuel) n l e h =
      let (name, named) = tidy.named n (omega arith) in
      rw (scan_entries, ne→== n 8 (omega arith), visit_lem n l name (omega arith) named, named)
        (step name (kind_of (attribute (entry_in cluster n))) l (live_in cluster k (n + 1))
          (λ l'. get_next_entry cluster n false >>= λ next.
            scan_entries (visit_emit dir_emit rounds v current) fuel cluster next.0 next.1 l')
          (λ l'.
            rw (next_short cluster tidy n (omega arith))
              (scan-Offered k fuel (n + 1) l' (omega arith) (omega arith))))

-- How the walk over a directory ends that offers a list of entries.
data Listed : List Emitted × Bool → Outcome (Listing ⊎ Listing) → Type 0 where
  to_end : (l : Listing) → Listed (l.emitted, true) (ok (inr l))
  early : (l : Listing) → Listed (l.emitted, false) (ok (inl l))

read_list-Listed :
    (dir_emit : DirEmit) (rounds s : ℕ) (v : Volume) (cs : List ℕ) (l : Listing)
    → All (TidyAt s v) cs
    → Listed
        (offer dir_emit l.emitted (listing s v cs))
        (read_list (visit_emit dir_emit rounds v) s v false l cs)
unfolding read_list listing offer
read_list-Listed dir_emit rounds s v [] l tidy = to_end l
read_list-Listed dir_emit rounds s v (c ∷ cs) l (tidy, ts) =
    rw (offer-append dir_emit l.emitted (live_in (contents s v c) 8 0) (listing s v cs)) (
      go _ _ (λ l'. read_list-Listed dir_emit rounds s v cs l' ts)
        (scan-Offered dir_emit rounds v c (contents s v c) tidy 8 9 0 l (omega arith)
          (omega arith)))
  where
    go :
        (o : List Emitted × Bool) (r : Outcome (Scanned Listing Listing))
        → ((l' : Listing)
            → Listed
                (offer dir_emit l'.emitted (listing s v cs))
                (read_list (visit_emit dir_emit rounds v) s v false l' cs))
        → Offered o r
        → Listed (then_offer dir_emit o (listing s v cs)) (
            r >>= λ r'. elim r' [
              | found a ↦ ok (inl a)
              | passed flag' state' ↦ read_list (visit_emit dir_emit rounds v) s v flag' state' cs
            ])
    go _ _ rest (all_taken l') = rest l'
    go _ _ rest (broken_off l') = early l'

Listed-emitted :
    (o : List Emitted × Bool) (r : Outcome (Listing ⊎ Listing))
    → Listed o r
    → (r >>= λ r'. elim r' [ inl l ↦ ok l.emitted | inr l ↦ ok l.emitted ]) ≡ ok o.0
Listed-emitted _ _ (to_end l) = refl
Listed-emitted _ _ (early l) = refl

-- The first cluster, as it is read before the walk.
pub first_read :
    {s : ℕ} {v : Volume} (l : Layout 2 s v) (c : ℕ) (cs : List ℕ)
    → Chain s v c cs
    → (2 ≤ c)
      × (c < u32_mod)
      × (c ≢ end_mark → read_at v (cluster_pos s c) zeroed cluster_size ≡ view v (cluster_pos s c))
first_read l c cs (stop e) = (omega (arith, e), omega (arith, e), λ ne. absurd (ne e))
first_read {s} {v} l c cs (link is rest) = (
  is.in_fat.0,
  omega (arith, is.in_fat, l.few),
  λ ne.
      read_at-view v (cluster_pos s c) zeroed (λ i h. refl) is.in_file
        (omega (arith, is.in_fat, l.few)),
)

-- On a formatted volume with two-byte indices, for a path to a directory whose entries all have short
-- names that end, `mfs_readdir` at position 0, given more rounds than the directory has clusters,
-- returns 1 and has offered the live entries of the directory to `dir_emit`, each with its
-- name and kind, in the order in which they stand in the clusters, behind `.` and `..`, up to the
-- first that `dir_emit` refuses.
pub readdir-listing :
    (dir_emit : DirEmit) (first : List Emitted) (fuel s : ℕ) (v : Volume) (path : List ℕ) (c : ℕ)
    (cs : List ℕ)
    → Layout 2 s v
    → get_cluster_number fuel v path ≡ ok c
    → Chain s v c cs
    → All (TidyAt s v) cs
    → length cs < fuel
    → readdir dir_emit (some first) fuel v path 0
      ≡ ok (1, (offer dir_emit first (listing s v cs)).0)
unfolding readdir list_dir
readdir-listing dir_emit first fuel s v path c cs l at chain tidy h =
    let (low, high, seen) = first_read l c cs chain in
    let some_dir : (c == 0) ≡ false = ne→== c 0 (omega arith) in
    let start : Listing = record { composited = []; emitted = first } in
    let ends : (read_list (visit_emit dir_emit fuel v) s v false start cs >>= λ r'. elim r' [
      | inl l ↦ ok l.emitted
      | inr l ↦ ok l.emitted
    ])
        ≡ ok (offer dir_emit first (listing s v cs)).0 =
      Listed-emitted _ _ (read_list-Listed dir_emit fuel s v cs start tidy) in
    rw
      (
        layout_end l,
        at,
        some_dir,
        read_cluster_lem l c low high,
        walk_read-read_list (visit_emit dir_emit fuel v) l fuel
            (read_at v (cluster_pos s c) zeroed cluster_size) c cs false start chain h seen,
        ends,
      )
      refl
