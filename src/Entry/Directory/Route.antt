-- ===== src/Entry/Directory/Route.antt =====
-- entry.c: `get_cluster_number` follows a path through the directories.
use mathlib.Core.Path.{subst}
use model_lib.Prelude.{
  ℕ, zero, suc, ◌+◌, ◌≤◌, ◌<◌, ◌==◌, ◌≡◌, ◌⊎◌, inl, inr, refl, sym, arith, Bool, true, false, ◌&&◌,
  List, [], ◌∷◌, Option, none, some, Outcome, ok, ◌>>=◌, length, Bool-cases, eq→==, ne→==,
  same_string, same_string→eq,
}
use model_lib.Memory.{Bytes}
use model_lib.Volume.{Volume, read_at, cluster_size}
use model_lib.Volume.Layout.{Layout}
use model_lib.Fat.{read_fat_index}
use model_lib.Fat.Entries.{entry, read_fat_index-entry}
use model_lib.Util.{strtok_r}
use model_lib.Entry.Dirent.{is_normal_dir, attribute, entry_in, head_cluster_number}
use model_lib.Entry.Walk.{Scanned, found, passed, read_cluster}
use model_lib.Entry.Walk.Clusters.{cluster_pos, view, view-Padded, read_cluster_lem, read_at-view}
use model_lib.Entry.Walk.Chain.{Chain, stop, link, IsCluster, end_mark}
use model_lib.Entry.Walk.Claim.{contents}
use model_lib.Entry.Walk.Slots.{All, first_in, Decides, Ends, hit_at, none_hit, scan-first}
use model_lib.Entry.Directory.{slash, visit_dir, follow}
use model_lib.Entry.Directory.Find.{IsTidy, TidyAt, has_name, take_name-short, entry_name-slot_name}

-- Whether an entry is a directory of a name.
unfoldable pub is_dir_named : List ℕ → Bytes → ℕ → Bool
is_dir_named t cluster n = is_normal_dir (attribute (entry_in cluster n)) && has_name t cluster n

-- The first of them in a directory.
abbrev pub find_dir : (s : ℕ) → Volume → List ℕ → List ℕ → (ℕ × ℕ) ⊎ ℕ
find_dir s v t cs = first_in (λ c. is_dir_named t (contents s v c)) 0 cs

module _ (rounds : ℕ) (v : Volume) (t : List ℕ) (current : ℕ) (cluster : Bytes)
    (tidy : IsTidy cluster) where
  dir_hit :
      (n : ℕ) (st : List ℕ)
      → n < 8
      → is_dir_named t cluster n ≡ true
      → visit_dir rounds v t current cluster n st
        ≡ ok (inl (head_cluster_number (entry_in cluster n), t))
  unfolding visit_dir is_dir_named has_name
  dir_hit n st h e =
      let (name, named) = tidy.named n h in
      let taken = take_name-short rounds v current cluster n st (tidy.short n h) in
      let is_name = entry_name-slot_name cluster n name h named in
      elim (Bool-cases (is_normal_dir (attribute (entry_in cluster n)))) [
        | inl yes_dir ↦ elim (Bool-cases (same_string t name)) [
          | inl same ↦ rw (yes_dir, taken, is_name, same, same_string→eq t name same) refl
          | inr other ↦ cc (rw (is_dir_named, yes_dir, has_name, is_name, other) at e)
        ]
        | inr no_dir ↦ cc (rw (is_dir_named, no_dir) at e)
      ]

  dir_miss :
      (n : ℕ) (st : List ℕ)
      → n < 8
      → is_dir_named t cluster n ≡ false
      → (st' : List ℕ) × (visit_dir rounds v t current cluster n st ≡ ok (inr st'))
  unfolding visit_dir is_dir_named has_name
  dir_miss n st h e =
      let (name, named) = tidy.named n h in
      let taken = take_name-short rounds v current cluster n st (tidy.short n h) in
      let is_name = entry_name-slot_name cluster n name h named in
      elim (Bool-cases (is_normal_dir (attribute (entry_in cluster n)))) [
        | inl yes_dir ↦ elim (Bool-cases (same_string t name)) [
          | inl same ↦ cc (rw (is_dir_named, yes_dir, has_name, is_name, same) at e)
          | inr other ↦ (name, rw (yes_dir, taken, is_name, other) refl)
        ]
        | inr no_dir ↦ (st, rw no_dir refl)
      ]

  visit_dir-Decides :
      Decides
        (visit_dir rounds v t current)
        cluster
        (is_dir_named t cluster)
        (λ n. (head_cluster_number (entry_in cluster n), t))
  visit_dir-Decides = record { short = tidy.short; hits = dir_hit; misses = dir_miss }

next_lem :
    {s : ℕ} {v : Volume} (l : Layout 2 s v) (c : ℕ)
    → IsCluster s v c
    → read_fat_index v c ≡ ok (entry 2 v c)
next_lem l c is = read_fat_index-entry l c is.in_fat (omega (arith, is.in_fat, l.few)) (omega arith)

module _ {s : ℕ} {v : Volume} (l : Layout 2 s v) (t : List ℕ) (last : Option (List ℕ)) where
  -- What becomes of `follow` in a directory with `k` rounds to spare, where the search of the name
  -- gives an answer.
  abbrev pub After : (k : ℕ) → (ℕ × ℕ) ⊎ ℕ → Outcome ℕ → Type 0
  After k (inl (c, n)) r =
      (fuel : ℕ) × (position : ℕ) × (k ≤ fuel)
      × (r ≡ (
          read_cluster v (head_cluster_number (entry_in (contents s v c) n)) >>= λ p.
          follow fuel v end_mark (read_at v p (view v position) cluster_size)
            (head_cluster_number (entry_in (contents s v c) n)) false t (strtok_r slash last).0
            (strtok_r slash last).1))
  After k (inr _) r = r ≡ ok 0

  pub follow-After :
      (k fuel before c : ℕ) (cs composited : List ℕ)
      → Chain s v c cs
      → 0 < length cs
      → All (TidyAt s v) cs
      → k + length cs ≤ fuel
      → After k
          (first_in (λ c. is_dir_named t (contents s v c)) before cs)
          (follow fuel v end_mark (contents s v c) c false composited (some t) last)
  unfolding follow first_in
  follow-After k zero before c cs composited chain some_cluster tidy h = absurd (omega arith)
  follow-After k (suc fuel) before c _ composited (stop e) some_cluster tidy h =
      absurd (omega arith)
  follow-After k (suc fuel) before c _ composited (link {cs} is rest) some_cluster (tidy, ts) h =
      go
        (λ st chain' some'. follow-After k fuel c (entry 2 v c) cs st chain' some' ts (omega arith))
        _ _
        (scan-first (visit_dir-Decides fuel v t c (contents s v c) tidy) 8 9 0 composited
          (omega arith) (omega arith))
    where
      -- The search in the clusters behind this one.
      onward :
          (cs' st : List ℕ)
          → Chain s v (entry 2 v c) cs'
          → (Chain s v (entry 2 v c) cs'
              → 0 < length cs'
              → After k (first_in (λ c1. is_dir_named t (contents s v c1)) c cs') (
                  follow fuel v end_mark
                    (contents s v (entry 2 v c))
                    (entry 2 v c)
                    false
                    st
                    (some t)
                    last))
          → After k (first_in (λ c1. is_dir_named t (contents s v c1)) c cs') (
              read_fat_index v c >>= λ next. elim (next == end_mark) [
                | true ↦ ok 0
                | false ↦ read_cluster v next >>= λ position.
                    follow fuel v end_mark
                      (read_at v position (contents s v c) cluster_size)
                      next
                      false
                      st
                      (some t)
                      last
              ])
      onward [] st (stop e) further =
          let last' : ◌≡◌ {A = Outcome ℕ}
              (elim (entry 2 v c == end_mark) [
                | true ↦ ok 0
                | false ↦ read_cluster v (entry 2 v c) >>= λ position.
                    follow fuel v end_mark (read_at v position (contents s v c) cluster_size)
                      (entry 2 v c) false st (some t) last
              ])
              (ok 0) =
            rw (eq→== (entry 2 v c) end_mark e) refl in
          rw (next_lem l c is) last'
      onward (_ ∷ cs') st (link is' rest') further =
          let next : ℕ = entry 2 v c in
          let seen =
            read_at-view v (cluster_pos s next) (contents s v c) (view-Padded v (cluster_pos s c))
              is'.in_file (omega (arith, is'.in_fat, l.few)) in
          let last' : ◌≡◌ {A = Outcome ℕ}
              (elim (next == end_mark) [
                | true ↦ ok 0
                | false ↦ read_cluster v next >>= λ position.
                    follow fuel v end_mark (read_at v position (contents s v c) cluster_size) next
                      false st (some t) last
              ])
              (follow fuel v end_mark (contents s v next) next false st (some t) last) =
            rw
              (
                ne→== next end_mark is'.not_end,
                read_cluster_lem l next is'.in_fat.0 (omega (arith, is'.in_fat, l.few)),
                seen,
              )
              refl in
          subst (After k (first_in (λ c1. is_dir_named t (contents s v c1)) c (next ∷ cs')))
            (sym (rw (next_lem l c is) last')) (further (link is' rest') (omega arith))

      go :
          ((st : List ℕ)
            → Chain s v (entry 2 v c) cs
            → 0 < length cs
            → After k (first_in (λ c1. is_dir_named t (contents s v c1)) c cs) (
                follow fuel v end_mark
                  (contents s v (entry 2 v c))
                  (entry 2 v c)
                  false
                  st
                  (some t)
                  last))
          → (o : Option ℕ) (r : Outcome (Scanned (List ℕ) (ℕ × List ℕ)))
          → Ends (λ n. (head_cluster_number (entry_in (contents s v c) n), t)) o r
          → After k
              (elim o [
                | some n ↦ inl (c, n)
                | none ↦ first_in (λ c1. is_dir_named t (contents s v c1)) c cs
              ])
              (r >>= λ r'. elim r' [
                | found (head, name) ↦ read_cluster v head >>= λ position.
                    follow fuel v end_mark
                      (read_at v position (contents s v c) cluster_size)
                      head
                      false
                      name
                      (strtok_r slash last).0
                      (strtok_r slash last).1
                | passed flag' composited' ↦ read_fat_index v c >>= λ next.
                    elim (next == end_mark) [
                      | true ↦ ok 0
                      | false ↦ read_cluster v next >>= λ position.
                          follow fuel v end_mark
                            (read_at v position (contents s v c) cluster_size)
                            next
                            flag'
                            composited'
                            (some t)
                            last
                    ]
              ])
      go again _ _ (hit_at n) = (fuel, cluster_pos s c, omega arith, refl)
      go again _ _ (none_hit st) = onward cs st rest (again st)
