-- ===== src/Entry/Directory/Leads.antt =====
-- entry.c: where a path leads, as a relation, and that `get_cluster_number` goes there.
use mathlib.Core.Path.{subst}
use model_lib.Prelude.{
  ℕ, zero, suc, ◌+◌, ◌<◌, ◌≡◌, inl, inr, refl, ap, ◌∙◌, sym, arith, false, List, [], ◌∷◌, Option,
  none, some, Outcome, ok, length,
}
use model_lib.Memory.{Bytes, zeroed}
use model_lib.Volume.{Volume, read_at, cluster_size}
use model_lib.Volume.Layout.{Layout, layout_end, layout_sb}
use model_lib.Util.{strtok_r}
use model_lib.Util.Tokens.{components, remaining, parts, strtok_r-parts}
use model_lib.Entry.Dirent.{entry_in, head_cluster_number}
use model_lib.Entry.Walk.{read_cluster}
use model_lib.Entry.Walk.Clusters.{cluster_pos, view, view-Padded, read_cluster_lem, read_at-view}
use model_lib.Entry.Walk.Chain.{Chain, stop, link, IsCluster, end_mark}
use model_lib.Entry.Walk.Claim.{contents}
use model_lib.Entry.Walk.Slots.{All, first_in}
use model_lib.Entry.Directory.{slash, follow, get_cluster_number}
use model_lib.Entry.Directory.Find.{TidyAt}
use model_lib.Entry.Directory.Route.{find_dir, After, follow-After}

-- From the directory that begins in cluster `c`, the names lead to cluster `c'`: each name is that of
-- a directory in the directory before. Where a name is missing, they lead to 0. `rounds` bounds the number
-- of clusters on the way.
pub data Leads (s : ℕ) (v : Volume)
    : (c : ℕ) → (names : List (List ℕ)) → (rounds c' : ℕ) → Type 0 where
  here : {c : ℕ} → Leads s v c [] 0 c
  into :
      {c c1 n rounds c' : ℕ} {cs t : List ℕ} {names : List (List ℕ)}
      → Chain s v c cs
      → All (TidyAt s v) cs
      → find_dir s v t cs ≡ inl (c1, n)
      → Leads s v (head_cluster_number (entry_in (contents s v c1) n)) names rounds c'
      → Leads s v c (t ∷ names) (length cs + rounds) c'
  nowhere :
      {c last : ℕ} {cs t : List ℕ} {names : List (List ℕ)}
      → Chain s v c cs
      → 0 < length cs
      → All (TidyAt s v) cs
      → find_dir s v t cs ≡ inr last
      → Leads s v c (t ∷ names) (length cs) 0

next_parts : (last : Option (List ℕ)) → parts slash (strtok_r slash last) ≡ remaining slash last
unfolding strtok_r
next_parts none = refl
next_parts (some rest) = sym (strtok_r-parts slash rest)

read_cluster-ok :
    {s : ℕ} {v : Volume} (l : Layout 2 s v) (c : ℕ) → (p : ℕ) × (read_cluster v c ≡ ok p)
unfolding read_cluster
read_cluster-ok l c = rw (layout_sb l) (_, refl)

not_empty :
    (s : ℕ) (v : Volume) (t cs : List ℕ) (c n : ℕ) → find_dir s v t cs ≡ inl (c, n) → 0 < length cs
unfolding first_in
not_empty s v t [] c n e = cc
not_empty s v t (c' ∷ cs) c n e = omega arith

Chain-start :
    {s : ℕ} {v : Volume} {c : ℕ} {cs : List ℕ} → Chain s v c cs → 0 < length cs → IsCluster s v c
Chain-start (stop e) h = absurd (omega arith)
Chain-start (link is rest) h = is

same_first : (t t' : List ℕ) (ts ts' : List (List ℕ)) → t ∷ ts ≡ t' ∷ ts' → (t ≡ t') × (ts ≡ ts')
same_first t t' ts ts' e = (cc, cc)

module _ {s : ℕ} {v : Volume} (l : Layout 2 s v) where
  -- Where a directory begins in a cluster of the volume, its contents are read.
  first_view :
      (c p before : ℕ)
      → read_cluster v c ≡ ok p
      → IsCluster s v c
      → read_at v p (view v before) cluster_size ≡ contents s v c
  first_view c p before at is =
      let place : p ≡ cluster_pos s c =
        let e : ◌≡◌ {A = Outcome ℕ} (ok p) (ok (cluster_pos s c)) =
          sym at ∙ read_cluster_lem l c is.in_fat.0 (omega (arith, is.in_fat, l.few)) in
        cc in
      rw place (
        read_at-view v (cluster_pos s c) (view v before) (view-Padded v before) is.in_file
          (omega (arith, is.in_fat, l.few)))

  follow-Leads :
      {c rounds c' : ℕ} {names : List (List ℕ)} (fuel : ℕ) (buffer : Bytes) (composited : List ℕ)
      (tok last : Option (List ℕ))
      → Leads s v c names rounds c'
      → parts slash (tok, last) ≡ names
      → (IsCluster s v c → buffer ≡ contents s v c)
      → rounds < fuel
      → follow fuel v end_mark buffer c false composited tok last ≡ ok c'
  unfolding follow
  follow-Leads zero buffer composited tok last leads e seen h = absurd (omega arith)
  follow-Leads (suc fuel) buffer composited none last here e seen h = refl
  follow-Leads (suc fuel) buffer composited (some t) last here e seen h = cc
  follow-Leads fuel buffer composited none last (into chain tidy found rest) e seen h = cc
  follow-Leads fuel buffer composited none last (nowhere chain some_cluster tidy missing) e seen h =
      cc
  follow-Leads fuel buffer composited (some t) last
        (nowhere {c} {last = last'} {cs} {t = t'} {names} chain some_cluster tidy missing) e seen
        h =
      let same = (same_first t t' (remaining slash last) names e).0 in
      let missing' : find_dir s v t cs ≡ inr last' = ap (λ x. find_dir s v x cs) same ∙ missing in
      let ends =
        subst
          (λ x.
            After l t last 0 x
              (follow fuel v end_mark (contents s v c) c false composited (some t) last))
          missing'
          (follow-After l t last 0 fuel 0 c cs composited chain some_cluster tidy (omega arith)) in
      ap (λ (b : Bytes). follow fuel v end_mark b c false composited (some t) last)
        (seen (Chain-start chain some_cluster))
      ∙ ends
  follow-Leads fuel buffer composited (some t) last
        (into {c} {c1} {n} {rounds} {c' = target} {cs} {t = t'} {names} chain tidy found rest) e
        seen h =
      let some_cluster = not_empty s v t' cs c1 n found in
      let (same, more) = same_first t t' (remaining slash last) names e in
      let found' : find_dir s v t cs ≡ inl (c1, n) = ap (λ x. find_dir s v x cs) same ∙ found in
      let (fuel', before, enough, further) =
        subst
          (λ x.
            After l t last (suc rounds) x
              (follow fuel v end_mark (contents s v c) c false composited (some t) last))
          found'
          (follow-After l t last (suc rounds) fuel 0 c cs composited chain some_cluster tidy
            (omega arith)) in
      let head : ℕ = head_cluster_number (entry_in (contents s v c1) n) in
      let (p, at) = read_cluster-ok l head in
      let again : follow fuel' v end_mark (read_at v p (view v before) cluster_size) head false t
            (strtok_r slash last).0 (strtok_r slash last).1
          ≡ ok target =
        follow-Leads fuel' (read_at v p (view v before) cluster_size) t (strtok_r slash last).0
          (strtok_r slash last).1 rest (next_parts last ∙ more) (first_view head p before at)
          (omega arith) in
      ap (λ (b : Bytes). follow fuel v end_mark b c false composited (some t) last)
        (seen (Chain-start chain some_cluster))
      ∙ further
      ∙ rw at again

-- On a formatted volume with two-byte indices, for a path whose parts between slashes lead from the root
-- directory to a cluster (through directories whose entries all have short names that end, each of which
-- has a directory of the next name), `get_cluster_number`, given more rounds than there are
-- clusters on the way, returns that cluster; where a directory on the way has none of the name, it
-- returns 0.
pub get_cluster_number-Leads :
    (fuel s : ℕ) (v : Volume) (path : List ℕ) (rounds c : ℕ)
    → Layout 2 s v
    → IsCluster s v 2
    → Leads s v 2 (components slash path) rounds c
    → rounds < fuel
    → get_cluster_number fuel v path ≡ ok c
unfolding get_cluster_number
get_cluster_number-Leads fuel s v path rounds c l root leads h =
    let seen : IsCluster s v 2 → read_at v (cluster_pos s 2) zeroed cluster_size ≡ contents s v 2 =
      λ is.
        read_at-view v (cluster_pos s 2) zeroed (λ i h. refl) is.in_file (omega (arith, l.few)) in
    rw (layout_end l, read_cluster_lem l 2 (omega arith) (omega arith))
      (follow-Leads l fuel (read_at v (cluster_pos s 2) zeroed cluster_size) []
        (strtok_r slash (some path)).0 (strtok_r slash (some path)).1 leads
        (sym (strtok_r-parts slash path)) seen h)
