-- ===== src/Dir/Walk.antt =====
-- dir.c: the loop of `__mfs_lookup` and `__mfs_readdir` over the clusters that the table links.
use mathlib.Core.Path.{subst}
use model_lib.Prelude.{
  ℕ, zero, suc, ◌+◌, ◌≤◌, ◌<◌, ◌≡◌, ◌≢◌, ◌⊎◌, inl, inr, arith, Bool, Outcome, ok, ◌>>=◌, List, [],
  ◌∷◌, length, eq→==, ne→==, sym, ap, fun_ext,
}
use model_lib.Memory.{Bytes}
use model_lib.Volume.{Volume, read_at, cluster_size}
use model_lib.Volume.Layout.{Layout}
use model_lib.Fat.{u32_mod, read_fat_index}
use model_lib.Fat.Entries.{entry, read_fat_index-entry}
use model_lib.Entry.Dirent.{entry_per_data_cluster}
use model_lib.Entry.Walk.{found, passed, read_cluster, get_first_entry, scan_entries}
use model_lib.Entry.Walk.Clusters.{cluster_pos, read_cluster_lem, view, view-Padded, read_at-view}
use model_lib.Entry.Walk.Chain.{Chain, stop, link, end_mark}
use model_lib.Dir.{walk_read}

module _ {S A : Type 0} where
  -- The scans of the clusters of a list, one after the other, with the state at the end.
  unfoldable pub read_list :
      (visit : (cluster_number : ℕ) → Bytes → ℕ → S → Outcome (A ⊎ S))
      → (s : ℕ) → Volume
      → Bool
      → S
      → List ℕ
      → Outcome (A ⊎ S)
  read_list visit s v flag state [] = ok (inr state)
  read_list visit s v flag state (c ∷ cs) = get_first_entry flag >>= λ n.
      scan_entries (visit c) (entry_per_data_cluster + 1) (view v (cluster_pos s c)) n flag state
      >>= λ r. elim r [
        | found a ↦ ok (inl a)
        | passed flag' state' ↦ read_list visit s v flag' state' cs
      ]

-- The first number of a chain is one whose position can be computed, also where it is the end mark.
Chain-number :
    {s : ℕ} {v : Volume} {c : ℕ} {cs : List ℕ}
    → s < 65536
    → Chain s v c cs
    → (2 ≤ c) × (c < u32_mod)
Chain-number few (stop e) = omega (arith, e)
Chain-number few (link is rest) = omega (arith, is.in_fat)

module _ {S A : Type 0} (visit : (cluster_number : ℕ) → Bytes → ℕ → S → Outcome (A ⊎ S)) {s : ℕ}
    {v : Volume} (l : Layout 2 s v) where
  -- On a formatted volume with two-byte indices, the walk that begins with the contents of the first
  -- cluster of a chain scans the clusters of the chain in order; it also reads what would be the contents of
  -- the end mark, and does not use it. One round more than the chain has clusters is enough.
  pub walk_read-read_list :
      (fuel : ℕ) (buffer : Bytes) (c : ℕ) (cs : List ℕ) (flag : Bool) (state : S)
      → Chain s v c cs
      → length cs < fuel
      → (c ≢ end_mark → buffer ≡ view v (cluster_pos s c))
      → walk_read visit fuel v end_mark buffer c flag state ≡ read_list visit s v flag state cs
  unfolding walk_read read_list
  walk_read-read_list zero buffer c cs flag state chain h seen = absurd (omega arith)
  walk_read-read_list (suc fuel) buffer c _ flag state (stop e) h seen =
      rw (walk_read, eq→== c end_mark e)
  walk_read-read_list (suc fuel) buffer c _ flag state (link {cs} is rest) h seen =
      let next : ℕ = entry 2 v c in
      let (low, high) = Chain-number l.few rest in
      let same : ◌≡◌ {A = Bool → S → Outcome (A ⊎ S)}
          (λ flag' state'. read_fat_index v c >>= λ next'. read_cluster v next' >>= λ position.
            walk_read visit fuel v end_mark
              (read_at v position (view v (cluster_pos s c)) cluster_size) next' flag' state')
          (λ flag' state'. read_list visit s v flag' state' cs) =
        fun_ext λ flag'. fun_ext λ state'.
          rw
            (
              read_fat_index-entry l c is.in_fat (omega (arith, is.in_fat, l.few)) (omega arith),
              read_cluster_lem l next low high,
            )
            (walk_read-read_list fuel
              (read_at v (cluster_pos s next) (view v (cluster_pos s c)) cluster_size) next cs flag'
              state' rest (omega arith) (further next (cluster_pos s c) rest)) in
      subst
        (λ b.
          walk_read visit (suc fuel) v end_mark b c flag state
          ≡ read_list visit s v flag state (c ∷ cs))
        (sym (seen is.not_end))
        (rw (walk_read, ne→== c end_mark is.not_end)
          (ap
            (λ (k : Bool → S → Outcome (A ⊎ S)). get_first_entry flag >>= λ n.
              scan_entries (visit c) (entry_per_data_cluster + 1) (view v (cluster_pos s c)) n flag
                state
              >>= λ r. elim r [ found a ↦ ok (inl a) | passed flag' state' ↦ k flag' state' ])
            same))
    where
      further :
          (c' before : ℕ) {cs' : List ℕ}
          → Chain s v c' cs'
          → c' ≢ end_mark
          → read_at v (cluster_pos s c') (view v before) cluster_size ≡ view v (cluster_pos s c')
      further c' before (stop e) ne = absurd (ne e)
      further c' before (link is rest) ne =
          read_at-view v (cluster_pos s c') (view v before) (view-Padded v before) is.in_file
            (omega (arith, is.in_fat, l.few))
