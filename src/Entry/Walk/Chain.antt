-- ===== src/Entry/Walk/Chain.antt =====
-- entry.c: the clusters of a file or a directory, as the table links them, and the walk through them.
use model_lib.Prelude.{
  ℕ, zero, suc, ◌+◌, ◌≤◌, ◌<◌, ◌≡◌, ◌≢◌, ◌⊎◌, inl, inr, arith, Bool, Outcome, ok, ◌>>=◌, List, [],
  ◌∷◌, length, eq→==, ne→==, ap₂, fun_ext,
}
use model_lib.Memory.{Bytes}
use model_lib.Volume.{Volume, read_at, cluster_size}
use model_lib.Volume.Layout.{Layout}
use model_lib.Fat.{u32_mod, read_fat_index}
use model_lib.Fat.Entries.{InFat, entry, read_fat_index-entry}
use model_lib.Entry.Dirent.{entry_per_data_cluster}
use model_lib.Entry.Walk.{found, passed, get_first_entry, scan_entries, walk_clusters}
use model_lib.Entry.Walk.Clusters.{
  cluster_pos, read_cluster_lem, view, Padded, view-Padded, read_at-view,
}

-- The end mark of two bytes.
abbrev pub end_mark : ℕ
end_mark = 0xffff

-- A cluster that is linked by an entry of the table and lies in the file.
pub record IsCluster (s : ℕ) (v : Volume) (c : ℕ) : Type 0 where
  pub in_fat : InFat 2 s c
  pub in_file : cluster_pos s c + 512 ≤ v.size
  pub not_end : c ≢ end_mark

-- From cluster `c` the table leads through the clusters `cs` to the end mark.
pub data Chain (s : ℕ) (v : Volume) : ℕ → List ℕ → Type 0 where
  stop : {c : ℕ} → c ≡ end_mark → Chain s v c []
  link : {c : ℕ} {cs : List ℕ} → IsCluster s v c → Chain s v (entry 2 v c) cs → Chain s v c (c ∷ cs)

module _ {S A : Type 0} where
  -- The walk without the table: the scans of the clusters of a list, one after the other.
  unfoldable pub walk_list :
      (visit : (cluster_number position : ℕ) → Bytes → ℕ → S → Outcome (A ⊎ S))
      → (s : ℕ) → Volume
      → (before : ℕ) → Bool
      → S
      → List ℕ
      → Outcome (A ⊎ ℕ)
  walk_list visit s v before flag state [] = ok (inr before)
  walk_list visit s v before flag state (c ∷ cs) = get_first_entry flag >>= λ n.
      scan_entries (visit c (cluster_pos s c)) (entry_per_data_cluster + 1)
        (view v (cluster_pos s c)) n flag state
      >>= λ r. elim r [
        | found a ↦ ok (inl a)
        | passed flag' state' ↦ walk_list visit s v c flag' state' cs
      ]

  -- On a formatted volume with two-byte indices, the walk from the first cluster of a chain scans the
  -- clusters of the chain in order, and one round more than the chain has clusters is enough.
  pub walk_clusters-walk_list :
      (visit : (cluster_number position : ℕ) → Bytes → ℕ → S → Outcome (A ⊎ S)) {s : ℕ} {v : Volume}
      (l : Layout 2 s v) (fuel : ℕ) (buffer : Bytes) (before c : ℕ) (cs : List ℕ) (flag : Bool)
      (state : S)
      → Chain s v c cs
      → length cs < fuel
      → Padded buffer
      → walk_clusters visit fuel v end_mark buffer before c flag state
        ≡ walk_list visit s v before flag state cs
  unfolding walk_clusters walk_list
  walk_clusters-walk_list visit l zero buffer before c cs flag state chain h padded =
      absurd (omega arith)
  walk_clusters-walk_list visit l (suc fuel) buffer before c _ flag state (stop e) h padded =
      rw (walk_clusters, eq→== c end_mark e)
  walk_clusters-walk_list visit {s} {v} l (suc fuel) buffer before c _ flag state
        (link {cs} is rest) h padded =
      let position = cluster_pos s c in
      let small : c < u32_mod = omega (arith, is.in_fat, l.few) in
      let seen : read_at v position buffer cluster_size ≡ view v position =
        read_at-view v position buffer padded is.in_file (omega (arith, is.in_fat, l.few)) in
      let next_is : read_fat_index v c ≡ ok (entry 2 v c) =
        read_fat_index-entry l c is.in_fat (omega arith) (omega arith) in
      let same : ◌≡◌ {A = Bool → S → Outcome (A ⊎ ℕ)}
          (λ flag' state'. read_fat_index v c >>= λ next.
            walk_clusters visit fuel v end_mark (read_at v position buffer cluster_size) c next
              flag' state')
          (λ flag' state'. walk_list visit s v c flag' state' cs) =
        fun_ext λ flag'. fun_ext λ state'.
          rw (next_is, seen)
            (walk_clusters-walk_list visit l fuel (view v position) c (entry 2 v c) cs flag' state'
              rest (omega arith) (view-Padded v position)) in
      rw (walk_clusters, ne→== c end_mark is.not_end, read_cluster_lem l c is.in_fat.0 small)
        (ap₂
          (λ (cluster : Bytes) (k : Bool → S → Outcome (A ⊎ ℕ)). get_first_entry flag >>= λ n.
            scan_entries (visit c position) (entry_per_data_cluster + 1) cluster n flag state
            >>= λ r. elim r [ found a ↦ ok (inl a) | passed flag' state' ↦ k flag' state' ])
          seen same)
