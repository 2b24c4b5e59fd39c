-- ===== src/Entry/Walk/Kept.antt =====
-- entry.c: a write to the data clusters keeps the chains of the table.
use mathlib.Core.Path.{subst}
use model_lib.Prelude.{ℕ, ◌+◌, ◌≤◌, ◌<◌, ◌≡◌, sym, arith, List}
use model_lib.Memory.{Bytes}
use model_lib.Volume.{Volume, write_at, max_pos}
use model_lib.Volume.Layout.{Layout, write_at_lem}
use model_lib.Fat.Entries.{entry}
use model_lib.Entry.Walk.Clusters.{data_start, entry-write_at}
use model_lib.Entry.Walk.Chain.{Chain, stop, link, IsCluster}

module _ {s : ℕ} {v : Volume} (l : Layout 2 s v) (position n : ℕ) (ptr : Bytes)
    (in_data : data_start s ≤ position) (some_bytes : 0 < n) (small : position + n ≤ max_pos) where
  pub IsCluster-write_at : (c : ℕ) → IsCluster s v c → IsCluster s (write_at v position ptr n) c
  IsCluster-write_at c is = record {
    in_fat = is.in_fat;
    in_file = rw (write_at_lem v position n ptr some_bytes small) (omega (arith, is.in_file));
    not_end = is.not_end;
  }

  pub Chain-write_at :
      {c : ℕ} {cs : List ℕ} → Chain s v c cs → Chain s (write_at v position ptr n) c cs
  Chain-write_at (stop e) = stop e
  Chain-write_at (link {c} {cs} is rest) =
      let same : entry 2 (write_at v position ptr n) c ≡ entry 2 v c =
        entry-write_at l position n ptr c in_data some_bytes small is.in_fat in
      link (IsCluster-write_at c is)
        (subst (λ x. Chain s (write_at v position ptr n) x cs) (sym same) (Chain-write_at rest))
