-- ===== src/Entry/Walk/Spare.antt =====
-- fat.c: a run of free entries of the table, from which `find_empty_fat_index` takes.
use model_lib.Prelude.{
  ℕ, ◌+◌, ◌-◌, ◌*◌, ◌%◌, ◌≤◌, ◌<◌, ◌≡◌, ◌≢◌, ◌⊎◌, inl, inr, ap, ◌∙◌, arith, ok, Bool-cases, ltb,
  ltb→lt, ltb→le,
}
use model_lib.Memory.{Bytes}
use model_lib.Volume.{Volume, write_at, max_pos}
use model_lib.Volume.Layout.{Layout, write_at_lem}
use model_lib.Fat.{find_empty_fat_index}
use model_lib.Fat.Entries.{InFat, entry, set_entry, set_entry_lem, Layout-set_entry}
use model_lib.Fat.Search.{Answer, find_empty-Answer}
use model_lib.Entry.Walk.Chain.{IsCluster, end_mark}
use model_lib.Entry.Walk.Clusters.{cluster_pos, data_start, entry-write_at}
use model_lib.Entry.Walk.Claim.{claimed, entry-set_other}
use model_lib.Entry.Walk.Extend.{extended}

-- The `k` entries from `m` on are free, and their clusters lie in the file.
pub record Spare (s : ℕ) (v : Volume) (m k : ℕ) : Type 0 where
  pub behind_root : 2 < m
  pub two_bytes : m + k ≤ 65535
  pub in_table : m + k ≤ 512 * s + 2
  pub in_file : cluster_pos s (m + k) ≤ v.size
  pub unused : (i : ℕ) → m ≤ i → i < m + k → entry 2 v i ≡ 0

-- A shorter run.
pub Spare-part : {s : ℕ} {v : Volume} {m k : ℕ} (k' : ℕ) → Spare s v m k → k' ≤ k → Spare s v m k'
Spare-part k' sp h = record {
  behind_root = sp.behind_root;
  two_bytes = omega (arith, sp.two_bytes);
  in_table = omega (arith, sp.in_table);
  in_file = omega (arith, sp.in_file);
  unused = λ i low high. sp.unused i low (omega arith);
}

-- What the search finds where three entries in a row are free.
pub record Taken (stack : Bytes) (s : ℕ) (v : Volume) (m x : ℕ) : Type 0 where
  pub found : find_empty_fat_index stack v ≡ ok x
  pub cluster : IsCluster s v x
  pub free : entry 2 v x ≡ 0
  pub small : x < 65535
  pub low : x ≤ m + 1

module _ {s : ℕ} {v : Volume} {m k : ℕ} (l : Layout 2 s v) (sp : Spare s v m k)
    (three : 3 ≤ k) where
  spare_entry : (i : ℕ) → m ≤ i → i < m + 3 → entry 2 v i ≡ 0
  spare_entry i low high = sp.unused i low (omega arith)

  -- Of two entries in a row, one is not the last of its sector.
  no_further :
      (x j : ℕ) → Answer s v 512 x → m ≤ j → j ≤ m + 1 → (j - 2) % 256 < 255 → (x ≡ 0) ⊎ (j < x) → ⊥
  no_further x j a low high last before =
      a.skipped j before (omega (arith, sp.behind_root), omega (arith, sp.in_table)) (omega arith)
        last (spare_entry j low (omega arith)) (spare_entry (j + 1) (omega arith) (omega arith))

  Answer-low : (x : ℕ) → Answer s v 512 x → (x ≢ 0) × (x ≤ m + 1)
  Answer-low x a = elim (Bool-cases (ltb ((m - 2) % 256) 255)) [
    | inl here ↦
        let not_further = no_further x m a (omega arith) (omega arith) (ltb→lt _ 255 here) in
        (λ z. not_further (inl z), below x m not_further (omega arith))
    | inr last ↦
        let full = ltb→le _ 255 last in
        let not_further =
          no_further x (m + 1) a (omega arith) (omega arith)
            (omega (arith, full, sp.behind_root)) in
        (λ z. not_further (inl z), below x (m + 1) not_further (omega arith))
  ]
    where
      below : (x j : ℕ) → (((x ≡ 0) ⊎ (j < x)) → ⊥) → j ≤ m + 1 → x ≤ m + 1
      below x j none_further h = elim (Bool-cases (ltb j x)) [
        | inl e ↦ absurd (none_further (inr (ltb→lt j x e)))
        | inr e ↦ omega (arith, ltb→le j x e)
      ]

  -- The search finds a free cluster, one of the first two of the run or an earlier one.
  pub find_empty-Taken : (stack : Bytes) → (x : ℕ) × Taken stack s v m x
  find_empty-Taken stack =
      let (x, e, a) = find_empty-Answer stack s v l in
      let (some_cluster, low) = Answer-low x a in
      let (inside, free) = a.free some_cluster in
      (
        x,
        record {
          found = e;
          cluster = record {
            in_fat = inside;
            in_file = omega (arith, sp.in_file);
            not_end = λ z. omega (arith, sp.two_bytes, z);
          };
          free = free;
          small = omega (arith, sp.two_bytes);
          low = low;
        },
      )

-- The run behind its first two entries is free after the search's answer has been linked.
module _ {s : ℕ} {v : Volume} {m k : ℕ} (l : Layout 2 s v) (sp : Spare s v m k) (two : 2 ≤ k) where
  pub Spare-less : Spare s v (m + 2) (k - 2)
  Spare-less = record {
    behind_root = omega (arith, sp.behind_root);
    two_bytes = omega (arith, sp.two_bytes);
    in_table = omega (arith, sp.in_table);
    in_file = omega (arith, sp.in_file, sp.behind_root);
    unused = λ i low high. sp.unused i (omega arith) (omega arith);
  }

  Spare-set_entry :
      (i value : ℕ)
      → InFat 2 s i
      → ((j : ℕ) → m + 2 ≤ j → j < m + k → j ≢ i)
      → Spare s (set_entry 2 v i value) (m + 2) (k - 2)
  Spare-set_entry i value inside apart = record {
    behind_root = omega (arith, sp.behind_root);
    two_bytes = omega (arith, sp.two_bytes);
    in_table = omega (arith, sp.in_table);
    in_file = rw (set_entry_lem l i value inside) (omega (arith, sp.in_file, sp.behind_root));
    unused = λ j low high.
        entry-set_other l i value inside j (omega (arith, sp.behind_root))
          (apart j low (omega arith))
        ∙ sp.unused j (omega arith) (omega arith);
  }

  pub Spare-claimed : (x : ℕ) → InFat 2 s x → x ≤ m + 1 → Spare s (claimed v x) (m + 2) (k - 2)
  Spare-claimed x inside low = Spare-set_entry x end_mark inside (λ j h below e. omega (arith, e))

module _ {s : ℕ} {v : Volume} {m k : ℕ} (l : Layout 2 s v) (sp : Spare s v m k) (two : 2 ≤ k) where
  pub Spare-extended :
      (y x : ℕ)
      → InFat 2 s y
      → InFat 2 s x
      → entry 2 v y ≡ end_mark
      → x ≤ m + 1
      → Spare s (extended v y x) (m + 2) (k - 2)
  Spare-extended y x inside inside' ends low =
      let l1 = Layout-set_entry l y x inside in
      let one : (j : ℕ) → m + 2 ≤ j → j < m + k → j ≢ y =
        λ j h below e. omega (arith, sp.unused j (omega arith) below, ends, ap (entry 2 v) e) in
      let sp1 = Spare-set_entry l sp two y x inside one in
      record {
        behind_root = sp1.behind_root;
        two_bytes = sp1.two_bytes;
        in_table = sp1.in_table;
        in_file = rw (set_entry_lem l1 x end_mark inside') (omega (arith, sp1.in_file));
        unused = λ j h below.
            entry-set_other l1 x end_mark inside' j (omega (arith, sp1.behind_root))
              (λ e. omega (arith, e))
            ∙ sp1.unused j h below;
      }

-- A write to the data leaves the run.
pub Spare-write_at :
    {s : ℕ} {v : Volume} {m k : ℕ} (l : Layout 2 s v) (position n : ℕ) (ptr : Bytes)
    → data_start s ≤ position
    → 0 < n
    → position + n ≤ max_pos
    → Spare s v m k
    → Spare s (write_at v position ptr n) m k
Spare-write_at {s} {v} {m} {k} l position n ptr h some_bytes fits sp = record {
  behind_root = sp.behind_root;
  two_bytes = sp.two_bytes;
  in_table = sp.in_table;
  in_file = rw (write_at_lem v position n ptr some_bytes fits) (omega (arith, sp.in_file));
  unused = λ i low high.
      entry-write_at l position n ptr i h some_bytes fits
        (omega (arith, sp.behind_root), omega (arith, sp.in_table))
      ∙ sp.unused i low high;
}
