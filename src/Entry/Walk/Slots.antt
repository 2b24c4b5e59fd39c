-- ===== src/Entry/Walk/Slots.antt =====
-- entry.c: a walk whose work at an entry only tests it finds the first entry that passes.
use model_lib.Prelude.{
  ℕ, zero, suc, ◌+◌, ◌<◌, ◌≡◌, refl, ◌⊎◌, inl, inr, arith, Bool, true, false, Outcome, ok, ◌>>=◌,
  List, [], ◌∷◌, Option, none, some, if◌then◌else◌, eq→==, ne→==, Bool-cases,
}
use model_lib.Memory.{Bytes}
use model_lib.Volume.{Volume}
use model_lib.Entry.Dirent.{is_long_file_name, attribute, entry_in}
use model_lib.Entry.Walk.{Scanned, found, passed, get_next_entry, scan_entries}
use model_lib.Entry.Walk.Clusters.{cluster_pos, view}
use model_lib.Entry.Walk.Chain.{walk_list}

-- The first of the `k` numbers from `n` on that passes a test.
unfoldable pub first : (ℕ → Bool) → (k n : ℕ) → Option ℕ
first test zero n = none
first test (suc k) n = let rest : Option ℕ = first test k (n + 1) in if test n then some n else rest

-- What `visit` does at the entries of one cluster: where `hit` holds it returns `res`, elsewhere it
-- goes on. No entry has a long name.
pub record Decides {S A : Type 0} (visit : Bytes → ℕ → S → Outcome (A ⊎ S)) (cluster : Bytes)
    (hit : ℕ → Bool) (res : ℕ → A) : Type 0 where
  pub short : (n : ℕ) → n < 8 → is_long_file_name (attribute (entry_in cluster n)) ≡ false
  pub hits : (n : ℕ) (st : S) → n < 8 → hit n ≡ true → visit cluster n st ≡ ok (inl (res n))
  pub misses :
      (n : ℕ) (st : S) → n < 8 → hit n ≡ false → (st' : S) × (visit cluster n st ≡ ok (inr st'))

-- The end of a scan that found or passed.
pub data Ends {S A : Type 0} (res : ℕ → A) : Option ℕ → Outcome (Scanned S A) → Type 0 where
  hit_at : (n : ℕ) → Ends res (some n) (ok (found (res n)))
  none_hit : (st : S) → Ends res none (ok (passed false st))

module _ {S A : Type 0} {visit : Bytes → ℕ → S → Outcome (A ⊎ S)} {cluster : Bytes} {hit : ℕ → Bool}
    {res : ℕ → A} (d : Decides visit cluster hit res) where
  next_short : (n : ℕ) → n < 8 → get_next_entry cluster n false ≡ ok (n + 1, false)
  unfolding get_next_entry
  next_short n h = rw (d.short n h)

  pub scan-first :
      (k fuel n : ℕ) (st : S)
      → n + k ≡ 8
      → k < fuel
      → Ends res (first hit k n) (scan_entries visit fuel cluster n false st)
  unfolding first scan_entries
  scan-first k zero n st e h = absurd (omega arith)
  scan-first zero (suc fuel) n st e h =
      let n' : n ≡ 8 = omega arith in rw (scan_entries, eq→== n 8 n') (none_hit st)
  scan-first (suc k) (suc fuel) n st e h = elim (Bool-cases (hit n)) [
    | inl t ↦ rw (t, scan_entries, ne→== n 8 (omega arith), d.hits n st (omega arith) t) (hit_at n)
    | inr f ↦
        let (st', m) = d.misses n st (omega arith) f in
        rw (f, scan_entries, ne→== n 8 (omega arith), m, next_short n (omega arith))
          (scan-first k fuel (n + 1) st' (omega arith) (omega arith))
  ]

-- A scan that finds nothing in a cluster.
module _ {S A : Type 0} (visit : Bytes → ℕ → S → Outcome (A ⊎ S)) (cluster : Bytes)
    (short : (n : ℕ) → n < 8 → is_long_file_name (attribute (entry_in cluster n)) ≡ false)
    (pass : (n : ℕ) (st : S) → n < 8 → (st' : S) × (visit cluster n st ≡ ok (inr st'))) where
  pub scan_none :
      (k fuel n : ℕ) (st : S)
      → n + k ≡ 8
      → k < fuel
      → (st' : S) × (scan_entries visit fuel cluster n false st ≡ ok (passed false st'))
  unfolding scan_entries get_next_entry
  scan_none k zero n st e h = absurd (omega arith)
  scan_none zero (suc fuel) n st e h =
      let n' : n ≡ 8 = omega arith in (st, rw (scan_entries, eq→== n 8 n') refl)
  scan_none (suc k) (suc fuel) n st e h =
      let (st1, m) = pass n st (omega arith) in
      let (st2, rest) = scan_none k fuel (n + 1) st1 (omega arith) (omega arith) in
      (
        st2,
        rw (scan_entries, ne→== n 8 (omega arith), m, get_next_entry, short n (omega arith)) rest,
      )

-- The first entry that passes in the clusters of a list, as cluster and number; or the last cluster.
unfoldable pub first_in : (hit : (c n : ℕ) → Bool) → (before : ℕ) → List ℕ → (ℕ × ℕ) ⊎ ℕ
first_in hit before [] = inr before
first_in hit before (c ∷ cs) = elim (first (hit c) 8 0) [
  | some n ↦ inl (c, n)
  | none ↦ first_in hit c cs
]

abbrev pub All : (ℕ → Type 0) → List ℕ → Type 0
All P [] = Unit {0}
All P (c ∷ cs) = P c × All P cs

abbrev pub answer : {A : Type 0} → ((c n : ℕ) → A) → (ℕ × ℕ) ⊎ ℕ → A ⊎ ℕ
answer res (inl (c, n)) = inl (res c n)
answer res (inr before) = inr before

module _ {S A : Type 0} (visit : (cluster_number position : ℕ) → Bytes → ℕ → S → Outcome (A ⊎ S))
    (s : ℕ) (v : Volume) (hit : (c n : ℕ) → Bool) (res : (c n : ℕ) → A) where
  abbrev pub DecidesAt : ℕ → Type 0
  DecidesAt c = Decides (visit c (cluster_pos s c)) (view v (cluster_pos s c)) (hit c) (res c)

  pub walk_list-first_in :
      (cs : List ℕ) (before : ℕ) (st : S)
      → All DecidesAt cs
      → walk_list visit s v before false st cs ≡ ok (answer res (first_in hit before cs))
  unfolding walk_list first_in
  walk_list-first_in [] before st ds = refl
  walk_list-first_in (c ∷ cs) before st (d, ds) =
      go _ _ (λ st'. walk_list-first_in cs c st' ds)
        (scan-first d 8 9 0 st (omega arith) (omega arith))
    where
      go :
          (o : Option ℕ) (r : Outcome (Scanned S A))
          → ((st' : S) → walk_list visit s v c false st' cs ≡ ok (answer res (first_in hit c cs)))
          → Ends (res c) o r
          → (r >>= λ r'. elim r' [
            | found a ↦ ok (inl a)
            | passed flag' state' ↦ walk_list visit s v c flag' state' cs
          ])
            ≡ ok (answer res (elim o [ some n ↦ inl (c, n) | none ↦ first_in hit c cs ]))
      go _ _ ih (hit_at n) = refl
      go _ _ ih (none_hit st') = ih st'
