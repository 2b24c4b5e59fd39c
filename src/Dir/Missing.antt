-- ===== src/Dir/Missing.antt =====
-- dir.c: `__mfs_lookup` in a route that leads nowhere, for which `get_cluster_number` returns 0.
use model_lib.Prelude.{
  ℕ, zero, suc, ◌+◌, ◌-◌, ◌*◌, ◌%◌, ◌<◌, ◌≤◌, ◌≡◌, refl, ◌∙◌, ap, arith, ltb, le→ltb, false, ok,
  out_of_fuel, List, [], inl, inr, fun_ext, same_string, Bool-cases,
}
use model_lib.Memory.{zeroed, c_string, u16_at}
use model_lib.Volume.{Volume, sb_of, read_at}
use model_lib.Volume.Layout.{Layout, layout_sb, layout_end, read_at_lem}
use model_lib.Fat.{u128_mod, start_position, end_position, read_fat_index}
use model_lib.Fat.Entries.{start_lem, end_lem}
use model_lib.Entry.Dirent.{entry_name}
use model_lib.Entry.LongName.{take_name}
use model_lib.Entry.Walk.Clusters.{data_start, read_cluster_zero, view, read_at-view}
use model_lib.Entry.Walk.Chain.{end_mark}
use model_lib.Entry.Walk.Slots.{scan_none}
use model_lib.Entry.Directory.{get_cluster_number}
use model_lib.Entry.Directory.Find.{entry_name-slot_name}
use model_lib.Dir.{visit_lookup, walk_read, lookup}

zeroed_name : (n : ℕ) → n < 8 → entry_name zeroed n ≡ ok []
unfolding c_string
zeroed_name n h = entry_name-slot_name zeroed n [] h refl

visit_zeroed :
    (fuel : ℕ) (v : Volume) (file_name : List ℕ) (n : ℕ) (st : List ℕ)
    → n < 8
    → visit_lookup fuel v file_name 0 zeroed n st ≡ ok (inr [])
unfolding visit_lookup take_name
visit_zeroed fuel v file_name n st h = elim (Bool-cases (same_string [] file_name)) [
  | inl e ↦ rw (zeroed_name n h, e) refl
  | inr e ↦ rw (zeroed_name n h, e) refl
]

module _ {s : ℕ} {v : Volume} (l : Layout 2 s v) (some_table : 1 ≤ s)
    (padding : u16_at v.bytes 508 ≡ 0)
    (blank : (i : ℕ) → i < 512 → v.bytes (data_start s - 1024 + i) ≡ 0) where
  -- "Entry 0" is read from the end of the superblock.
  entry_zero : read_fat_index v 0 ≡ ok 0
  unfolding read_fat_index
  entry_zero =
      let e : (start_position (sb_of v.bytes) + 2 * ((0 + u128_mod - 2) % u128_mod) % u128_mod)
            % u128_mod
          ≡ 508 =
        omega (arith, start_lem l) in
      let inside : ltb (end_position (sb_of v.bytes)) 508 ≡ false =
        le→ltb _ _ (omega (arith, end_lem l)) in
      rw
        (
          layout_sb l,
          l.width,
          e,
          inside,
          read_at_lem v 508 2 zeroed (omega (arith, l.room)) (omega arith),
        )
        (ap ok (omega (arith, padding)))

  cluster_zero : view v (data_start s - 1024) ≡ zeroed
  cluster_zero = fun_ext λ i. ground (arith, blank i)

  read_zero : read_at v (data_start s - 1024) zeroed 512 ≡ zeroed
  read_zero =
      read_at-view v (data_start s - 1024) zeroed (λ i h. refl) (omega (arith, l.room))
        (omega (arith, l.few))
      ∙ cluster_zero

  walk_zero :
      (rounds fuel : ℕ) (file_name : List ℕ) (st : List ℕ)
      → walk_read (visit_lookup rounds v file_name) fuel v end_mark zeroed 0 false st ≡ out_of_fuel
  unfolding walk_read
  walk_zero rounds zero file_name st = refl
  walk_zero rounds (suc fuel) file_name st =
      let (st', scanned) =
        scan_none (visit_lookup rounds v file_name 0) zeroed (λ n h. refl)
          (λ n st1 h. ([], visit_zeroed rounds v file_name n st1 h)) 8 9 0 st (omega arith)
          (omega arith) in
      rw (walk_read, scanned, entry_zero, read_cluster_zero l some_table, read_zero)
        (walk_zero rounds fuel file_name st')

-- On a formatted volume with two-byte indices whose superblock ends in zeros and whose table has its
-- last sector but one free: where the search for the route ends with 0, as it does for a route that
-- leads nowhere, `__mfs_lookup` does not end, whatever number of rounds it is given.
pub lookup-endless :
    (fuel s : ℕ) (v : Volume) (route file_name : List ℕ)
    → Layout 2 s v
    → 1 ≤ s
    → u16_at v.bytes 508 ≡ 0
    → ((i : ℕ) → i < 512 → v.bytes (data_start s - 1024 + i) ≡ 0)
    → get_cluster_number fuel v route ≡ ok 0
    → lookup fuel v route file_name ≡ out_of_fuel
unfolding lookup
lookup-endless fuel s v route file_name l some_table padding blank nowhere =
    rw
      (
        layout_end l,
        nowhere,
        read_cluster_zero l some_table,
        read_zero l some_table padding blank,
        walk_zero l some_table padding blank fuel fuel file_name [],
      )
      refl
