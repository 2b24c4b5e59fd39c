-- ===== src/Fat/Search.antt =====
-- fat.c: `find_empty_fat_index` on a formatted volume with two-byte indices.
use model_lib.Prelude.{
  ℕ, zero, suc, ◌+◌, ◌-◌, ◌*◌, ◌/◌, ◌%◌, ◌≤◌, ◌<◌, ◌==◌, ltb, true, ◌≡◌, ◌≢◌, refl, inl, inr, ◌⊎◌,
  if◌then◌else◌, arith, ok, Option, none, some, Bool-cases, ==→eq, ==→ne, lt→ltb, ltb→lt, ltb→le,
  ◌∙◌,
}
use model_lib.Memory.{Bytes, u32_at}
use model_lib.Volume.{Volume, sb_of, bytes_per_sector, read_at}
use model_lib.Volume.Layout.{Layout, layout_sb, read_at_inside}
use model_lib.Fat.{
  u32_mod, start_position, end_position, find_in_sector, find_in_fat, find_empty_fat_index,
}
use model_lib.Fat.Entries.{InFat, entry, entry_pos, entry-u16, start_lem, end_lem}

-- No number of four bytes from `index` on, two bytes apart, is 0 that begins before `stop`.
abbrev Used : Bytes → (index stop : ℕ) → Type 0
Used sector index stop = (k : ℕ) → index + 2 * k < stop → u32_at sector (index + 2 * k) ≢ 0

-- What the inner loop finds from `index` on.
abbrev SectorResult : Bytes → ℕ → Option ℕ → Type 0
SectorResult sector index none = Used sector index 512
SectorResult sector index (some i) =
    (i < 512) × (i % 2 ≡ index % 2) × (u32_at sector i ≡ 0) × Used sector index i

Used-step :
    (sector : Bytes) (index stop : ℕ)
    → u32_at sector index ≢ 0
    → Used sector (index + 2) stop
    → Used sector index stop
Used-step sector index stop used spec zero below =
    let e : index + 2 * 0 ≡ index = omega arith in rw e used
Used-step sector index stop used spec (suc k) below =
    let e : index + 2 * suc k ≡ index + 2 + 2 * k = omega arith in rw e (spec k (omega arith))

SectorResult-step :
    (sector : Bytes) (index : ℕ) (r : Option ℕ)
    → u32_at sector index ≢ 0
    → SectorResult sector (index + 2) r
    → SectorResult sector index r
SectorResult-step sector index none used spec = Used-step sector index 512 used spec
SectorResult-step sector index (some i) used (below, even, free, spec) =
    (below, even ∙ omega arith, free, Used-step sector index i used spec)

find_in_sector_lem :
    (fuel : ℕ) (sector : Bytes) (index : ℕ)
    → index ≤ 513
    → 514 ≤ index + 2 * fuel
    → (r : Option ℕ) × (find_in_sector fuel 2 sector index ≡ ok r) × SectorResult sector index r
unfolding find_in_sector
find_in_sector_lem zero sector index low h = absurd (omega arith)
find_in_sector_lem (suc fuel) sector index low h = elim (Bool-cases (ltb index 512)) [
  | inr past ↦ (none, rw past, λ k below. absurd (omega (arith, ltb→le index 512 past)))
  | inl within ↦ elim (Bool-cases (u32_at sector index == 0)) [
    | inl free ↦ (
      some index,
      rw (within, free),
      (
        ltb→lt index 512 within,
        refl,
        ==→eq (u32_at sector index) 0 free,
        λ k before. absurd (omega arith),
      ),
    )
    | inr used ↦
        let inside = ltb→lt index 512 within in
        let (r, e, spec) = find_in_sector_lem fuel sector (index + 2) (omega arith) (omega arith) in
        (
          r,
          rw (within, used) e,
          SectorResult-step sector index r (==→ne (u32_at sector index) 0 used) spec,
        )
  ]
]

-- What `find_empty_fat_index` may answer, for a search from a position on.
pub record Answer (s : ℕ) (v : Volume) (position n : ℕ) : Type 0 where
  pub free : n ≢ 0 → InFat 2 s n × (entry 2 v n ≡ 0)
  pub skipped :
      (j : ℕ)
      → (n ≡ 0) ⊎ (j < n)
      → InFat 2 s j
      → position ≤ entry_pos 2 j
      → (j - 2) % 256 < 255
      → entry 2 v j ≡ 0
      → entry 2 v (j + 1) ≢ 0

module _ {s : ℕ} {v : Volume} (l : Layout 2 s v) where
  -- One sector of the table, as it is read.
  module _ (sector : Bytes) (position : ℕ) (low : 512 ≤ position) (whole : position % 512 ≡ 0)
      (inside : position < 512 * (1 + s * 2)) where
    abbrev sector' : Bytes
    sector' = read_at v position sector bytes_per_sector

    byte_of : (i j : ℕ) → i < 512 → j ≡ position + i → sector' i ≡ v.bytes j
    byte_of i j h e =
        rw e
          (read_at_inside v position 512 sector i (omega (arith, l.room)) (omega (arith, l.few)) h)

    index_of : ℕ → ℕ
    index_of i = ((position - start_position (sb_of v.bytes)) / 2 + i / 2 + 2) % u32_mod

    index_of_lem : (i : ℕ) → i < 512 → i % 2 ≡ 0 → entry_pos 2 (index_of i) ≡ position + i
    unfolding index_of
    index_of_lem i h even = omega (arith, start_lem l, l.few)

    index_of_bound : (i : ℕ) → i < 512 → i % 2 ≡ 0 → InFat 2 s (index_of i)
    unfolding index_of
    index_of_bound i h even = omega (arith, start_lem l, l.few)

    entry_free : (i : ℕ) → i < 512 → i % 2 ≡ 0 → u32_at sector' i ≡ 0 → entry 2 v (index_of i) ≡ 0
    entry_free i h even zeros =
        rw (entry-u16 v (index_of i), index_of_lem i h even)
          (omega (
            arith,
            byte_of i (position + i) h (omega arith),
            byte_of (i + 1) (position + i + 1) (omega arith) (omega arith),
          ))

    -- Where the scan of this sector has passed, no two entries of it in a row are free.
    no_pair :
        (stop : ℕ)
        → Used sector' 0 stop
        → (j : ℕ) → 2 ≤ j
        → position ≤ entry_pos 2 j
        → entry_pos 2 j < position + stop
        → entry_pos 2 j + 2 < position + 512
        → entry 2 v j ≡ 0
        → entry 2 v (j + 1) ≢ 0
    no_pair stop none_free j two from before below free free' =
        let i : ℕ = entry_pos 2 j - position in
        let k : ℕ = i / 2 in
        let even : 0 + 2 * k ≡ i = omega arith in
        none_free k (omega arith) (
          rw even (
            omega (
              arith,
              l.byte (entry_pos 2 j),
              entry-u16 v j,
              entry-u16 v (j + 1),
              byte_of i (entry_pos 2 j) (omega arith) (omega arith),
              byte_of (i + 1) (entry_pos 2 j + 1) (omega arith) (omega arith),
              byte_of (i + 2) (entry_pos 2 (j + 1)) (omega arith) (omega arith),
              byte_of (i + 3) (entry_pos 2 (j + 1) + 1) (omega arith) (omega arith),
            )))

  -- One round of the outer loop, from what the rest of it gives.
  round :
      (fuel : ℕ) (sector : Bytes) (position : ℕ) (low : 512 ≤ position) (whole : position % 512 ≡ 0)
      (inside : position < 512 * (1 + s * 2)) (r : Option ℕ)
      → find_in_sector 513 2 (sector' sector position low whole inside) 0 ≡ ok r
      → SectorResult (sector' sector position low whole inside) 0 r
      → ((n : ℕ) × (find_in_fat fuel v
              (sb_of v.bytes)
              (sector' sector position low whole inside)
              (position + 512)
            ≡ ok n)
          × Answer s v (position + 512) n)
      → (n : ℕ) × (find_in_fat (suc fuel) v (sb_of v.bytes) sector position ≡ ok n)
        × Answer s v position n
  unfolding find_in_fat index_of
  round fuel sector position low whole inside (some i) e (below, even, zeros, spec) rest =
      let more : ltb position (end_position (sb_of v.bytes)) ≡ true =
        lt→ltb _ _ (omega (arith, end_lem l)) in
      let hit = index_of_bound sector position low whole inside i below even in
      (
        index_of sector position low whole inside i,
        rw (more, l.width, e, l.width),
        record {
          free = λ _. (hit, entry_free sector position low whole inside i below even zeros);
          skipped = λ j before in_fat from last free.
              no_pair sector position low whole inside i spec j in_fat.0 from
                (omega
                  (arith, hit, before, index_of_lem sector position low whole inside i below even))
                (omega
                  (arith, hit, before, index_of_lem sector position low whole inside i below even))
                free;
        },
      )
  round fuel sector position low whole inside none e spec (n, e', answer) =
      let more : ltb position (end_position (sb_of v.bytes)) ≡ true =
        lt→ltb _ _ (omega (arith, end_lem l)) in
      let next : (position + 512) % u32_mod ≡ position + 512 = omega (arith, l.few) in
      (
        n,
        rw (more, l.width, e, next) e',
        record {
          free = answer.free;
          skipped = λ j before in_fat from last free.
              elim (Bool-cases (ltb (entry_pos 2 j) (position + 512))) [
                | inl here ↦
                    no_pair sector position low whole inside 512 spec j in_fat.0 from
                      (ltb→lt (entry_pos 2 j) (position + 512) here)
                      (omega (arith, ltb→lt (entry_pos 2 j) (position + 512) here)) free
                | inr later ↦
                    answer.skipped j before in_fat (ltb→le (entry_pos 2 j) (position + 512) later)
                      last free
              ];
        },
      )

  find_in_fat_lem :
      (fuel : ℕ) (sector : Bytes) (position : ℕ)
      → 512 ≤ position
      → position % 512 ≡ 0
      → position ≤ 512 * (1 + s * 2)
      → 512 * (1 + s * 2) < position + 512 * fuel
      → (n : ℕ) × (find_in_fat fuel v (sb_of v.bytes) sector position ≡ ok n)
        × Answer s v position n
  unfolding find_in_fat
  find_in_fat_lem zero sector position low whole inside h = absurd (omega arith)
  find_in_fat_lem (suc fuel) sector position low whole inside h =
      elim (Bool-cases (ltb position (end_position (sb_of v.bytes)))) [
        | inr done ↦ (
          0,
          rw done,
          record {
            free = λ ne. absurd (ne refl);
            skipped = λ j before in_fat from last free.
                absurd (omega (arith, ltb→le position _ done, end_lem l));
          },
        )
        | inl more ↦
            let within : position < 512 * (1 + s * 2) =
              omega (arith, ltb→lt position _ more, end_lem l) in
            let (r, e, spec) =
              find_in_sector_lem 513 (sector' sector position low whole within) 0 (omega arith)
                (omega arith) in
            round fuel sector position low whole within r e spec (
              find_in_fat_lem fuel (sector' sector position low whole within) (position + 512)
                (omega arith) (omega arith) (omega arith) (omega arith))
      ]

  from_start :
      (fuel : ℕ) (sector : Bytes) (position : ℕ)
      → position ≡ 512
      → 512 * (1 + s * 2) < 512 + 512 * fuel
      → (n : ℕ) × (find_in_fat fuel v (sb_of v.bytes) sector position ≡ ok n) × Answer s v 512 n
  from_start fuel sector position e h =
      rw e (find_in_fat_lem fuel sector 512 (omega arith) (omega arith) (omega arith) h)

-- On a formatted volume with two-byte indices, `find_empty_fat_index` returns, whatever stands on the
-- stack behind its buffer. An answer other than 0 is an entry of the table that reads 0, and no entry
-- before it, or none at all when the answer is 0, is free together with the next one, unless it is the
-- last of its sector.
pub find_empty-Answer :
    (stack : Bytes) (s : ℕ) (v : Volume)
    → Layout 2 s v
    → (n : ℕ) × (find_empty_fat_index stack v ≡ ok n) × Answer s v 512 n
unfolding find_empty_fat_index
find_empty-Answer stack s v l = rw (layout_sb l) (
    from_start l (u32_mod / bytes_per_sector + 1)
      (λ i. if ltb i bytes_per_sector then 0 else stack i) (start_position (sb_of v.bytes))
      (start_lem l) (omega (arith, l.few)))
