-- ===== src/Fat/Boundary.antt =====
-- fat.c: the test against the end of the table lets one entry too many through.
use model_lib.Prelude.{
  ℕ, ◌+◌, ◌-◌, ◌*◌, ◌/◌, ◌%◌, ◌≡◌, refl, ◌∙◌, arith, ltb, le→ltb, true, false, ok,
}
use model_lib.Memory.{bytes_of}
use model_lib.Memory.Laws.{copy_to_in}
use model_lib.Volume.{Volume, write_at, sb_of}
use model_lib.Volume.Layout.{Layout, layout_sb, write_at_lem}
use model_lib.Fat.{u32_mod, start_position, end_position, write_in_fat_index}
use model_lib.Fat.Entries.{start_lem, end_lem}

module _ {s : ℕ} {v : Volume} (l : Layout 2 s v) where
  behind_position :
      (start_position (sb_of v.bytes) + 2 * ((2 + 512 * s + u32_mod - 2) % u32_mod)) % u32_mod
      ≡ 512 * (1 + s * 2)
  behind_position =
      let e : (2 + 512 * s + u32_mod - 2) % u32_mod ≡ 512 * s = omega (arith, l.few) in
      rw e (omega (arith, start_lem l, l.few))

-- On a formatted volume with two-byte indices and `s` sectors to a copy of the table, a write to the
-- entry behind the last one of the two copies succeeds, and puts the value over the first two bytes of
-- the root directory.
pub write_in_fat_index-behind :
    (s : ℕ) (v : Volume) (value : ℕ)
    → Layout 2 s v
    → (v' : Volume) × (write_in_fat_index v (2 + 512 * s) value ≡ ok (true, v'))
      × (v'.bytes (512 * (1 + s * 2)) ≡ value % 256)
      × (v'.bytes (512 * (1 + s * 2) + 1) ≡ value / 256 % 256)
unfolding write_in_fat_index
write_in_fat_index-behind s v value l =
    let root = 512 * (1 + s * 2) in
    let through : ltb (end_position (sb_of v.bytes)) root ≡ false =
      le→ltb _ _ (omega (arith, end_lem l)) in
    let place = write_at_lem v root 2 (bytes_of value) (omega arith) (omega (arith, l.few)) in
    (
      write_at v root (bytes_of value) 2,
      rw (layout_sb l, l.width, behind_position l, through) refl,
      rw place (
          copy_to_in v.bytes root (bytes_of value) 2 root 0 (omega arith) (omega arith)
          ∙ omega arith),
      rw place (
          copy_to_in v.bytes root (bytes_of value) 2 (root + 1) 1 (omega arith) (omega arith)
          ∙ omega arith),
    )
