-- ===== src/Fat.antt =====
-- fat.c: the table that links the clusters of a file. Entry `index` stands at
-- `fat_sector * bytes_per_sector + fat_index_size * (index - 2)`, in the width of its C type.
pub mod Entries
pub mod RoundTrip
pub mod Width
pub mod Boundary
pub mod Search
use model_lib.Prelude.{
  ℕ, zero, suc, ◌+◌, ◌-◌, ◌*◌, ◌/◌, ◌%◌, ◌^◌, ◌==◌, ltb, if◌then◌else◌, Bool, true, false, Option,
  none, some, Outcome, ok, fault, out_of_fuel, ◌>>=◌,
}
use model_lib.Memory.{Bytes, zeroed, u32_at, bytes_of}
use model_lib.Volume.{Volume, SbInfo, bytes_per_sector, read_sb, read_at, write_at}

abbrev pub u32_mod : ℕ
u32_mod = 2 ^ 32

abbrev pub u128_mod : ℕ
u128_mod = 2 ^ 128

abbrev pub start_position : SbInfo → ℕ
start_position sb = sb.fat_sector * sb.bytes_per_sector % u32_mod

abbrev pub end_position : SbInfo → ℕ
end_position sb =
    (sb.fat_sector + sb.sectors_of_fat * sb.copies_of_fat) % u32_mod * sb.bytes_per_sector % u32_mod

-- `index` is a `u128`. More than four bytes do not fit into `value`.
unfoldable pub read_fat_index : Volume → ℕ → Outcome ℕ
read_fat_index volume index = do
  sb ← read_sb volume
  let index_size = sb.fat_index_size
  let position =
      (start_position sb + index_size * ((index + u128_mod - 2) % u128_mod) % u128_mod) % u128_mod
  if ltb (end_position sb) position
      then ok 0
      else if ltb 4 index_size
      then fault
      else ok (u32_at (read_at volume position zeroed index_size) 0)

-- `index` is a `u32_t`. Always `sizeof(sb.fat_index_size)` bytes, which is two, are written.
unfoldable pub write_in_fat_index : Volume → ℕ → ℕ → Outcome (Bool × Volume)
write_in_fat_index volume index value = do
  sb ← read_sb volume
  let index_size = sb.fat_index_size
  let position = (start_position sb + index_size * ((index + u32_mod - 2) % u32_mod)) % u32_mod
  if ltb (end_position sb) position
      then ok (false, volume)
      else ok (true, write_at volume position (bytes_of value) 2)

-- The inner loop: the offset of the first `u32_t` of the sector that is 0.
unfoldable pub find_in_sector : ℕ → ℕ → Bytes → ℕ → Outcome (Option ℕ)
find_in_sector zero index_size sector index = out_of_fuel
find_in_sector (suc fuel) index_size sector index =
    let rest : Outcome (Option ℕ) = find_in_sector fuel index_size sector (index + index_size) in
    if ltb index bytes_per_sector
    then if u32_at sector index == 0 then ok (some index) else rest
    else ok none

-- The outer loop, which divides by the width of an index where it finds a free one. A sector that is read short keeps the rest of the sector before it.
unfoldable pub find_in_fat : ℕ → Volume → SbInfo → Bytes → ℕ → Outcome ℕ
unfolding find_in_sector
find_in_fat zero volume sb sector position = out_of_fuel
find_in_fat (suc fuel) volume sb sector position =
    let sector' = read_at volume position sector bytes_per_sector in
    let rest : Outcome ℕ =
      find_in_fat fuel volume sb sector' ((position + bytes_per_sector) % u32_mod) in
    if ltb position (end_position sb)
    then (do
      r ← find_in_sector (bytes_per_sector + 1) sb.fat_index_size sector' 0
      elim r [
        | none ↦ rest
        | some index ↦
            if sb.fat_index_size == 0
            then fault
            else ok (
                ((position - start_position sb) / sb.fat_index_size + index / sb.fat_index_size + 2)
                % u32_mod)
      ])
    else ok 0

-- The loop reads past the end of `sector` at its last offsets: `stack` is what stands there.
unfoldable pub find_empty_fat_index : Bytes → Volume → Outcome ℕ
find_empty_fat_index stack volume = do
  sb ← read_sb volume
  let sector : Bytes = λ i. if ltb i bytes_per_sector then 0 else stack i
  find_in_fat (u32_mod / bytes_per_sector + 1) volume sb sector (start_position sb)
