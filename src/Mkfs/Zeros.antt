-- ===== src/Mkfs/Zeros.antt =====
-- progs/mkfs.c: `make_data_cluster` fills a new file with zeros.
use model_lib.Prelude.{
  ℕ, zero, suc, ◌+◌, ◌*◌, ◌/◌, ◌%◌, ◌≤◌, ◌<◌, ◌≡◌, arith, max, ok, ltb, leb, le→ltb, true, false,
  fun_ext,
}
use model_lib.Memory.{zeroed, copy_to}
use model_lib.Volume.{Volume, write_volume, max_pos}
use model_lib.Fat.{u32_mod}
use model_lib.Mkfs.{write_zeros, make_data_cluster, new_file}

-- A file of zeros that stands at its end.
abbrev pub zeros : ℕ → Volume
zeros n = record { bytes = zeroed; size = n; f_pos = n }

copy_zeros : (at n : ℕ) → copy_to zeroed at zeroed n ≡ zeroed
unfolding copy_to
copy_zeros at n = fun_ext λ i. ground arith

write_zeros_one : (n : ℕ) → n + 512 ≤ max_pos → write_volume (zeros n) zeroed 512 ≡ zeros (n + 512)
unfolding write_volume
write_zeros_one n h =
    let fits : ltb max_pos (n + 512) ≡ false = le→ltb _ _ h in
    let longer : max n (n + 512) ≡ n + 512 = omega arith in rw (fits, copy_zeros n 512, longer)

write_zeros_lem :
    (left fuel n count i : ℕ)
    → count + 1 ≡ i + left
    → left < fuel
    → count + 1 < u32_mod
    → n ≤ 512 * i
    → write_zeros fuel (zeros n) 512 count i ≡ ok (zeros (n + 512 * left))
unfolding write_zeros
write_zeros_lem left zero n count i e h few p = absurd (omega arith)
write_zeros_lem zero (suc fuel) n count i e h few p =
    let done : leb i count ≡ false = ground arith in
    let all : n + 0 ≡ n = omega arith in rw (write_zeros, done, all)
write_zeros_lem (suc left) (suc fuel) n count i e h few p =
    let more : leb i count ≡ true = ground arith in
    let next : (i + 1) % u32_mod ≡ i + 1 = omega arith in
    let all : n + 512 + 512 * left ≡ n + 512 * suc left = omega arith in
    rw (write_zeros, more, write_zeros_one n (omega arith), next, ← all)
      (write_zeros_lem left fuel (n + 512) count (i + 1) (omega arith) (omega arith) few
        (omega arith))

pub fresh_clusters :
    (fuel volume_size : ℕ)
    → volume_size / 512 + 1 < u32_mod
    → volume_size / 512 < fuel
    → make_data_cluster fuel new_file volume_size 512 ≡ ok (zeros (512 * (volume_size / 512)))
unfolding make_data_cluster
fresh_clusters fuel volume_size few h =
    let all : 0 + 512 * (volume_size / 512) ≡ 512 * (volume_size / 512) = omega arith in
    rw (← all) (
      write_zeros_lem (volume_size / 512) fuel 0 (volume_size / 512) 1 (omega arith) h few
        (omega arith))
