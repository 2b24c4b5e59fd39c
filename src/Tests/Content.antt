-- ===== src/Tests/Content.antt =====
-- The theorems on the contents of files at a small volume.
use model_lib.Prelude.{
  ℕ, ◌+◌, ◌*◌, ◌/◌, ◌%◌, ◌<◌, ◌==◌, ◌≡◌, refl, true, arith, ok, some, [], ◌∷◌, if◌then◌else◌,
}
use model_lib.Memory.{Bytes, zeroed}
use model_lib.Volume.{Volume}
use model_lib.Fat.{write_in_fat_index}
use model_lib.Fat.Boundary.{write_in_fat_index-behind}
use model_lib.Entry.Dirent.{Dirent, head_cluster_number}
use model_lib.Entry.Walk.Chain.{Chain, stop, link}
use model_lib.File.{Written, read_file, write_file}
use model_lib.File.Seek.{nth}
use model_lib.File.RoundTrip.{write_file-read_file}
use model_lib.Tests.Disk.{disk, disk-Layout}

-- A file of 10 bytes in cluster 2.
abbrev ten_bytes : Dirent
ten_bytes i = if i == 29 then 2 else if i == 33 then 10 else 0

abbrev sevens : Bytes
sevens i = 7

one_cluster : Chain 1 (disk 2) (head_cluster_number ten_bytes) (2 ∷ [])
one_cluster =
    link
      (record { in_fat = (omega arith, omega arith); in_file = omega arith; not_end = omega arith })
      (stop refl)

first_cluster : nth (2 ∷ []) (10 / 512) ≡ some 2
unfolding nth
first_cluster = refl

write_file-read_file_example :
    (w : Written) × (out' : Bytes) × (write_file zeroed 1 (disk 2) ten_bytes sevens 3 10 ≡ ok w)
    × (w.count ≡ 3)
    × (read_file 1 w.volume w.dentry zeroed 3 10 ≡ ok (3, out'))
    × ((i : ℕ) → i < 3 → out' i ≡ sevens i)
write_file-read_file_example =
    write_file-read_file zeroed 1 1 (disk 2) ten_bytes (2 ∷ []) 2 3 10 sevens zeroed
      (disk-Layout 2 (omega arith)) one_cluster first_cluster (omega arith) (omega arith)
      (omega arith) (omega arith) (omega arith) (omega arith) (λ i. omega arith)

write_in_fat_index-behind_example :
    (v' : Volume) × (write_in_fat_index (disk 2) (2 + 512 * 1) 0xffff ≡ ok (true, v'))
    × (v'.bytes (512 * (1 + 1 * 2)) ≡ 0xffff % 256)
    × (v'.bytes (512 * (1 + 1 * 2) + 1) ≡ 0xffff / 256 % 256)
write_in_fat_index-behind_example =
    write_in_fat_index-behind 1 (disk 2) 0xffff (disk-Layout 2 (omega arith))
