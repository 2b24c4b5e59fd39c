-- ===== src/Tests/Table.antt =====
-- The theorems on the table at small volumes.
use model_lib.Prelude.{ℕ, ◌≡◌, refl, true, arith, ok}
use model_lib.Memory.{zeroed}
use model_lib.Volume.{Volume, read_sb}
use model_lib.Fat.{read_fat_index, write_in_fat_index, find_empty_fat_index}
use model_lib.Fat.RoundTrip.{Updated, read-write}
use model_lib.Fat.Search.{Answer, find_empty-Answer}
use model_lib.Fat.Width.{one_byte_clobbers, four_bytes_keep_high}
use model_lib.Tests.Disk.{disk, disk-Layout}

read-write_example :
    (v' : Volume) × (write_in_fat_index (disk 2) 3 0xffff ≡ ok (true, v'))
    × Updated 1 (disk 2) 3 0xffff v'
read-write_example =
    read-write 1 (disk 2) 3 0xffff (disk-Layout 2 (omega arith)) (omega arith) (omega arith)

find_empty-Answer_example :
    (n : ℕ) × (find_empty_fat_index zeroed (disk 2) ≡ ok n) × Answer 1 (disk 2) 512 n
find_empty-Answer_example = find_empty-Answer zeroed 1 (disk 2) (disk-Layout 2 (omega arith))

one_byte_clobbers_example :
    (v' : Volume) × (write_in_fat_index (disk 1) 5 0xff ≡ ok (true, v'))
    × (read_fat_index v' 5 ≡ ok 0xff)
    × (read_fat_index v' 6 ≡ ok 0)
one_byte_clobbers_example =
    one_byte_clobbers 1 (disk 1) 5 0xff (disk-Layout 1 (omega arith)) (omega arith) (omega arith)

free_entry : read_fat_index (disk 4) 3 ≡ ok 0
unfolding read_fat_index read_sb
free_entry = refl

four_bytes_keep_high_example :
    (v' : Volume) × (write_in_fat_index (disk 4) 3 0xffff_ffff ≡ ok (true, v'))
    × (read_fat_index v' 3 ≡ ok 0xffff)
four_bytes_keep_high_example =
    four_bytes_keep_high 1 (disk 4) 3 0xffff_ffff 0 (disk-Layout 4 (omega arith)) (omega arith)
      free_entry
