-- ===== src/Tests/Routes.antt =====
-- The theorem on routes that lead nowhere at a small volume.
use model_lib.Prelude.{ℕ, ◌+◌, ◌≡◌, refl, arith, ok, out_of_fuel, List, [], ◌∷◌}
use model_lib.Volume.{get_end_cluster}
use model_lib.Util.{strtok_r}
use model_lib.Fat.{read_fat_index}
use model_lib.Entry.Walk.{read_cluster, scan_entries}
use model_lib.Entry.Directory.{get_cluster_number}
use model_lib.Dir.{lookup}
use model_lib.Dir.Missing.{lookup-endless}
use model_lib.Tests.Disk.{wide_disk, wide_disk-Layout, wide_free}

-- "/x", in an empty root directory
abbrev route : List ℕ
route = b'/' ∷ b'x' ∷ []

nowhere : get_cluster_number 3 wide_disk route ≡ ok 0
unfolding get_cluster_number get_end_cluster read_cluster strtok_r scan_entries read_fat_index
nowhere = refl

lookup-endless_example : lookup 3 wide_disk route (b'f' ∷ []) ≡ out_of_fuel
lookup-endless_example =
    lookup-endless 3 2 wide_disk route (b'f' ∷ []) wide_disk-Layout (omega arith) refl
      (λ i h. wide_free (1536 + i) (omega arith)) nowhere
