-- ===== src/File/Lengths.antt =====
-- file.c: how many bytes one call of `read_file` or `write_file` moves.
use model_lib.Prelude.{ℕ, ◌+◌, ◌-◌, ◌%◌, ◌≤◌, ◌<◌, ◌≡◌, arith, min, ◌⊎◌, ◌↔◌}
use model_lib.Fat.{u32_mod}
use model_lib.File.{clip_len, local_len_of, valid_len_of}

-- For a request at an offset up to the end of the file, whose end `offset + len` and file size fit into 32
-- bits, `read_file` moves the least of: what is asked for, what is left of the file, and what is left of
-- the cluster.
pub local_len-min :
    (file_size len offset : ℕ)
    → offset ≤ file_size
    → file_size < u32_mod
    → offset + len < u32_mod
    → local_len_of (clip_len file_size len offset) (offset % 512)
      ≡ min (min len (file_size - offset)) (512 - offset % 512)
unfolding local_len_of clip_len
local_len-min file_size len offset h small fits = ground arith

-- For a request that is not empty, `write_file` moves no more bytes than it is given and than the
-- cluster has from the offset on, exactly if the request ends inside the cluster, or begins at its
-- start and is no shorter than a cluster.
pub valid_len-fits_iff :
    (len cluster_offset : ℕ)
    → 0 < len
    → cluster_offset < 512
    → ((valid_len_of len cluster_offset ≤ len)
        × (cluster_offset + valid_len_of len cluster_offset ≤ 512))
      ↔ ((cluster_offset + len ≤ 512) ⊎ (cluster_offset ≡ 0))
unfolding valid_len_of
valid_len-fits_iff len cluster_offset h k = (λ a. ground arith, λ b. ground arith)
