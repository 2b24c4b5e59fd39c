-- ===== src/Sqlite/Append.antt =====
-- sqliteio.c: `write_sqlite_file` behind the last byte of a file of the root directory.
use mathlib.Core.Path.{subst}
use model_lib.Prelude.{
  ℕ, suc, ◌+◌, ◌*◌, ◌%◌, ◌≤◌, ◌<◌, ◌≡◌, refl, sym, ◌∙◌, ap, arith, List, some, ok, length, Outcome,
  ◌>>=◌, Option,
}
use model_lib.Memory.{Bytes}
use model_lib.Volume.{Volume}
use model_lib.Fat.{u32_mod, find_empty_fat_index}
use model_lib.Fat.Entries.{entry}
use model_lib.Entry.Dirent.{entry_in}
use model_lib.Entry.Walk.Chain.{IsCluster}
use model_lib.Entry.Walk.Claim.{contents}
use model_lib.Entry.Walk.Extend.{extended, contents-extended}
use model_lib.Entry.Directory.Find.{get_dentry-find_file}
use model_lib.Entry.Directory.{alloc_new_entry}
use model_lib.File.{Written, valid_len_of, write_file}
use model_lib.File.Append.{write_file-first, write_file-extended}
use model_lib.File.Seek.{nth}
use model_lib.Sqlite.{write_sqlite_file}
use model_lib.Sqlite.Root.{root_route, get_cluster_number_root}
use model_lib.Sqlite.Content.{FileAt, FileAt-extended, is_y, ends}

-- What `write_sqlite_file` does behind `write_file`.
abbrev record_entry : ℕ → List ℕ → Outcome Written → Outcome (Option ℕ × Volume)
record_entry fuel t written =
    written >>= λ w. alloc_new_entry fuel w.volume 2 t w.dentry >>= λ r. ok (some w.count, r.1)

-- The work on a file of the root directory behind the search of its entry.
write_found :
    {s : ℕ} {v : Volume} {t dir : List ℕ} {c n : ℕ} {cs : List ℕ} {len : ℕ} {content : Bytes}
    (f : FileAt s v t dir c n cs len content) (stack garbage : Bytes) (fuel : ℕ) (buf : Bytes)
    (m offset : ℕ)
    → length dir < fuel
    → offset < u32_mod
    → write_sqlite_file stack garbage fuel v root_route t (some buf) m offset
      ≡ record_entry fuel t (write_file stack fuel v (entry_in (contents s v c) n) buf m offset)
unfolding write_sqlite_file
write_found {s} {v} {t} {dir} f stack garbage fuel buf m offset rounds small =
    let wrapped : offset % u32_mod ≡ offset = omega arith in
    rw
      (
        get_cluster_number_root fuel s v f.layout (omega arith),
        get_dentry-find_file fuel s v 2 dir t f.layout f.root f.tidy rounds,
        f.there,
        wrapped,
      )
      refl

module _ {s : ℕ} {v : Volume} {t dir : List ℕ} {c n : ℕ} {cs : List ℕ} {len : ℕ} {content : Bytes}
    (f : FileAt s v t dir c n cs len content) (stack garbage : Bytes) (fuel : ℕ)
    (rounds : length dir < fuel) where
  -- A longer request at the start of a cluster writes the part that fits into the cluster.
  pub write_sqlite_file-first :
      (buf : Bytes) (more m offset : ℕ)
      → 0 < m
      → m ≤ more
      → offset < u32_mod
      → valid_len_of more (offset % 512) ≡ m
      → valid_len_of m (offset % 512) ≡ m
      → write_sqlite_file stack garbage fuel v root_route t (some buf) more offset
        ≡ write_sqlite_file stack garbage fuel v root_route t (some buf) m offset
  write_sqlite_file-first buf more m offset some_bytes no_more small part whole =
      write_found f stack garbage fuel buf more offset rounds small
      ∙ ap (record_entry fuel t) (
          write_file-first stack fuel v (entry_in (contents s v c) n) buf more m offset some_bytes
            no_more part whole)
      ∙ sym (write_found f stack garbage fuel buf m offset rounds small)

  -- Behind the last byte of a file whose clusters are full, it does as on the volume where the file has
  -- a free cluster more already.
  pub write_sqlite_file-extended :
      (buf : Bytes) (m k y x : ℕ) (at : nth cs k ≡ some y) (whole : length cs ≡ suc k)
      (is : IsCluster s v x) (free : entry 2 v x ≡ 0) (small : x < 65536)
      → find_empty_fat_index stack v ≡ ok x
      → len ≡ 512 * suc k
      → 0 < m
      → len + 512 < u32_mod
      → suc k < fuel
      → write_sqlite_file stack garbage fuel v root_route t (some buf) m len
        ≡ write_sqlite_file stack garbage fuel (extended v y x) root_route t (some buf) m len
  write_sqlite_file-extended buf m k y x at whole is free small found full some_bytes fits enough =
      let f0 = FileAt-extended f k y x at whole is free small in
      let same : contents s (extended v y x) ≡ contents s v =
        contents-extended f.layout y x (is_y f k y x at whole is free small).in_fat is
          (ends f k y x at whole is free small) free small in
      let written : write_file stack fuel v (entry_in (contents s v c) n) buf m len
          ≡ write_file stack fuel (extended v y x) (entry_in (contents s (extended v y x) c) n) buf
              m len =
        subst
          (λ o.
            write_file stack fuel v (entry_in (contents s v c) n) buf m o
            ≡ write_file stack fuel (extended v y x) (entry_in (contents s v c) n) buf m o)
          (sym full)
          (write_file-extended f.layout stack x found is free small k fuel
            (entry_in (contents s v c) n) buf m y cs f.chain at whole some_bytes
            (omega (arith, full)) enough)
        ∙ ap
            (λ (u : ℕ → Bytes). write_file stack fuel (extended v y x) (entry_in (u c) n) buf m len)
            (sym same) in
      write_found f stack garbage fuel buf m len rounds (omega arith)
      ∙ ap (record_entry fuel t) written
      ∙ sym (write_found f0 stack garbage fuel buf m len rounds (omega arith))
