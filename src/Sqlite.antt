-- ===== src/Sqlite.antt =====
-- sqliteio.c: the calls that SQLite's file layer makes, and the loop of progs/mdbfs.c that writes one
-- file by them.
pub mod Root
pub mod RoundTrip
pub mod Content
pub mod Append
pub mod Inside
pub mod Blocks
pub mod Loop
pub mod Read
pub mod Apart
pub mod Keeps
pub mod Beside
pub mod Growth
pub mod Room
pub mod Dummy
pub mod Session
pub mod Fresh
use model_lib.Prelude.{
  ℕ, zero, suc, ◌+◌, ◌-◌, ◌%◌, ◌^◌, ◌==◌, true, false, List, Option, none, some, Outcome, ok,
  out_of_fuel, ◌>>=◌,
}
use model_lib.Memory.{Bytes, from}
use model_lib.Volume.{Volume}
use model_lib.Fat.{u32_mod}
use model_lib.Entry.Dirent.{Dirent}
use model_lib.Entry.Directory.{get_cluster_number, get_dentry, alloc_new_entry, path_after}
use model_lib.File.{read_file, write_file, create}
use model_lib.Dir.{DentryType, lookup}

abbrev pub lookup_sqlite_file : ℕ → Volume → List ℕ → List ℕ → Outcome (Option DentryType)
lookup_sqlite_file = lookup

unfoldable pub create_sqlite_file : Bytes → ℕ → Volume → (route file_name : List ℕ) → Outcome Volume
create_sqlite_file stack fuel volume route file_name = do
  (_, volume) ← create stack fuel volume route file_name
  ok volume

-- The search puts NULs into the text of the route, which `create_sqlite_file` is given then.
unfoldable pub open_sqlite_file : Bytes → ℕ → Volume → (route file_name : List ℕ) → Outcome Volume
unfolding create_sqlite_file
open_sqlite_file stack fuel volume route file_name = do
  dentry_type ← lookup_sqlite_file fuel volume route file_name
  elim dentry_type [
    | some _ ↦ ok volume
    | none ↦ create_sqlite_file stack fuel volume (path_after route) file_name
  ]

-- `struct mfs_dirent dentry;` holds what stands on the stack where there is no such file.
abbrev pub or_garbage : (garbage : Dirent) → Option Dirent → Dirent
or_garbage garbage none = garbage
or_garbage garbage (some d) = d

-- `none` is -1, the result for a buffer that is NULL. `len` is an `int` that is not negative.
unfoldable pub write_sqlite_file :
    Bytes
    → (garbage : Dirent) → ℕ
    → Volume
    → (route file_name : List ℕ) → Option Bytes
    → (len offset : ℕ) → Outcome (Option ℕ × Volume)
write_sqlite_file stack garbage fuel volume route file_name none len offset = ok (none, volume)
write_sqlite_file stack garbage fuel volume route file_name (some buff) len offset = do
  cluster_number ← get_cluster_number fuel volume route
  d ← get_dentry fuel volume cluster_number file_name
  w ← write_file stack fuel volume (or_garbage garbage d) buff len (offset % u32_mod)
  (_, volume) ← alloc_new_entry fuel w.volume cluster_number file_name w.dentry
  ok (some w.count, volume)

-- The count, and the buffer.
unfoldable pub read_sqlite_file :
    (garbage : Dirent)
    → ℕ
    → Volume
    → (route file_name : List ℕ) → Option Bytes
    → (len offset : ℕ) → Outcome (Option (ℕ × Bytes))
read_sqlite_file garbage fuel volume route file_name none len offset = ok none
read_sqlite_file garbage fuel volume route file_name (some buff) len offset = do
  cluster_number ← get_cluster_number fuel volume route
  d ← get_dentry fuel volume cluster_number file_name
  r ← read_file fuel volume (or_garbage garbage d) buff len (offset % u32_mod)
  ok (some r)

-- `while(len > 0)`. The text of the route is what the call before left of it.
unfoldable pub write_all :
    Bytes
    → (garbage : Dirent) → (rounds fuel : ℕ) → Volume
    → (route file_name : List ℕ) → Bytes
    → (len offset : ℕ) → Outcome Volume
unfolding write_sqlite_file
write_all stack garbage zero fuel volume route file_name buff len offset = out_of_fuel
write_all stack garbage (suc rounds) fuel volume route file_name buff len offset = elim (len == 0) [
  | true ↦ ok volume
  | false ↦
      write_sqlite_file stack garbage fuel volume route file_name (some buff) len offset >>= λ r.
      elim r.0 [
        | none ↦ ok r.1
        | some n_write ↦ elim (n_write == 0) [
          | true ↦ ok r.1
          | false ↦
              write_all stack garbage rounds fuel r.1 (path_after route) file_name
                (from buff n_write) (len - n_write) ((offset + n_write) % 2 ^ 64)
        ]
      ]
]

-- `write_file` returns no more than `len`, so that `len` does not fall below 0.
unfoldable pub create_dummy :
    Bytes
    → (garbage : Dirent) → (rounds fuel : ℕ) → Volume
    → (route file_name : List ℕ) → Bytes
    → (len offset : ℕ) → Outcome Volume
unfolding create_sqlite_file write_all
create_dummy stack garbage rounds fuel volume route file_name buff len offset = do
  volume ← create_sqlite_file stack fuel volume route file_name
  write_all stack garbage rounds fuel volume (path_after route) file_name buff len offset
