-- ===== src/Sqlite/Session.antt =====
-- sqliteio.c, progs/mdbfs.c: the root directory as a store of named files, and sequences of calls.
pub mod Kept
pub mod Run
use mathlib.Core.List.{Memᴰ}
use model_lib.Prelude.{
  Option, none, ℕ, ◌+◌, ◌-◌, ◌*◌, ◌/◌, ◌%◌, ◌≤◌, ◌<◌, ◌≡◌, ◌⊎◌, inl, inr, refl, arith, true, false,
  List, some, ok, length, same_string, min,
}
use model_lib.Memory.{Bytes}
use model_lib.Memory.Strings.{IsName}
use model_lib.Volume.{Volume}
use model_lib.Volume.Layout.{Layout}
use model_lib.Fat.{u32_mod}
use model_lib.Entry.Walk.Chain.{Chain}
use model_lib.Entry.Walk.Slots.{All}
use model_lib.Entry.Walk.Spare.{Spare}
use model_lib.Entry.Directory.Find.{TidyAt, find_file}
use model_lib.Entry.Directory.Free.{free_slot}
use model_lib.Sqlite.{create_dummy, write_sqlite_file}
use model_lib.Sqlite.Root.{root_route}
use model_lib.Sqlite.Content.{FileAt}
use model_lib.Sqlite.Inside.{append}
use model_lib.Sqlite.Keeps.{Disjoint}

-- A file's length and bytes.
abbrev pub Content : Type 0
Content = ℕ × Bytes

-- The abstract store: what each name holds, and how many free entries in a row the table has.
pub record Store : Type 0 where
  pub files : List ℕ → Option Content
  pub left : ℕ

-- No file, and `k` free entries.
abbrev pub no_files : ℕ → Store
no_files k = record { files = λ u. none; left = k }

-- The store with one file new or changed.
abbrev pub put : Store → List ℕ → Content → ℕ → Store
put st name file left = record {
  files = λ u. elim (same_string u name) [ true ↦ some file | false ↦ st.files u ];
  left = left;
}

-- Where a file of the store stands.
pub record Stands (s : ℕ) (v : Volume) (dir u own : List ℕ) (file : Content) : Type 0 where
  pub cluster : ℕ
  pub slot : ℕ
  pub at : FileAt s v u dir cluster slot own file.0 file.1
  pub some_cluster : 1 ≤ length own
  pub no_more : length own ≤ file.0 / 512 + 1

-- The volume `v`, whose root directory has the clusters `dir`, holds the store.
pub record Stored (s : ℕ) (dir : List ℕ) (st : Store) (v : Volume) : Type 0 where
  pub layout : Layout 2 s v
  pub root : Chain s v 2 dir
  pub tidy : All (TidyAt s v) dir
  pub first_spare : ℕ
  pub spare : Spare s v first_spare st.left
  pub clusters : List ℕ → List ℕ
  pub stands :
      (u : List ℕ) (file : Content) → st.files u ≡ some file → Stands s v dir u (clusters u) file
  pub apart :
      (u w : List ℕ) (file file' : Content)
      → st.files u ≡ some file
      → st.files w ≡ some file'
      → same_string u w ≡ false
      → Disjoint (clusters u) (clusters w)

-- One call on the volume, and what it means for the store: a new file is written whole, or bytes are
-- written behind those of a file, up to the end of a cluster.
pub data Step (turns fuel s : ℕ) (dir : List ℕ) : Store → Volume → Store → Volume → Type 0 where
  create :
      {st : Store} {v v' : Volume} (stack garbage : Bytes) (name : List ℕ) (buf : Bytes)
      (len last : ℕ) (slot : ℕ × ℕ)
      → IsName name
      → length name < 24
      → find_file s v name dir ≡ inr last
      → free_slot s v dir ≡ inl slot
      → ((i : ℕ) → buf i < 256)
      → 0 < len
      → 2 * (len / 512) + 5 ≤ st.left
      → len + 512 < u32_mod
      → len / 512 < fuel
      → len / 512 + 1 < turns
      → create_dummy stack garbage turns fuel v root_route name buf len 0 ≡ ok v'
      → Step turns fuel s dir st v (put st name (len, buf) (st.left - (2 * (len / 512) + 4))) v'
  write :
      {st : Store} {v v' : Volume} (stack garbage : Bytes) (name : List ℕ) (buf : Bytes)
      (len more written : ℕ) (content : Bytes)
      → st.files name ≡ some (len, content)
      → ((i : ℕ) → buf i < 256)
      → 0 < more
      → (len % 512 + more ≤ 512) ⊎ (len % 512 ≡ 0)
      → 3 ≤ st.left
      → len + 512 < u32_mod
      → len / 512 < fuel
      → write_sqlite_file stack garbage fuel v root_route name (some buf) more len
        ≡ ok (some written, v')
      → Step turns fuel s dir st v
          (put st name (len + written, append content len buf) (st.left - 2))
          v'

-- A sequence of calls.
pub data Steps (turns fuel s : ℕ) (dir : List ℕ) (st : Store) (v : Volume)
    : Store → Volume → Type 0 where
  none_yet : Steps turns fuel s dir st v st v
  then :
      {st' st'' : Store} {v' v'' : Volume}
      → Steps turns fuel s dir st v st' v'
      → Step turns fuel s dir st' v' st'' v''
      → Steps turns fuel s dir st v st'' v''
