-- ===== src/Sqlite/Dummy.antt =====
-- progs/mdbfs.c: `create_dummy` makes a file of the root directory and writes it whole.
use mathlib.Core.Path.{subst}
use model_lib.Prelude.{
  ℕ, ◌+◌, ◌-◌, ◌*◌, ◌/◌, ◌≤◌, ◌<◌, ◌≡◌, refl, arith, fun_ext, ltb, le→ltb, false, List, [], ◌∷◌,
  some, ok,
}
use model_lib.Memory.{Bytes}
use model_lib.Volume.{Volume}
use model_lib.Fat.{u32_mod}
use model_lib.Entry.Directory.{path_after}
use model_lib.Sqlite.{create_dummy, read_sqlite_file}
use model_lib.Sqlite.Root.{root_route}
use model_lib.Sqlite.Content.{FileAt}
use model_lib.Sqlite.Room.{Room, head, made_volume, growing, created_first}
use model_lib.Sqlite.Inside.{append}
use model_lib.Sqlite.Loop.{Result, write_all-Result}
use model_lib.Sqlite.Read.{read_sqlite_file-FileAt, moved}

module _ {fuel s : ℕ} {v : Volume} {dir name : List ℕ} {k : ℕ} (room : Room fuel s v dir name k)
    (stack garbage : Bytes) (turns : ℕ) (buf : Bytes) (byte : (i : ℕ) → buf i < 256) (len : ℕ)
    (some_bytes : 0 < len) (spare : 2 * (len / 512) + 5 ≤ k) (fits : len + 512 < u32_mod)
    (enough : len / 512 < fuel) (h : len / 512 + 1 < turns) (three : 3 ≤ k) where
  pub create_dummy-Result :
      Result s
        (made_volume room stack three)
        (head room stack three ∷ [])
        name
        dir
        room.slot.0
        room.slot.1
        0
        buf
        buf
        len
        (k - 2)
        (create_dummy stack garbage turns fuel v root_route name buf len 0)
  unfolding create_dummy path_after
  create_dummy-Result =
      let (g, clusters) = growing room stack three buf in
      let r =
        write_all-Result stack garbage fuel room.rounds turns g buf len byte some_bytes
          (omega arith) (omega arith) (omega arith) h in
      rw (created_first room stack three (omega arith)) (rw clusters at r)

all_of : (content buf : Bytes) (i : ℕ) → append content 0 buf i ≡ buf i
all_of content buf i =
    let none_before : ltb i 0 ≡ false = le→ltb i 0 (omega arith) in
    let whole : i - 0 ≡ i = omega arith in rw (none_before, whole) refl

-- A request from offset 0 on is the whole file.
pub whole_file :
    {s : ℕ} {v : Volume} {t dir : List ℕ} {c n : ℕ} {cs : List ℕ} (len : ℕ) (buf : Bytes)
    → FileAt s v t dir c n cs (0 + len) (append buf 0 buf)
    → FileAt s v t dir c n cs len buf
whole_file {s} {v} {t} {dir} {c} {n} {cs} len buf f =
    let number : 0 + len ≡ len = omega arith in
    subst (λ l. FileAt s v t dir c n cs l buf) number
      (subst (FileAt s v t dir c n cs (0 + len)) (fun_ext (all_of buf buf)) f)

-- For a root directory with room for a file (a formatted volume with two-byte indices; entries with short
-- names that end, of which one is free; a name that fits into its field, of no file there), and bytes to
-- write, of which there is at least one: `create_dummy` makes the file and returns, and then the file
-- holds exactly these bytes. It takes two free entries of the table in a row for each cluster of
-- them, and three more; more rounds of the loop than clusters, and more rounds of a walk than the file or
-- the directory has clusters; lengths of 32 bits.
pub create_dummy-FileAt :
    (stack garbage : Bytes) (turns fuel s : ℕ) (v : Volume) (dir name : List ℕ) (k : ℕ)
    (buf : Bytes) (len : ℕ)
    → (room : Room fuel s v dir name k) → ((i : ℕ) → buf i < 256)
    → 0 < len
    → 2 * (len / 512) + 5 ≤ k
    → len + 512 < u32_mod
    → len / 512 < fuel
    → len / 512 + 1 < turns
    → (v' : Volume) × (cs : List ℕ) × (create_dummy stack garbage turns fuel v root_route name buf
          len 0
        ≡ ok v')
      × FileAt s v' name dir room.slot.0 room.slot.1 cs len buf
create_dummy-FileAt stack garbage turns fuel s v dir name k buf len room byte some_bytes spare fits
      enough h =
    let r =
      create_dummy-Result room stack garbage turns buf byte len some_bytes spare fits enough h
        (omega (arith, spare)) in
    (r.volume, r.clusters, r.returned, whole_file len buf r.file)

-- For the same directory and bytes, and a request whose offset is inside the file and whose end fits into
-- 32 bits: `create_dummy` returns, and on the volume that it leaves `read_sqlite_file` reads the bytes that
-- were to be written, from the offset on: the least of what is asked for, what is left of the
-- file, and what is left of the cluster.
pub create_dummy-read_sqlite_file :
    (stack garbage : Bytes) (turns fuel s : ℕ) (v : Volume) (dir name : List ℕ) (k : ℕ)
    (buf out : Bytes) (len count offset : ℕ)
    → Room fuel s v dir name k
    → ((i : ℕ) → buf i < 256)
    → 0 < len
    → 2 * (len / 512) + 5 ≤ k
    → len + 512 < u32_mod
    → len / 512 < fuel
    → len / 512 + 1 < turns
    → offset < len
    → offset + count < u32_mod
    → (v' : Volume) × (out' : Bytes) × (create_dummy stack garbage turns fuel v root_route name buf
          len 0
        ≡ ok v')
      × (read_sqlite_file garbage fuel v' root_route name (some out) count offset
          ≡ ok (some (moved len count offset, out')))
      × ((i : ℕ) → i < moved len count offset → out' i ≡ buf (offset + i))
create_dummy-read_sqlite_file stack garbage turns fuel s v dir name k buf out len count offset room
      byte some_bytes spare fits enough h inside small =
    let (v', cs, e, file) =
      create_dummy-FileAt stack garbage turns fuel s v dir name k buf len room byte some_bytes spare
        fits enough h in
    let (out', e', same) =
      read_sqlite_file-FileAt garbage out fuel s v' name dir room.slot.0 room.slot.1 cs len buf
        count offset file room.rounds (omega arith) inside (omega arith) small in
    (v', out', e, e', same)
