-- ===== src/Sqlite/Session/Run.antt =====
-- sqliteio.c, progs/mdbfs.c: what sequences of calls keep.
use mathlib.Core.Path.{subst}
use model_lib.Prelude.{
  ℕ, ◌+◌, ◌-◌, ◌*◌, ◌/◌, ◌%◌, ◌≤◌, ◌<◌, ◌≡◌, ◌⊎◌, inl, inr, sym, ◌∙◌, arith, List, some, Option, ok,
  Outcome, length, min,
}
use model_lib.Memory.{Bytes}
use model_lib.Memory.Strings.{IsName}
use model_lib.Volume.{Volume}
use model_lib.Fat.{u32_mod}
use model_lib.Entry.Walk.Spare.{Spare-part}
use model_lib.Entry.Directory.Find.{find_file}
use model_lib.Entry.Directory.Free.{free_slot}
use model_lib.Sqlite.{create_dummy, write_sqlite_file, read_sqlite_file}
use model_lib.Sqlite.Root.{root_route}
use model_lib.Sqlite.Inside.{append}
use model_lib.Sqlite.Growth.{Tight, write-Appended}
use model_lib.Sqlite.Room.{Room, kept_by_create}
use model_lib.Sqlite.Read.{moved, read_sqlite_file-FileAt}
use model_lib.Sqlite.Dummy.{create_dummy-Result, whole_file}
use model_lib.Sqlite.Session.{Store, Stored, put, Step, create, write, Steps, none_yet, then}
use model_lib.Sqlite.Session.Kept.{Stored-put, Disjoint-sym}

ok_same : {A : Type 0} {a b : A} → ◌≡◌ {A = Outcome A} (ok a) (ok b) → a ≡ b
ok_same e = cc

some_pair :
    {a b : ℕ} {v w : Volume}
    → ◌≡◌ {A = Option ℕ × Volume} (some a, v) (some b, w)
    → ◌≡◌ {A = ℕ × Volume} (a, v) (b, w)
some_pair e = cc

module _ {s fuel : ℕ} {dir : List ℕ} {st : Store} {v : Volume} (now : Stored s dir st v)
    (rounds : length dir < fuel) where
  abbrev pub room_for :
      (name : List ℕ) (last : ℕ) (slot : ℕ × ℕ)
      → IsName name
      → length name < 24
      → find_file s v name dir ≡ inr last
      → free_slot s v dir ≡ inl slot
      → Room fuel s v dir name st.left
  room_for name last slot text short new_name free_entry = record {
    layout = now.layout;
    root = now.root;
    tidy = now.tidy;
    rounds = rounds;
    slot = slot;
    free_entry = free_entry;
    last = last;
    new_name = new_name;
    text = text;
    short = short;
    first_spare = now.first_spare;
    spare = now.spare;
  }

  -- A new file, written whole.
  pub created :
      (turns : ℕ) {name : List ℕ} (room : Room fuel s v dir name st.left)
      (stack garbage buf : Bytes) (len : ℕ)
      → ((i : ℕ) → buf i < 256)
      → 0 < len
      → 2 * (len / 512) + 5 ≤ st.left
      → len + 512 < u32_mod
      → len / 512 < fuel
      → len / 512 + 1 < turns
      → (v' : Volume) × (create_dummy stack garbage turns fuel v root_route name buf len 0 ≡ ok v')
        × Stored s dir (put st name (len, buf) (st.left - (2 * (len / 512) + 4))) v'
  created turns {name} room stack garbage buf len byte some_bytes spare fits enough h =
      let three : 3 ≤ st.left = omega (arith, spare) in
      let r =
        create_dummy-Result room stack garbage turns buf byte len some_bytes spare fits enough h
          three in
      (
        r.volume,
        r.returned,
        Stored-put now name r.clusters (len, buf)
            (record {
              cluster = room.slot.0;
              slot = room.slot.1;
              at = whole_file len buf r.file;
              some_cluster = r.some_cluster;
              no_more = omega (arith, r.no_more);
            })
            r.next (st.left - (2 * (len / 512) + 4))
            (Spare-part (st.left - (2 * (len / 512) + 4)) r.spare (omega (arith, r.taken)))
            (λ u f e other.
              let at = now.stands u f e in
              let (g, apart) = kept_by_create room stack three at.at other in
              let (g', apart') =
                r.keeps.others u at.cluster at.slot (now.clusters u) f.0 f.1 g other apart in
              (
                record {
                  cluster = at.cluster;
                  slot = at.slot;
                  at = g';
                  some_cluster = at.some_cluster;
                  no_more = at.no_more;
                },
                apart',
              )),
      )

  -- More bytes behind those of a file.
  pub written :
      (stack garbage : Bytes) (name : List ℕ) (buf : Bytes) (len more : ℕ) (content : Bytes)
      → st.files name ≡ some (len, content)
      → ((i : ℕ) → buf i < 256)
      → 0 < more
      → (len % 512 + more ≤ 512) ⊎ (len % 512 ≡ 0)
      → 3 ≤ st.left
      → len + 512 < u32_mod
      → len / 512 < fuel
      → (v' : Volume) × (write_sqlite_file stack garbage fuel v root_route name (some buf) more len
          ≡ ok (some (min more (512 - len % 512)), v'))
        × Stored s dir
            (put st name (len + min more (512 - len % 512), append content len buf) (st.left - 2))
            v'
  written stack garbage name buf len more content there byte some_bytes allowed three fits enough =
      let at = now.stands name (len, content) there in
      let tight : Tight s v name dir at.cluster at.slot (now.clusters name) len content
          now.first_spare st.left =
        record {
          file = at.at;
          some_cluster = at.some_cluster;
          no_more = at.no_more;
          spare = now.spare;
        } in
      let a =
        write-Appended tight stack garbage fuel rounds buf byte three fits enough more some_bytes
          allowed in
      (
        a.volume,
        a.returned,
        Stored-put now name a.grown.clusters
            (len + min more (512 - len % 512), append content len buf)
            (record {
              cluster = at.cluster;
              slot = at.slot;
              at = a.grown.tight.file;
              some_cluster = a.grown.tight.some_cluster;
              no_more = a.grown.tight.no_more;
            })
            (now.first_spare + 2) (st.left - 2) a.grown.tight.spare
            (λ u f e other.
              let own = now.stands u f e in
              let (g, apart) =
                a.keeps.others u own.cluster own.slot (now.clusters u) f.0 f.1 own.at other (
                  Disjoint-sym (now.clusters u) (now.clusters name)
                    (now.apart u name f (len, content) e there other)) in
              (
                record {
                  cluster = own.cluster;
                  slot = own.slot;
                  at = g;
                  some_cluster = own.some_cluster;
                  no_more = own.no_more;
                },
                apart,
              )),
      )

-- A call on a volume that holds a store leaves one that holds the store that the call means.
pub Step-Stored :
    (turns fuel s : ℕ) (dir : List ℕ) (st st' : Store) (v v' : Volume)
    → Stored s dir st v
    → length dir < fuel
    → Step turns fuel s dir st v st' v'
    → Stored s dir st' v'
Step-Stored turns fuel s dir st st' v v' now rounds
      (create stack garbage name buf len last slot text short new_name free_entry byte some_bytes
        spare fits enough h e) =
    let (w, e', stored) =
      created now rounds turns (room_for now rounds name last slot text short new_name free_entry)
        stack garbage buf len byte some_bytes spare fits enough h in
    subst (Stored s dir (put st name (len, buf) (st.left - (2 * (len / 512) + 4))))
      (ok_same (sym e' ∙ e)) stored
Step-Stored turns fuel s dir st st' v v' now rounds
      (write stack garbage name buf len more count content there byte some_bytes allowed three fits
        enough e) =
    let (w, e', stored) =
      written now rounds stack garbage name buf len more content there byte some_bytes allowed three
        fits enough in
    subst
      (λ (p : ℕ × Volume).
        Stored s dir (put st name (len + p.0, append content len buf) (st.left - 2)) p.1)
      (some_pair (ok_same (sym e' ∙ e))) stored

-- For a volume that holds a store, and more rounds than its root directory has clusters: behind any
-- sequence of calls (each one that makes a file of a new name in the root directory and writes it whole, or
-- one that writes behind the last byte of a file, up to the end of a cluster, with as many free entries of
-- the table as it takes), the volume holds the store that the calls mean: each file's bytes, and no cluster
-- in two files.
pub Steps-Stored :
    (turns fuel s : ℕ) (dir : List ℕ) (st : Store) (v : Volume) (st' : Store) (v' : Volume)
    → Stored s dir st v
    → length dir < fuel
    → Steps turns fuel s dir st v st' v'
    → Stored s dir st' v'
Steps-Stored turns fuel s dir st v st' v' now rounds none_yet = now
Steps-Stored turns fuel s dir st v st' v' now rounds (then {st' = st1} {v' = v1} before step) =
    Step-Stored turns fuel s dir st1 st' v1 v'
      (Steps-Stored turns fuel s dir st v st1 v1 now rounds before) rounds step

-- Under the conditions of `Steps-Stored`, where the store behind the calls has a file, and for a request at an offset
-- inside it, with lengths of 32 bits and more rounds than the file has clusters before the offset:
-- `read_sqlite_file` returns the least of what is asked for, what is left of the file, and what is left of
-- the cluster, and that many of the bytes that the store has, from the offset on.
pub Steps-read_sqlite_file :
    (turns fuel s : ℕ) (dir : List ℕ) (st : Store) (v : Volume) (st' : Store) (v' : Volume)
    (garbage out : Bytes) (name : List ℕ) (len : ℕ) (content : Bytes) (count offset : ℕ)
    → Stored s dir st v
    → length dir < fuel
    → Steps turns fuel s dir st v st' v'
    → st'.files name ≡ some (len, content)
    → offset / 512 < fuel
    → offset < len
    → len < u32_mod
    → offset + count < u32_mod
    → (out' : Bytes) × (read_sqlite_file garbage fuel v' root_route name (some out) count offset
        ≡ ok (some (moved len count offset, out')))
      × ((i : ℕ) → i < moved len count offset → out' i ≡ content (offset + i))
Steps-read_sqlite_file turns fuel s dir st v st' v' garbage out name len content count offset now
      rounds calls there enough inside small fits =
    let behind = Steps-Stored turns fuel s dir st v st' v' now rounds calls in
    let at = behind.stands name (len, content) there in
    read_sqlite_file-FileAt garbage out fuel s v' name dir at.cluster at.slot (behind.clusters name)
      len content count offset at.at rounds enough inside small fits

-- Under the conditions of `Steps-Stored`, a file can be made behind the calls: where a new name fits into its field, the
-- root directory has a free entry, and the store has the two free entries of the table for each cluster of
-- the bytes to write and three more, `create_dummy` returns, and the sequence goes on with it.
pub Steps-create_dummy :
    (turns fuel s : ℕ) (dir : List ℕ) (st : Store) (v : Volume) (st' : Store) (v' : Volume)
    (stack garbage : Bytes) (name : List ℕ) (buf : Bytes) (len last : ℕ) (slot : ℕ × ℕ)
    → Stored s dir st v
    → length dir < fuel
    → Steps turns fuel s dir st v st' v'
    → IsName name
    → length name < 24
    → find_file s v' name dir ≡ inr last
    → free_slot s v' dir ≡ inl slot
    → ((i : ℕ) → buf i < 256)
    → 0 < len
    → 2 * (len / 512) + 5 ≤ st'.left
    → len + 512 < u32_mod
    → len / 512 < fuel
    → len / 512 + 1 < turns
    → (v'' : Volume) × (create_dummy stack garbage turns fuel v' root_route name buf len 0 ≡ ok v'')
      × Steps turns fuel s dir st v (put st' name (len, buf) (st'.left - (2 * (len / 512) + 4))) v''
Steps-create_dummy turns fuel s dir st v st' v' stack garbage name buf len last slot now rounds
      calls text short new_name free_entry byte some_bytes spare fits enough h =
    let behind = Steps-Stored turns fuel s dir st v st' v' now rounds calls in
    let (w, e, stored) =
      created behind rounds turns
        (room_for behind rounds name last slot text short new_name free_entry) stack garbage buf len
        byte some_bytes spare fits enough h in
    (
      w,
      e,
      then calls (
          create stack garbage name buf len last slot text short new_name free_entry byte some_bytes
            spare fits enough h e),
    )
