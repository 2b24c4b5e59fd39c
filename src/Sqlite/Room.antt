-- ===== src/Sqlite/Room.antt =====
-- sqliteio.c: a root directory with room for a new file, and the file, empty, behind `create_sqlite_file`.
use mathlib.Core.List.{Memᴰ}
use mathlib.Core.Path.{subst}
use model_lib.Prelude.{
  same_string, ◌≢◌, ℕ, ◌+◌, ◌-◌, ◌*◌, ◌≤◌, ◌<◌, ◌≡◌, inl, inr, refl, sym, ◌∙◌, arith, false, List,
  [], ◌∷◌, ok, length,
}
use model_lib.Memory.{Bytes}
use model_lib.Memory.Strings.{IsName, c_string-same}
use model_lib.Volume.{Volume}
use model_lib.Volume.Layout.{Layout}
use model_lib.Entry.Dirent.{Dirent, entry_in, head_cluster_number}
use model_lib.Entry.Made.{
  made_byte, made_file, made_long, made, made_name, made_head, made_size, head_same, size_same,
}
use model_lib.Entry.Walk.Clusters.{cluster_pos}
use model_lib.Entry.Walk.Chain.{Chain}
use model_lib.Entry.Walk.Claim.{contents, not_in}
use model_lib.Entry.Walk.Slots.{All}
use model_lib.Entry.Walk.Spare.{Spare, find_empty-Taken, Taken, Spare-claimed, Spare-write_at}
use model_lib.Entry.Directory.Find.{TidyAt, find_file}
use model_lib.Entry.Directory.Free.{free_slot}
use model_lib.Entry.Directory.Slot.{Chain-IsCluster}
use model_lib.File.Create as Create
use model_lib.Entry.Directory.New as New
use model_lib.Entry.Directory.New.{Ready, Holds}
use model_lib.Sqlite.{create_sqlite_file}
use model_lib.Sqlite.Root.{root_route, get_cluster_number_root}
use model_lib.Sqlite.Content.{FileAt}
use model_lib.Sqlite.Beside.{FileAt-put, FileAt-claimed}
use model_lib.Sqlite.Keeps.{Disjoint}
use model_lib.Sqlite.Blocks.{Growing}

-- A root directory that has room for a file of a new name, and `k` free entries in a row in the table.
pub record Room (fuel s : ℕ) (v : Volume) (dir name : List ℕ) (k : ℕ) : Type 0 where
  pub layout : Layout 2 s v
  pub root : Chain s v 2 dir
  pub tidy : All (TidyAt s v) dir
  pub rounds : length dir < fuel
  pub slot : ℕ × ℕ
  pub free_entry : free_slot s v dir ≡ inl slot
  pub last : ℕ
  pub new_name : find_file s v name dir ≡ inr last
  pub text : IsName name
  pub short : length name < 24
  pub first_spare : ℕ
  pub spare : Spare s v first_spare k

module _ {fuel s : ℕ} {v : Volume} {dir name : List ℕ} {k : ℕ} (room : Room fuel s v dir name k)
    (stack : Bytes) (three : 3 ≤ k) where
  pub found : (x : ℕ) × Taken stack s v room.first_spare x
  found = find_empty-Taken room.layout room.spare three stack

  abbrev pub head : ℕ
  head = found.0

  pub ready : Ready stack fuel s v 2 dir name room.slot.0 room.slot.1 head
  ready = record {
    layout = room.layout;
    chain = room.root;
    tidy = room.tidy;
    rounds = room.rounds;
    free_entry = room.free_entry;
    free_cluster = found.1.found;
    cluster = found.1.cluster;
    text = room.text;
    short = room.short;
  }

  abbrev pub made_volume : Volume
  made_volume = Create.created ready

  holds : Holds s made_volume 2 dir room.slot.0 room.slot.1 head (made 1 name head)
  holds = Create.created-Holds ready

  abbrev own_entry : Dirent
  own_entry = entry_in (contents s made_volume room.slot.0) room.slot.1

  own_head : head_cluster_number own_entry ≡ head
  own_head =
      head_same (made 1 name head) own_entry holds.entry_bytes
      ∙ made_head 1 name head (omega (arith, found.1.small))

  -- The new file is empty.
  new_file :
      (content : Bytes)
      → FileAt s made_volume name dir room.slot.0 room.slot.1 (head ∷ []) 0 content
  new_file content = record {
    layout = holds.layout;
    root = holds.chain;
    tidy = holds.tidy;
    there = Create.created_there ready room.last room.new_name;
    short_name =
        c_string-same 24 (made 1 name head) own_entry 5 5
          (λ i h. holds.entry_bytes (5 + i) (omega arith))
        ∙ made_name 1 name head room.text room.short;
    chain = subst (λ x. Chain s made_volume x (head ∷ [])) (sym own_head) holds.own_chain;
    size_is = size_same (made 1 name head) own_entry holds.entry_bytes ∙ made_size 1 name head;
    apart = apart;
    covered = omega arith;
    holds = λ i x h. absurd (omega (arith, h));
  }
    where
      apart : (x : ℕ) → Memᴰ x dir → Memᴰ x (head ∷ []) → ⊥
      apart x in_dir (Memᴰ.head e) =
          not_in room.layout head found.1.cluster found.1.free room.root x in_dir e
      apart x in_dir (Memᴰ.tail m) = elim m [ ]

  new-Spare : Spare s made_volume (room.first_spare + 2) (k - 2)
  new-Spare =
      let sp =
        Spare-claimed room.layout room.spare (omega arith) head found.1.cluster.in_fat
          found.1.low in
      let slot = New.slot_of ready 1 (Create.plain_file ready) in
      let is = Chain-IsCluster room.root room.slot.0 slot.0 in
      Spare-write_at (New.layout1 ready) (cluster_pos s room.slot.0 + room.slot.1 * 64) 64
        (made 1 name head) (omega arith) (omega arith)
        (omega (arith, is.in_fat, room.layout.few, slot.1)) sp

  pub growing :
      (content : Bytes)
      → (g : Growing s made_volume name dir room.slot.0 room.slot.1 0 content
          (room.first_spare + 2)
          (k - 2))
        × (g.clusters ≡ head ∷ [])
  growing content =
      let g : Growing s made_volume name dir room.slot.0 room.slot.1 0 content
          (room.first_spare + 2) (k - 2) =
        record {
          clusters = head ∷ [];
          file = new_file content;
          some_cluster = omega arith;
          no_more = omega arith;
          spare = new-Spare;
        } in
      (g, refl)

  pub created_first : 0 < fuel → create_sqlite_file stack fuel v root_route name ≡ ok made_volume
  unfolding create_sqlite_file
  created_first h =
      rw (Create.create-claimed ready root_route (get_cluster_number_root fuel s v room.layout h))
        refl

  -- Another file of the directory, on the volume with the new file.
  pub kept_by_create :
      {u : List ℕ} {c n : ℕ} {own : List ℕ} {len : ℕ} {content : Bytes}
      → FileAt s v u dir c n own len content
      → same_string u name ≡ false
      → FileAt s made_volume u dir c n own len content × Disjoint (head ∷ []) own
  kept_by_create {own} g other =
      let slot = New.slot_of ready 1 (Create.plain_file ready) in
      let head_free = not_in room.layout head found.1.cluster found.1.free g.chain in
      (
        FileAt-put (FileAt-claimed g head found.1.cluster found.1.free) slot.0 slot.1 slot.2
            (made 1 name head) (made_byte 1 name head room.text) (made_file name head)
            (made_long 1 name head room.text room.short) other,
        apart_from own head_free,
      )
    where
      apart_from : (own : List ℕ) → ((x : ℕ) → Memᴰ x own → x ≢ head) → Disjoint (head ∷ []) own
      apart_from own away z (Memᴰ.head e) in_own = away z in_own e
      apart_from own away z (Memᴰ.tail m) in_own = elim m [ ]
