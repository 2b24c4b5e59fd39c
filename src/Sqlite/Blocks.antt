-- ===== src/Sqlite/Blocks.antt =====
-- progs/mdbfs.c: the loop that writes a file of the root directory, cluster by cluster.
use model_lib.Prelude.{
  ℕ, suc, ◌+◌, ◌-◌, ◌*◌, ◌/◌, ◌%◌, ◌≤◌, ◌<◌, ◌==◌, ◌≡◌, inl, inr, refl, sym, ◌∙◌, ap, arith, List,
  [], ◌∷◌, ◌++◌, some, ok, length, length-append, Bool-cases, ==→eq, ==→ne, min,
}
use model_lib.Memory.{Bytes}
use model_lib.Volume.{Volume}
use model_lib.Fat.{u32_mod}
use model_lib.Entry.Walk.Spare.{Spare, find_empty-Taken, Spare-less, Spare-extended}
use model_lib.Entry.Walk.Extend.{extended}
use model_lib.File.{valid_len_of}
use model_lib.File.Append.{nth-last, nth-snoc}
use model_lib.File.Seek.{nth}
use model_lib.Sqlite.{write_sqlite_file}
use model_lib.Sqlite.Root.{root_route}
use model_lib.Sqlite.Content.{FileAt, FileAt-extended, is_y, ends}
use model_lib.Sqlite.Append.{write_sqlite_file-first, write_sqlite_file-extended}
use model_lib.Sqlite.Inside as Inside
use model_lib.Sqlite.Keeps.{Keeps, Keeps-same, Keeps-then, Keeps-extended, Keeps-behind}
use model_lib.Sqlite.Inside.{append}

-- What is written of a request at the start of a cluster.
part_of : (more : ℕ) → valid_len_of more 0 ≡ min more 512
unfolding valid_len_of
part_of more = ground arith

-- A file of `q` whole clusters of bytes that has `q` or `q + 1` clusters, at least one, and free entries
-- of the table for more.
pub record Growing (s : ℕ) (v : Volume) (t dir : List ℕ) (c n q : ℕ) (content : Bytes) (m k : ℕ)
    : Type 0 where
  pub clusters : List ℕ
  pub file : FileAt s v t dir c n clusters (512 * q) content
  pub some_cluster : 1 ≤ length clusters
  pub no_more : length clusters ≤ q + 1
  pub spare : Spare s v m k

-- The file has a cluster for the next bytes.
pub record Open (s : ℕ) (v : Volume) (t dir : List ℕ) (c n q : ℕ) (content : Bytes) (m k : ℕ)
    : Type 0 where
  pub clusters : List ℕ
  pub file : FileAt s v t dir c n clusters (512 * q) content
  pub last : ℕ
  pub at : nth clusters q ≡ some last
  pub one_more : length clusters ≡ q + 1
  pub spare : Spare s v m k

module _ {s : ℕ} {t dir : List ℕ} {c n : ℕ} (stack garbage : Bytes) (fuel : ℕ)
    (rounds : length dir < fuel) where
  -- Where the file has no room, the call takes a cluster first.
  opened :
      {v : Volume} {q : ℕ} {content : Bytes} {m k : ℕ} (g : Growing s v t dir c n q content m k)
      (buf : Bytes) (len : ℕ)
      → 3 ≤ k
      → 0 < len
      → 512 * q + 512 < u32_mod
      → q < fuel
      → (v' : Volume) × (write_sqlite_file stack garbage fuel v root_route t
            (some buf)
            len
            (512 * q)
          ≡ write_sqlite_file stack garbage fuel v' root_route t (some buf) len (512 * q))
        × (o : Open s v' t dir c n q content (m + 2) (k - 2)) × Keeps s v v' t dir g.clusters
            o.clusters
  opened {v} {q} {content} {m} {k} g buf len three some_bytes fits enough =
      elim (Bool-cases (length g.clusters == q)) [
        | inr room ↦
            let one_more : length g.clusters ≡ q + 1 =
              omega (arith, ==→ne _ q room, g.no_more, g.file.covered) in
            let (y, at) = nth-last g.clusters q (omega (arith, one_more)) in
            (
              v,
              refl,
              record {
                clusters = g.clusters;
                file = g.file;
                last = y;
                at = at;
                one_more = one_more;
                spare = Spare-less g.file.layout g.spare (omega arith);
              },
              Keeps-same s v t dir g.clusters,
            )
        | inl full ↦
            let no_room : length g.clusters ≡ q = ==→eq _ q full in
            let whole : length g.clusters ≡ suc (q - 1) = omega (arith, g.some_cluster) in
            let (y, at) = nth-last g.clusters (q - 1) whole in
            let (x, taken) = find_empty-Taken g.file.layout g.spare three stack in
            let small : x < 65536 = omega (arith, taken.small) in
            (
              extended v y x,
              write_sqlite_file-extended g.file stack garbage fuel rounds buf len (q - 1) y x at
                  whole taken.cluster taken.free small taken.found (omega (arith, whole)) some_bytes
                  fits (omega (arith, whole)),
              record {
                clusters = g.clusters ++ x ∷ [];
                file = FileAt-extended g.file (q - 1) y x at whole taken.cluster taken.free small;
                last = x;
                at = ap (nth (g.clusters ++ x ∷ [])) (sym no_room) ∙ nth-snoc g.clusters x;
                one_more = omega (arith, length-append g.clusters (x ∷ []));
                spare =
                    Spare-extended g.file.layout g.spare (omega arith) y x
                      (is_y g.file (q - 1) y x at whole taken.cluster taken.free small).in_fat
                      taken.cluster.in_fat
                      (ends g.file (q - 1) y x at whole taken.cluster taken.free small) taken.low;
              },
              Keeps-extended g.file (q - 1) y x at whole taken.cluster taken.free small,
            )
      ]

  -- One call writes what fits into the next cluster.
  pub block :
      {v : Volume} {q : ℕ} {content : Bytes} {m k : ℕ} (g : Growing s v t dir c n q content m k)
      (buf : Bytes) (len : ℕ)
      → ((i : ℕ) → buf i < 256)
      → 3 ≤ k
      → 0 < len
      → 512 * q + 512 < u32_mod
      → q < fuel
      → (v' : Volume) × (cs : List ℕ) × (write_sqlite_file stack garbage fuel v root_route t
            (some buf)
            len
            (512 * q)
          ≡ ok (some (min len 512), v'))
        × FileAt s v' t dir c n cs (512 * q + min len 512) (append content (512 * q) buf)
        × (length cs ≡ q + 1)
        × Spare s v' (m + 2) (k - 2)
        × Keeps s v v' t dir g.clusters cs
  block {q} {content} g buf len byte three some_bytes fits enough =
      let (v0, same, o, kept) = opened g buf len three some_bytes fits enough in
      let part : ℕ = min len 512 in
      let start : 512 * q % 512 ≡ 0 = omega arith in
      let number : 512 * q / 512 ≡ q = omega arith in
      let at : nth o.clusters (512 * q / 512) ≡ some o.last = rw number o.at in
      let enough' : 512 * q / 512 < fuel = omega arith in
      let inside : 512 * q % 512 + part ≤ 512 = omega arith in
      let first_part : valid_len_of len (512 * q % 512) ≡ part = rw start (part_of len) in
      let whole : valid_len_of part (512 * q % 512) ≡ part =
        rw start (part_of part ∙ omega arith) in
      (
        Inside.behind o.file fuel part o.last buf byte rounds at enough' (omega arith) inside fits,
        o.clusters,
        same
            ∙ write_sqlite_file-first o.file stack garbage fuel rounds buf len part (512 * q)
                (omega arith) (omega arith) (omega arith) first_part whole
            ∙ Inside.write_sqlite_file-behind o.file fuel part o.last buf byte rounds at enough'
                (omega arith) inside fits stack garbage,
        Inside.FileAt-behind o.file fuel part o.last buf byte rounds at enough' (omega arith) inside
            fits,
        o.one_more,
        Inside.Spare-behind o.file fuel part o.last buf byte rounds at enough' (omega arith) inside
            fits o.spare,
        Keeps-then kept (
            Keeps-behind o.file fuel part o.last buf byte rounds at enough' (omega arith) inside
              fits),
      )
