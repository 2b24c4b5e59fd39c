-- ===== src/Sqlite/Growth.antt =====
-- sqliteio.c: a write behind the last byte keeps what a file of the root directory is.
use mathlib.Core.Path.{subst}
use model_lib.Prelude.{
  Outcome, Option, same_string, false, ℕ, suc, ◌+◌, ◌-◌, ◌*◌, ◌/◌, ◌%◌, ◌≤◌, ◌<◌, ◌==◌, ◌≡◌, ◌⊎◌,
  inl, inr, sym, arith, List, some, ok, length, min, Bool-cases, ==→eq, ==→ne,
}
use model_lib.Memory.{Bytes}
use model_lib.Volume.{Volume}
use model_lib.Fat.{u32_mod}
use model_lib.Entry.Walk.Spare.{Spare, Spare-less}
use model_lib.File.Append.{nth-last}
use model_lib.Sqlite.{write_sqlite_file}
use model_lib.Sqlite.Root.{root_route}
use model_lib.Sqlite.Content.{FileAt}
use model_lib.Sqlite.Inside as Inside
use model_lib.Sqlite.Inside.{append}
use model_lib.Sqlite.Keeps.{Keeps, Disjoint, Keeps-behind}
use model_lib.Sqlite.Blocks.{Growing, block}

-- A file of the root directory without clusters to spare, and `k` free entries in a row in the table.
pub record Tight (s : ℕ) (v : Volume) (t dir : List ℕ) (c n : ℕ) (cs : List ℕ) (len : ℕ)
    (content : Bytes) (m k : ℕ) : Type 0 where
  pub file : FileAt s v t dir c n cs len content
  pub some_cluster : 1 ≤ length cs
  pub no_more : length cs ≤ len / 512 + 1
  pub spare : Spare s v m k

-- The volume behind a write of `count` bytes at the end of the file.
pub record Grown (s : ℕ) (v : Volume) (t dir : List ℕ) (c n len : ℕ) (content buf : Bytes)
    (count m k : ℕ) : Type 0 where
  pub clusters : List ℕ
  pub tight : Tight s v t dir c n clusters (len + count) (append content len buf) m k

module _ {s : ℕ} {v : Volume} {t dir : List ℕ} {c n : ℕ} {cs : List ℕ} {len : ℕ} {content : Bytes}
    {m k : ℕ} (f : Tight s v t dir c n cs len content m k) (stack garbage : Bytes) (fuel : ℕ)
    (rounds : length dir < fuel) (buf : Bytes) (byte : (i : ℕ) → buf i < 256) (three : 3 ≤ k)
    (fits : len + 512 < u32_mod) (enough : len / 512 < fuel) where
  -- How the call ends that writes `count` bytes.
  pub record Appended (count : ℕ) (r : Outcome (Option ℕ × Volume)) : Type 0 where
    pub volume : Volume
    pub returned : r ≡ ok (some count, volume)
    pub grown : Grown s volume t dir c n len content buf count (m + 2) (k - 2)
    pub keeps : Keeps s v volume t dir cs grown.clusters

  in_last :
      (count : ℕ)
      → 0 < count
      → len % 512 + count ≤ 512
      → length cs ≡ suc (len / 512)
      → Appended count (write_sqlite_file stack garbage fuel v root_route t (some buf) count len)
  in_last count some_bytes inside whole =
      let (x, at) = nth-last cs (len / 512) whole in
      let file =
        Inside.FileAt-behind f.file fuel count x buf byte rounds at enough some_bytes inside fits in
      record {
        volume = Inside.behind f.file fuel count x buf byte rounds at enough some_bytes inside fits;
        returned =
            Inside.write_sqlite_file-behind f.file fuel count x buf byte rounds at enough some_bytes
              inside fits stack garbage;
        grown = record {
          clusters = cs;
          tight = record {
            file = file;
            some_cluster = f.some_cluster;
            no_more = omega (arith, f.no_more);
            spare =
                Spare-less file.layout
                  (Inside.Spare-behind f.file fuel count x buf byte rounds at enough some_bytes
                    inside fits f.spare)
                  (omega arith);
          };
        };
        keeps = Keeps-behind f.file fuel count x buf byte rounds at enough some_bytes inside fits;
      }

  -- At the end of whole clusters.
  at_start :
      (more q : ℕ)
      → 0 < more
      → len ≡ 512 * q
      → Appended
          (min more 512)
          (write_sqlite_file stack garbage fuel v root_route t (some buf) more len)
  at_start more q some_bytes e =
      let g : Growing s v t dir c n q content m k = record {
        clusters = cs;
        file = subst (λ l. FileAt s v t dir c n cs l content) e f.file;
        some_cluster = f.some_cluster;
        no_more = omega (arith, f.no_more);
        spare = f.spare;
      } in
      let (v', cs', e', file, size, spare, kept) =
        block stack garbage fuel rounds g buf more byte three some_bytes (omega arith)
          (omega arith) in
      record {
        volume = v';
        returned =
            subst
              (λ o.
                write_sqlite_file stack garbage fuel v root_route t (some buf) more o
                ≡ ok (some (min more 512), v'))
              (sym e) e';
        grown = record {
          clusters = cs';
          tight = record {
            file =
                subst (λ o. FileAt s v' t dir c n cs' (o + min more 512) (append content o buf))
                  (sym e) file;
            some_cluster = omega (arith, size);
            no_more = omega (arith, size);
            spare = spare;
          };
        };
        keeps = kept;
      }

  pub write-Appended :
      (more : ℕ)
      → 0 < more
      → (len % 512 + more ≤ 512) ⊎ (len % 512 ≡ 0)
      → Appended
          (min more (512 - len % 512))
          (write_sqlite_file stack garbage fuel v root_route t (some buf) more len)
  write-Appended more some_bytes allowed = elim (Bool-cases (len % 512 == 0)) [
    | inl start ↦
        let aligned = ==→eq (len % 512) 0 start in
        let part : min more 512 ≡ min more (512 - len % 512) = omega arith in
        subst
          (λ count.
            Appended count
              (write_sqlite_file stack garbage fuel v root_route t (some buf) more len))
          part (at_start more (len / 512) some_bytes (omega arith))
    | inr middle ↦
        let inside_cluster = ==→ne (len % 512) 0 middle in
        let part : more ≡ min more (512 - len % 512) = omega (arith, allowed, inside_cluster) in
        subst
          (λ count.
            Appended count
              (write_sqlite_file stack garbage fuel v root_route t (some buf) more len))
          part
          (in_last more some_bytes (omega (arith, part))
            (omega (arith, f.file.covered, f.no_more, inside_cluster)))
  ]

-- For a file of the root directory that has no cluster to spare (on a formatted volume with two-byte
-- indices, entries with short names that end, and three free entries in a row in the table), and a
-- request behind its last byte that is not empty, and that ends inside the cluster or begins a new
-- one: `write_sqlite_file` says that it wrote the least of what is asked for and what is left of
-- the cluster, and leaves a volume on which the same entry is the file's, with these bytes behind its
-- own, no cluster to spare, and as many free entries in a row but two. Lengths fit into 32 bits; there
-- are more rounds than the directory and the file have clusters.
pub write_sqlite_file-Grown :
    (stack garbage : Bytes) (fuel s : ℕ) (v : Volume) (t dir : List ℕ) (c n : ℕ) (cs : List ℕ)
    (len : ℕ) (content : Bytes) (m k : ℕ) (buf : Bytes) (more : ℕ)
    → Tight s v t dir c n cs len content m k
    → length dir < fuel
    → ((i : ℕ) → buf i < 256)
    → 3 ≤ k
    → len + 512 < u32_mod
    → len / 512 < fuel
    → 0 < more
    → (len % 512 + more ≤ 512) ⊎ (len % 512 ≡ 0)
    → (v' : Volume) × (write_sqlite_file stack garbage fuel v root_route t (some buf) more len
        ≡ ok (some (min more (512 - len % 512)), v'))
      × Grown s v' t dir c n len content buf (min more (512 - len % 512)) (m + 2) (k - 2)
write_sqlite_file-Grown stack garbage fuel s v t dir c n cs len content m k buf more f rounds byte
      three fits enough some_bytes allowed =
    let a =
      write-Appended f stack garbage fuel rounds buf byte three fits enough more some_bytes
        allowed in
    (a.volume, a.returned, a.grown)

-- Under the conditions of `write_sqlite_file-Grown`, for another file of the root directory, which shares no cluster with the
-- first: behind the write its entry is where it was, with the same clusters, the same length and the same
-- bytes.
pub write_sqlite_file-others :
    (stack garbage : Bytes) (fuel s : ℕ) (v : Volume) (t dir : List ℕ) (c n : ℕ) (cs : List ℕ)
    (len : ℕ) (content : Bytes) (m k : ℕ) (buf : Bytes) (more : ℕ) (u : List ℕ) (c2 n2 : ℕ)
    (own : List ℕ) (len2 : ℕ) (content2 : Bytes)
    → Tight s v t dir c n cs len content m k
    → length dir < fuel
    → ((i : ℕ) → buf i < 256)
    → 3 ≤ k
    → len + 512 < u32_mod
    → len / 512 < fuel
    → 0 < more
    → (len % 512 + more ≤ 512) ⊎ (len % 512 ≡ 0)
    → FileAt s v u dir c2 n2 own len2 content2
    → same_string u t ≡ false
    → Disjoint cs own
    → (v' : Volume) × (write_sqlite_file stack garbage fuel v root_route t (some buf) more len
        ≡ ok (some (min more (512 - len % 512)), v'))
      × FileAt s v' u dir c2 n2 own len2 content2
write_sqlite_file-others stack garbage fuel s v t dir c n cs len content m k buf more u c2 n2 own
      len2 content2 f rounds byte three fits enough some_bytes allowed g other apart =
    let a =
      write-Appended f stack garbage fuel rounds buf byte three fits enough more some_bytes
        allowed in
    (a.volume, a.returned, (a.keeps.others u c2 n2 own len2 content2 g other apart).0)
