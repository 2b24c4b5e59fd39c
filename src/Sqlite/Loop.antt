-- ===== src/Sqlite/Loop.antt =====
-- progs/mdbfs.c: the loop writes the whole of what it is given.
use mathlib.Core.Path.{subst}
use model_lib.Prelude.{
  ℕ, zero, suc, ◌+◌, ◌-◌, ◌*◌, ◌/◌, ◌%◌, ◌^◌, ◌≤◌, ◌<◌, ◌==◌, ◌≡◌, inl, inr, refl, sym, ◌∙◌, arith,
  fun_ext, ltb, List, some, ok, length, Outcome, Bool-cases, ltb→lt, ltb→le, le→ltb, true, false,
  min, eq→==, ne→==,
}
use model_lib.Memory.{Bytes, from}
use model_lib.Volume.{Volume}
use model_lib.Fat.{u32_mod}
use model_lib.Entry.Walk.Spare.{Spare}
use model_lib.Entry.Directory.{path_after}
use model_lib.Sqlite.{write_sqlite_file, write_all}
use model_lib.Sqlite.Root.{root_route}
use model_lib.Sqlite.Content.{FileAt}
use model_lib.Sqlite.Keeps.{Keeps, Keeps-then}
use model_lib.Sqlite.Blocks.{Growing, block}
use model_lib.Sqlite.Inside.{append}

-- One round of the loop.
write_all-next :
    (stack garbage : Bytes) (rounds fuel : ℕ) (v v' : Volume) (t : List ℕ) (buf : Bytes)
    (len offset n : ℕ)
    → 0 < len
    → 0 < n
    → offset + n < u32_mod
    → write_sqlite_file stack garbage fuel v root_route t (some buf) len offset ≡ ok (some n, v')
    → write_all stack garbage (suc rounds) fuel v root_route t buf len offset
      ≡ write_all stack garbage rounds fuel v' root_route t (from buf n) (len - n) (offset + n)
unfolding write_all path_after
write_all-next stack garbage rounds fuel v v' t buf len offset n some_bytes some_written fits e =
    let more : (len == 0) ≡ false = ne→== len 0 (omega arith) in
    let more' : (n == 0) ≡ false = ne→== n 0 (omega arith) in
    let small : (offset + n) % 2 ^ 64 ≡ offset + n = omega arith in
    let last : ◌≡◌ {A = Outcome Volume}
        (elim (n == 0) [
          | true ↦ ok v'
          | false ↦
              write_all stack garbage rounds fuel v' (path_after root_route) t (from buf n)
                (len - n) ((offset + n) % 2 ^ 64)
        ])
        (write_all stack garbage rounds fuel v' root_route t (from buf n) (len - n) (offset + n)) =
      rw (more', small) refl in
    rw (write_all, more, e) last

-- The bytes of a file, and what the loop writes behind them.
same_append :
    (content buf : Bytes) (o n i : ℕ)
    → append (append content o buf) (o + n) (from buf n) i ≡ append content o buf i
same_append content buf o n i = elim (Bool-cases (ltb i (o + n))) [
  | inl e ↦ rw e refl
  | inr e ↦
      let high = ltb→le i (o + n) e in
      let late : ltb i o ≡ false = le→ltb i o (omega arith) in
      let place : n + (i - (o + n)) ≡ i - o = omega arith in rw (e, late, place) refl
]

write_all-done :
    (stack garbage : Bytes) (turns fuel : ℕ) (v : Volume) (t : List ℕ) (buf : Bytes)
    (len offset : ℕ)
    → len ≡ 0
    → 0 < turns
    → write_all stack garbage turns fuel v root_route t buf len offset ≡ ok v
unfolding write_all
write_all-done stack garbage zero fuel v t buf len offset e h = absurd (omega arith)
write_all-done stack garbage (suc turns) fuel v t buf len offset e h =
    rw (write_all, eq→== len 0 e) refl

-- How the loop ends that begins at volume `v`, where the file has the clusters `own`: it returns, the
-- volume holds the whole request behind the file's first bytes, without a cluster to spare, the other files
-- are as they were, and of `k` free entries in a row there are still two less for each cluster.
pub record Result (s : ℕ) (v : Volume) (own t dir : List ℕ) (c n offset : ℕ) (content buf : Bytes)
    (len k : ℕ) (r : Outcome Volume) : Type 0 where
  pub volume : Volume
  pub clusters : List ℕ
  pub returned : r ≡ ok volume
  pub file : FileAt s volume t dir c n clusters (offset + len) (append content offset buf)
  pub keeps : Keeps s v volume t dir own clusters
  pub some_cluster : 1 ≤ length clusters
  pub no_more : length clusters ≤ (offset + len) / 512 + 1
  pub next : ℕ
  pub left : ℕ
  pub spare : Spare s volume next left
  pub taken : k ≤ left + 2 * (len / 512 + 1)

-- The bytes behind the first `part` of a request, behind these.
Result-behind :
    {s : ℕ} {v v1 : Volume} {own own1 t dir : List ℕ} {c n offset : ℕ} (part : ℕ)
    {content buf : Bytes} {len k : ℕ} {r : Outcome Volume}
    → part ≡ 512
    → part ≤ len
    → 2 ≤ k
    → Keeps s v v1 t dir own own1
    → Result s v1 own1 t dir c n
        (offset + part)
        (append content offset buf)
        (from buf part)
        (len - part)
        (k - 2)
        r
    → Result s v own t dir c n offset content buf len k r
Result-behind {s} {t} {dir} {c} {n} {offset} part {content} {buf} {len} whole h two kept r =
    let number : offset + part + (len - part) ≡ offset + len = omega arith in
    record {
      volume = r.volume;
      clusters = r.clusters;
      returned = r.returned;
      file =
          subst (λ l. FileAt s r.volume t dir c n r.clusters l (append content offset buf)) number
            (subst (FileAt s r.volume t dir c n r.clusters (offset + part + (len - part)))
              (fun_ext (same_append content buf offset part)) r.file);
      keeps = Keeps-then kept r.keeps;
      some_cluster = r.some_cluster;
      no_more = omega (arith, r.no_more);
      next = r.next;
      left = r.left;
      spare = r.spare;
      taken = omega (arith, r.taken);
    }

module _ {s : ℕ} {t dir : List ℕ} {c n : ℕ} (stack garbage : Bytes) (fuel : ℕ)
    (rounds : length dir < fuel) where
  -- The loop writes the whole request.
  pub write_all-Result :
      (turns : ℕ) {v : Volume} {q : ℕ} {content : Bytes} {m k : ℕ}
      (g : Growing s v t dir c n q content m k) (buf : Bytes) (len : ℕ)
      → ((i : ℕ) → buf i < 256)
      → 0 < len
      → 2 * (len / 512) + 3 ≤ k
      → 512 * q + len + 512 < u32_mod
      → q + len / 512 < fuel
      → len / 512 + 1 < turns
      → Result s v g.clusters t dir c n
          (512 * q)
          content
          buf
          len
          k
          (write_all stack garbage turns fuel v root_route t buf len (512 * q))
  write_all-Result zero g buf len byte some_bytes spare fits enough h = absurd (omega arith)
  write_all-Result (suc turns) {v} {q} {content} {m} {k} g buf len byte some_bytes spare fits enough
        h =
      let (v', cs, e, file, size, spare', kept) =
        block stack garbage fuel rounds g buf len byte (omega arith) some_bytes (omega arith)
          (omega arith) in
      let next =
        write_all-next stack garbage turns fuel v v' t buf len (512 * q) (min len 512) some_bytes
          (omega arith) (omega arith) e in
      elim (Bool-cases (ltb 512 len)) [
        | inl more ↦
            let long = ltb→lt 512 len more in
            let part : min len 512 ≡ 512 = omega arith in
            let number : 512 * q + min len 512 ≡ 512 * (q + 1) = omega arith in
            let g' : Growing s v' t dir c n (q + 1) (append content (512 * q) buf) (m + 2) (k - 2) =
              record {
                clusters = cs;
                file =
                    subst (λ l. FileAt s v' t dir c n cs l (append content (512 * q) buf)) number
                      file;
                some_cluster = omega (arith, size);
                no_more = omega (arith, size);
                spare = spare';
              } in
            let rest : Result s v' cs t dir c n (512 * (q + 1)) (append content (512 * q) buf)
                (from buf (min len 512)) (len - min len 512) (k - 2)
                (write_all stack garbage turns fuel v' root_route t (from buf (min len 512))
                  (len - min len 512) (512 * (q + 1))) =
              write_all-Result turns g' (from buf (min len 512)) (len - min len 512)
                (λ i. byte (min len 512 + i)) (omega arith) (omega arith) (omega arith)
                (omega arith) (omega arith) in
            let rest' : Result s v' cs t dir c n (512 * q + min len 512)
                (append content (512 * q) buf) (from buf (min len 512)) (len - min len 512) (k - 2)
                (write_all stack garbage turns fuel v' root_route t (from buf (min len 512))
                  (len - min len 512) (512 * q + min len 512)) =
              subst
                (λ o.
                  Result s v' cs t dir c n o (append content (512 * q) buf) (from buf (min len 512))
                    (len - min len 512) (k - 2)
                    (write_all stack garbage turns fuel v' root_route t (from buf (min len 512))
                      (len - min len 512) o))
                (sym number) rest in
            subst (Result s v g.clusters t dir c n (512 * q) content buf len k) (sym next)
              (Result-behind (min len 512) part (omega arith) (omega arith) kept rest')
        | inr done ↦
            let short = ltb→le 512 len done in
            let part : min len 512 ≡ len = omega arith in
            record {
              volume = v';
              clusters = cs;
              returned =
                  next
                  ∙ write_all-done stack garbage turns fuel v' t (from buf (min len 512))
                      (len - min len 512) (512 * q + min len 512) (omega arith) (omega arith);
              file =
                  subst (λ l. FileAt s v' t dir c n cs (512 * q + l) (append content (512 * q) buf))
                    part file;
              keeps = kept;
              some_cluster = omega (arith, size);
              no_more = omega (arith, size);
              next = m + 2;
              left = k - 2;
              spare = spare';
              taken = omega arith;
            }
      ]
