-- ===== src/Sqlite/Session/Kept.antt =====
-- sqliteio.c: a store with one file more or changed, as the volume holds it.
use mathlib.Core.Path.{subst}
use model_lib.Prelude.{
  ℕ, ◌≡◌, inl, inr, sym, ap, true, false, List, some, Option, same_string, Bool-cases,
  same_string→eq, same_string_refl, ◌∙◌,
}
use model_lib.Volume.{Volume}
use model_lib.Entry.Walk.Spare.{Spare}
use model_lib.Sqlite.Keeps.{Disjoint}
use model_lib.Sqlite.Session.{Store, Content, Stands, Stored, put}

some_same : {A : Type 0} {a b : A} → ◌≡◌ {A = Option A} (some a) (some b) → a ≡ b
some_same e = cc

pub Disjoint-sym : (xs ys : List ℕ) → Disjoint xs ys → Disjoint ys xs
Disjoint-sym xs ys apart z in_ys in_xs = apart z in_xs in_ys

module _ {s : ℕ} {dir : List ℕ} {st : Store} {v v' : Volume} (now : Stored s dir st v)
    (name own : List ℕ) (file : Content) (at_name : Stands s v' dir name own file) (m left : ℕ)
    (spare : Spare s v' m left)
    (kept : (u : List ℕ) (f : Content)
      → st.files u ≡ some f
      → same_string u name ≡ false
      → Stands s v' dir u (now.clusters u) f × Disjoint own (now.clusters u)) where
  abbrev clusters : List ℕ → List ℕ
  clusters u = elim (same_string u name) [ true ↦ own | false ↦ now.clusters u ]

  -- A name's place in the new store: it is the new file's, or it was there before.
  stands :
      (u : List ℕ) (f : Content)
      → (put st name file left).files u ≡ some f
      → Stands s v' dir u (clusters u) f
  stands u f h = elim (Bool-cases (same_string u name)) [
    | inl same ↦
        let is_name : u ≡ name = same_string→eq u name same in
        let is_file : file ≡ f = some_same (rw (same, put) at h) in
        rw (same, clusters)
          (subst (λ w. Stands s v' dir w own f) (sym is_name)
            (subst (Stands s v' dir name own) is_file at_name))
    | inr other ↦ rw (other, clusters) (kept u f (rw (other, put) at h) other).0
  ]

  apart :
      (u w : List ℕ) (f g : Content)
      → (put st name file left).files u ≡ some f
      → (put st name file left).files w ≡ some g
      → same_string u w ≡ false
      → Disjoint (clusters u) (clusters w)
  apart u w f g h h' differ = elim (Bool-cases (same_string u name)) [
    | inl is_u ↦ elim (Bool-cases (same_string w name)) [
      | inl is_w ↦
          let same_name : u ≡ w = same_string→eq u name is_u ∙ sym (same_string→eq w name is_w) in
          let clash : true ≡ false =
            sym (same_string_refl u) ∙ ap (same_string u) same_name ∙ differ in
          absurd cc
      | inr not_w ↦ rw (is_u, not_w, clusters) (kept w g (rw (not_w, put) at h') not_w).1
    ]
    | inr not_u ↦
        let here = (kept u f (rw (not_u, put) at h) not_u).1 in
        elim (Bool-cases (same_string w name)) [
          | inl is_w ↦ rw (not_u, is_w, clusters) (Disjoint-sym own (now.clusters u) here)
          | inr not_w ↦
              rw (not_u, not_w, clusters)
                (now.apart u w f g (rw (not_u, put) at h) (rw (not_w, put) at h') differ)
        ]
  ]

  pub Stored-put : Stored s dir (put st name file left) v'
  Stored-put = record {
    layout = at_name.at.layout;
    root = at_name.at.root;
    tidy = at_name.at.tidy;
    first_spare = m;
    spare = spare;
    clusters = clusters;
    stands = stands;
    apart = apart;
  }
