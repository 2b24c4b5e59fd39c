-- ===== src/Dir/Added.antt =====
-- file.c and dir.c: what a new entry adds to the list of a directory's live entries.
use mathlib.Core.List.{Memᴰ}
use mathlib.Core.Path.{subst}
use model_lib.Prelude.{
  ℕ, zero, suc, ◌+◌, ◌≤◌, ◌<◌, ◌==◌, ◌≡◌, ◌≢◌, ◌⊎◌, inl, inr, refl, ap, ap₂, ◌∙◌, sym, arith, true,
  false, List, [], ◌∷◌, ◌++◌, Option, none, some, Bool-cases, ==→eq, ==→ne,
}
use model_lib.Memory.{Bytes, c_string}
use model_lib.Volume.{Volume}
use model_lib.Volume.Layout.{Layout}
use model_lib.Entry.Dirent.{Dirent, is_long_file_name, attribute, entry_in}
use model_lib.Entry.Walk.Chain.{Chain, stop, link, IsCluster}
use model_lib.Entry.Walk.Claim.{contents}
use model_lib.Entry.Walk.Once.{Chain-new_head}
use model_lib.Entry.Directory.Find.{slot_name}
use model_lib.Entry.Directory.Free.{is_free}
use model_lib.Entry.Directory.Put.{self_attribute, self_named, other_kind, other_named}
use model_lib.Entry.Directory.Slot.{put_at, Chain-IsCluster}
use model_lib.Dir.{DentryType, Emitted}
use model_lib.Dir.Live.{live_entry, kind_of, live_in, listing}

-- A list with one more at some place: the others keep their order.
pub record Added {A : Type 0} (e : A) (old new : List A) : Type 0 where
  pub before : List A
  pub behind : List A
  pub was : old ≡ before ++ behind
  pub now : new ≡ before ++ e ∷ behind

append_assoc : {A : Type 0} (xs ys zs : List A) → (xs ++ ys) ++ zs ≡ xs ++ (ys ++ zs)
append_assoc [] ys zs = refl
append_assoc (x ∷ xs) ys zs = ap (λ l. x ∷ l) (append_assoc xs ys zs)

Added-left :
    {A : Type 0} {e : A} {old new : List A} (xs ys : List A)
    → xs ≡ ys
    → Added e old new
    → Added e (xs ++ old) (ys ++ new)
Added-left {e} xs ys same a = record {
  before = xs ++ a.before;
  behind = a.behind;
  was = ap (λ l. xs ++ l) a.was ∙ sym (append_assoc xs a.before a.behind);
  now = ap₂ (λ l r. l ++ r) (sym same) a.now ∙ sym (append_assoc xs a.before (e ∷ a.behind));
}

Added-right :
    {A : Type 0} {e : A} {old new : List A} (xs ys : List A)
    → xs ≡ ys
    → Added e old new
    → Added e (old ++ xs) (new ++ ys)
Added-right {e} xs ys same a = record {
  before = a.before;
  behind = a.behind ++ xs;
  was = ap (λ l. l ++ xs) a.was ∙ append_assoc a.before a.behind xs;
  now = ap₂ (λ l r. l ++ r) a.now (sym same) ∙ append_assoc a.before (e ∷ a.behind) xs;
}

-- What entry `n` of a cluster adds to the list.
abbrev live_at : Bytes → ℕ → List Emitted
live_at cluster n = live_entry (slot_name cluster n) (kind_of (attribute (entry_in cluster n)))

live_in-same :
    (cluster cluster' : Bytes) (k m : ℕ)
    → ((i : ℕ) → m ≤ i → i < m + k → live_at cluster' i ≡ live_at cluster i)
    → live_in cluster k m ≡ live_in cluster' k m
unfolding live_in
live_in-same cluster cluster' zero m same = refl
live_in-same cluster cluster' (suc k) m same =
    ap₂ (λ l r. l ++ r) (sym (same m (omega arith) (omega arith)))
      (live_in-same cluster cluster' k (m + 1) (λ i low high. same i (omega arith) (omega arith)))

live_in-Added :
    (cluster cluster' : Bytes) (e : Emitted) (n k m : ℕ)
    → m ≤ n
    → n < m + k
    → live_at cluster n ≡ []
    → live_at cluster' n ≡ e ∷ []
    → ((i : ℕ) → m ≤ i → i < m + k → i ≢ n → live_at cluster' i ≡ live_at cluster i)
    → Added e (live_in cluster k m) (live_in cluster' k m)
unfolding live_in
live_in-Added cluster cluster' e n zero m low high was is same = absurd (omega arith)
live_in-Added cluster cluster' e n (suc k) m low high was is same = elim (Bool-cases (m == n)) [
  | inl here ↦
      let at = ==→eq m n here in
      let rest =
        live_in-same cluster cluster' k (m + 1)
          (λ i low' high'. same i (omega arith) (omega arith) (λ z. omega arith)) in
      record {
        before = [];
        behind = live_in cluster k (m + 1);
        was = ap₂ (λ l r. l ++ r) (ap (live_at cluster) at ∙ was) refl;
        now = ap₂ (λ l r. l ++ r) (ap (live_at cluster') at ∙ is) (sym rest);
      }
  | inr there ↦
      let ne = ==→ne m n there in
      Added-left (live_at cluster m) (live_at cluster' m)
        (sym (same m (omega arith) (omega arith) ne))
        (live_in-Added cluster cluster' e n k (m + 1) (omega arith) (omega arith) was is
          (λ i low' high' ne'. same i (omega arith) (omega arith) ne'))
]

none_live : (o : Option (List ℕ)) → live_entry o none ≡ []
none_live none = refl
none_live (some t) = refl

free_lists_none : (cluster : Bytes) (n : ℕ) → is_free cluster n ≡ true → live_at cluster n ≡ []
free_lists_none cluster n free =
    let no_kind : kind_of (attribute (entry_in cluster n)) ≡ none = ground arith in
    ap (live_entry (slot_name cluster n)) no_kind ∙ none_live (slot_name cluster n)

pub listing-contents :
    (s : ℕ) (v v' : Volume) (cs : List ℕ)
    → contents s v' ≡ contents s v
    → listing s v' cs ≡ listing s v cs
unfolding listing
listing-contents s v v' [] same = refl
listing-contents s v v' (c ∷ cs) same =
    ap₂ (λ l r. l ++ r) (ap (λ (m : ℕ → Bytes). live_in (m c) 8 0) same)
      (listing-contents s v v' cs same)

module _ {s : ℕ} {v : Volume} (l : Layout 2 s v) (c' n : ℕ) (is : IsCluster s v c') (hn : n < 8)
    (d : Dirent) (t : List ℕ) (plain : is_long_file_name (attribute d) ≡ false)
    (named : c_string 59 d 5 ≡ some t) where
  abbrev behind_put : Volume
  behind_put = put_at s v c' n d

  live_other :
      (c i : ℕ)
      → IsCluster s v c
      → i < 8
      → (c ≢ c') ⊎ (i ≢ n)
      → live_at (contents s behind_put c) i ≡ live_at (contents s v c) i
  live_other c i is' h other =
      ap₂ (λ name kind. live_entry name (kind_of kind))
        (other_named l c' n is hn d t plain named c i is' h other)
        (other_kind l c' n is hn d t plain named c i is' h other)

  live_self :
      (k : DentryType)
      → kind_of (attribute d) ≡ some k
      → live_at (contents s behind_put c') n ≡ record { name = t; kind = k } ∷ []
  live_self k e =
      ap₂ live_entry (self_named l c' n is hn d t plain named)
        (ap kind_of (self_attribute l c' n is hn d t plain named) ∙ e)

  listing-apart :
      (cs : List ℕ)
      → ((c : ℕ) → Memᴰ c cs → IsCluster s v c)
      → (Memᴰ c' cs → ⊥)
      → listing s v cs ≡ listing s behind_put cs
  unfolding listing
  listing-apart [] clusters apart = refl
  listing-apart (c ∷ cs) clusters apart =
      ap₂ (λ l r. l ++ r)
        (live_in-same (contents s v c) (contents s behind_put c) 8 0 (λ i low high.
          live_other c i (clusters c (Memᴰ.head refl)) high (inl (λ e. apart (Memᴰ.head (sym e))))))
        (listing-apart cs (λ c1 m. clusters c1 (Memᴰ.tail m)) (λ m. apart (Memᴰ.tail m)))

  -- A new entry in a free place is one more live entry.
  pub listing-Added :
      (k : DentryType) {c0 : ℕ} {cs : List ℕ}
      → Chain s v c0 cs
      → Memᴰ c' cs
      → is_free (contents s v c') n ≡ true
      → kind_of (attribute d) ≡ some k
      → Added (record { name = t; kind = k }) (listing s v cs) (listing s behind_put cs)
  unfolding listing
  listing-Added k (stop e) m free kind = elim m [ ]
  listing-Added k (link {c} {cs} is' rest) m free kind = elim (Bool-cases (c == c')) [
    | inl here ↦
        let at = ==→eq c c' here in
        let alone : Memᴰ c' cs → ⊥ =
          λ m'. Chain-new_head c (link is' rest) (subst (λ z. Memᴰ z cs) (sym at) m') in
        Added-right (listing s v cs) (listing s behind_put cs)
          (listing-apart cs (Chain-IsCluster rest) alone)
          (live_in-Added (contents s v c) (contents s behind_put c) (record { name = t; kind = k })
            n 8 0 (omega arith) hn
            (ap (λ z. live_at (contents s v z) n) at ∙ free_lists_none (contents s v c') n free)
            (ap (λ z. live_at (contents s behind_put z) n) at ∙ live_self k kind)
            (λ i low high ne. live_other c i is' high (inr ne)))
    | inr there ↦
        let ne = ==→ne c c' there in
        Added-left (live_in (contents s v c) 8 0) (live_in (contents s behind_put c) 8 0)
          (live_in-same (contents s v c) (contents s behind_put c) 8 0
            (λ i low high. live_other c i is' high (inl ne)))
          (listing-Added k rest (elim m [ Memᴰ.head e ↦ absurd (ne (sym e)) | Memᴰ.tail m' ↦ m' ])
            free kind)
  ]
