-- ===== src/Dir/Live.antt =====
-- dir.c: the listing of a directory as the list of its live entries.
use model_lib.Prelude.{
  Bool-cases, inl, inr, ℕ, zero, suc, ◌+◌, ◌≡◌, refl, Bool, true, false, if◌then◌else◌, List, [],
  ◌∷◌, ◌++◌, Option, none, some, same_string,
}
use model_lib.Memory.{Bytes}
use model_lib.Volume.{Volume}
use model_lib.Entry.Dirent.{is_normal_dir, is_normal_file, attribute, entry_in}
use model_lib.Entry.Walk.Claim.{contents}
use model_lib.Entry.Directory.Find.{slot_name}
use model_lib.Dir.{DentryType, file_dentry, dir_dentry, Emitted, DirEmit}

-- What an entry says of what stands there: a directory, a file, or nothing.
abbrev pub kind_of : (kind : ℕ) → Option DentryType
kind_of kind =
    if is_normal_dir kind
    then some dir_dentry
    else if is_normal_file kind
    then some file_dentry
    else none

-- The live entries: each is a name with a kind. A free entry is none.
abbrev pub live_entry : Option (List ℕ) → Option DentryType → List Emitted
live_entry (some name) (some kind) = record { name = name; kind = kind } ∷ []
live_entry (some name) none = []
live_entry none kind = []

-- The `k` entries of a cluster from number `n` on.
unfoldable pub live_in : Bytes → (k n : ℕ) → List Emitted
live_in cluster zero n = []
live_in cluster (suc k) n =
    live_entry (slot_name cluster n) (kind_of (attribute (entry_in cluster n)))
    ++ live_in cluster k (n + 1)

-- A directory, as the list of its live entries.
unfoldable pub listing : (s : ℕ) → Volume → List ℕ → List Emitted
unfolding live_in
listing s v [] = []
listing s v (c ∷ cs) = live_in (contents s v c) 8 0 ++ listing s v cs

-- What `dir_emit` takes of a list of entries behind those that it took before, and whether it took all.
unfoldable pub offer : DirEmit → (before entries : List Emitted) → List Emitted × Bool
offer dir_emit before [] = (before, true)
offer dir_emit before (e ∷ es) =
    let rest = offer dir_emit (before ++ e ∷ []) es in
    if dir_emit before e then rest else (before, false)

-- The kind of the first entry of a name.
unfoldable pub find_kind : List ℕ → List Emitted → Option DentryType
find_kind t [] = none
find_kind t (e ∷ es) =
    let rest : Option DentryType = find_kind t es in
    if same_string e.name t then some e.kind else rest

-- Where all of a first list is taken, a second is offered behind it.
abbrev pub then_offer : DirEmit → List Emitted × Bool → List Emitted → List Emitted × Bool
then_offer dir_emit (before, true) es = offer dir_emit before es
then_offer dir_emit (before, false) es = (before, false)

pub offer-append :
    (dir_emit : DirEmit) (before xs ys : List Emitted)
    → offer dir_emit before (xs ++ ys) ≡ then_offer dir_emit (offer dir_emit before xs) ys
unfolding offer
offer-append dir_emit before [] ys = refl
offer-append dir_emit before (x ∷ xs) ys = elim (Bool-cases (dir_emit before x)) [
  | inl room ↦ rw room (offer-append dir_emit (before ++ x ∷ []) xs ys)
  | inr full ↦ rw full refl
]

abbrev pub or_else : Option DentryType → Option DentryType → Option DentryType
or_else (some k) other = some k
or_else none other = other

pub find_kind-append :
    (t : List ℕ) (xs ys : List Emitted)
    → find_kind t (xs ++ ys) ≡ or_else (find_kind t xs) (find_kind t ys)
unfolding find_kind
find_kind-append t [] ys = refl
find_kind-append t (x ∷ xs) ys = elim (Bool-cases (same_string x.name t)) [
  | inl same ↦ rw same refl
  | inr other ↦ rw other (find_kind-append t xs ys)
]
