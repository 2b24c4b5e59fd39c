-- ===== src/Util/Tokens.antt =====
-- util.c: `strtok_r` against the parts of a string between its delimiters.
use model_lib.Prelude.{
  ℕ, ◌≡◌, refl, if◌then◌else◌, Bool-cases, inl, inr, arith, List, [], ◌∷◌, Option, none, some, ap,
  length, zero, suc, ◌+◌, ◌<◌, Outcome, ok, out_of_fuel, ◌>>=◌,
}
use model_lib.Util.{is_delim, scan_token, strtok_r}

abbrev put : ℕ → List (List ℕ) → List (List ℕ)
put c [] = (c ∷ []) ∷ []
put c (t ∷ ts) = (c ∷ t) ∷ ts

-- The parts between delimiters, empty ones included.
unfoldable pub split : List ℕ → List ℕ → List (List ℕ)
split delim [] = [] ∷ []
split delim (c ∷ s) = if is_delim delim c then [] ∷ split delim s else put c (split delim s)

-- Those parts that are not empty.
unfoldable pub nonempty : List (List ℕ) → List (List ℕ)
nonempty [] = []
nonempty ([] ∷ ts) = nonempty ts
nonempty ((c ∷ t) ∷ ts) = (c ∷ t) ∷ nonempty ts

abbrev pub components : List ℕ → List ℕ → List (List ℕ)
components delim s = nonempty (split delim s)

-- What is left to read in `*last`.
abbrev pub remaining : List ℕ → Option (List ℕ) → List (List ℕ)
remaining delim none = []
remaining delim (some s) = components delim s

abbrev all_remaining : List ℕ → Option (List ℕ) → List (List ℕ)
all_remaining delim none = []
all_remaining delim (some s) = split delim s

scan_token-split :
    (delim s : List ℕ)
    → split delim s ≡ (scan_token delim s).0 ∷ all_remaining delim (scan_token delim s).1
unfolding split scan_token
scan_token-split delim [] = refl
scan_token-split delim (c ∷ s) = elim (Bool-cases (is_delim delim c)) [
  | inl yes_delim ↦ rw yes_delim
  | inr no_delim ↦ rw (no_delim, scan_token-split delim s)
]

-- What is left to read is shorter.
scan_token-shorter :
    (delim s rest : List ℕ) → (scan_token delim s).1 ≡ some rest → length rest < length s
unfolding scan_token
scan_token-shorter delim [] rest e = cc
scan_token-shorter delim (c ∷ s) rest e = ground (arith, scan_token-shorter delim s rest)

-- The parts that one call stands for.
abbrev pub parts : List ℕ → Option (List ℕ) × Option (List ℕ) → List (List ℕ)
parts delim (none, last) = []
parts delim (some t, last) = t ∷ remaining delim last

remaining-nonempty :
    (delim : List ℕ) (last : Option (List ℕ))
    → nonempty (all_remaining delim last) ≡ remaining delim last
unfolding nonempty
remaining-nonempty delim none = refl
remaining-nonempty delim (some s) = refl

pub strtok_r-parts : (delim s : List ℕ) → components delim s ≡ parts delim (strtok_r delim (some s))
unfolding strtok_r split nonempty
strtok_r-parts delim [] = refl
strtok_r-parts delim (c ∷ s) = elim (Bool-cases (is_delim delim c)) [
  | inl yes_delim ↦ rw yes_delim (strtok_r-parts delim s)
  | inr no_delim ↦
      rw (no_delim, scan_token-split delim s, no_delim)
        (ap (λ t. (c ∷ (scan_token delim s).0) ∷ t)
          (remaining-nonempty delim (scan_token delim s).1))
]

-- What is left behind a call is shorter than what was there.
strtok_r-shorter :
    (delim s rest : List ℕ) → (strtok_r delim (some s)).1 ≡ some rest → length rest < length s
unfolding strtok_r
strtok_r-shorter delim [] rest e = cc
strtok_r-shorter delim (c ∷ s) rest e = elim (Bool-cases (is_delim delim c)) [
  | inl yes_delim ↦
      let ih : length rest < length s = strtok_r-shorter delim s rest (rw yes_delim at e) in
      omega arith
  | inr no_delim ↦ scan_token-shorter delim (c ∷ s) rest (rw no_delim at e)
]

-- The tokens that a loop of `strtok` gets, as in `get_cluster_number`.
unfoldable pub tokens : ℕ → List ℕ → Option (List ℕ) → Outcome (List (List ℕ))
tokens zero delim s = out_of_fuel
tokens (suc fuel) delim s = elim (strtok_r delim s).0 [
  | none ↦ ok []
  | some t ↦ tokens fuel delim (strtok_r delim s).1 >>= λ ts. ok (t ∷ ts)
]

tokens-none : (fuel : ℕ) (delim : List ℕ) → 0 < fuel → tokens fuel delim none ≡ ok []
unfolding tokens strtok_r
tokens-none zero delim h = absurd (omega arith)
tokens-none (suc fuel) delim h = refl

-- A loop of `strtok_r` calls, given two rounds more than the string has characters, ends; its tokens are
-- the parts of the string between delimiters that are not empty, in order.
pub tokens-components :
    (fuel : ℕ) (delim s : List ℕ)
    → length s + 1 < fuel
    → tokens fuel delim (some s) ≡ ok (components delim s)
unfolding tokens
tokens-components zero delim s h = absurd (omega arith)
tokens-components (suc fuel) delim s h = rw (strtok_r-parts delim s) (
    go (strtok_r delim (some s)).0 (strtok_r delim (some s)).1 (λ rest e.
      tokens-components fuel delim rest (omega (arith, strtok_r-shorter delim s rest e))))
  where
    go :
        (t : Option (List ℕ)) (last : Option (List ℕ))
        → ((rest : List ℕ)
            → last ≡ some rest
            → tokens fuel delim (some rest) ≡ ok (components delim rest))
        → ◌≡◌ {A = Outcome (List (List ℕ))}
            (elim t [ none ↦ ok [] | some t' ↦ tokens fuel delim last >>= λ ts. ok (t' ∷ ts) ])
            (ok (parts delim (t, last)))
    go none last ih = refl
    go (some t) none ih = rw (tokens-none fuel delim (omega arith))
    go (some t) (some rest) ih = rw (ih rest refl)
