-- ===== src/Entry/Walk/First.antt =====
-- entry.c: where the first entry that passes a test stands in a directory.
use mathlib.Core.List.{Memᴰ}
use mathlib.Core.Path.{ap₂}
use model_lib.Prelude.{
  ℕ, zero, suc, ◌+◌, ◌≤◌, ◌<◌, ◌≡◌, ◌==◌, ◌≢◌, refl, ◌⊎◌, inl, inr, arith, Bool, true, false, List,
  [], ◌∷◌, Option, none, some, sym, Bool-cases, ==→eq, ==→ne,
}
use model_lib.Entry.Walk.Slots.{first, first_in}

first-none :
    (test : ℕ → Bool) (k n i : ℕ) → first test k n ≡ none → n ≤ i → i < n + k → test i ≡ false
unfolding first
first-none test zero n i e low high = absurd (omega arith)
first-none test (suc k) n i e low high = elim (Bool-cases (test n)) [
  | inl yes_n ↦ cc (rw yes_n at e)
  | inr no_n ↦ elim (Bool-cases (i == n)) [
    | inl same ↦ let here : i ≡ n = ==→eq i n same in rw here no_n
    | inr other ↦
        first-none test k (n + 1) i (rw no_n at e) (omega (arith, ==→ne i n other)) (omega arith)
  ]
]

first-some :
    (test : ℕ → Bool) (k n m : ℕ)
    → first test k n ≡ some m
    → (n ≤ m) × (m < n + k) × (test m ≡ true)
unfolding first
first-some test zero n m e = cc
first-some test (suc k) n m e = elim (Bool-cases (test n)) [
  | inl yes_n ↦
      let e' : some n ≡ some m = rw yes_n at e in
      let here : n ≡ m = cc in rw (← here) (omega arith, omega arith, yes_n)
  | inr no_n ↦
      let ih = first-some test k (n + 1) m (rw no_n at e) in (omega arith, omega arith, ih.2)
]

-- No entry passes.
first-no :
    (test : ℕ → Bool) (k n : ℕ)
    → ((i : ℕ) → n ≤ i → i < n + k → test i ≡ false)
    → first test k n ≡ none
unfolding first
first-no test zero n h = refl
first-no test (suc k) n h =
    let no_n = h n (omega arith) (omega arith) in
    rw no_n (first-no test k (n + 1) (λ i low high. h i (omega arith) (omega arith)))

-- One entry passes.
first-only :
    (test : ℕ → Bool) (k n m : ℕ)
    → n ≤ m
    → m < n + k
    → test m ≡ true
    → ((i : ℕ) → n ≤ i → i < n + k → i ≢ m → test i ≡ false)
    → first test k n ≡ some m
unfolding first
first-only test zero n m low high yes_m h = absurd (omega arith)
first-only test (suc k) n m low high yes_m h = elim (Bool-cases (m == n)) [
  | inl same ↦
      let here : m ≡ n = ==→eq m n same in
      let yes_n : test n ≡ true = rw here at yes_m in rw (yes_n, here)
  | inr other ↦
      let ne = ==→ne m n other in
      let no_n = h n (omega arith) (omega arith) (λ e. ne (sym e)) in
      rw no_n (
        first-only test k (n + 1) m (omega arith) (omega arith) yes_m
          (λ i low' high' ne'. h i (omega arith) (omega arith) ne'))
]

Option-cases : (o : Option ℕ) → (o ≡ none) ⊎ ((n : ℕ) × (o ≡ some n))
Option-cases none = inl refl
Option-cases (some n) = inr (n, refl)

pub first_in-inr :
    (hit : (c n : ℕ) → Bool) (before : ℕ) (cs : List ℕ) (last : ℕ)
    → first_in hit before cs ≡ inr last
    → (c n : ℕ) → Memᴰ c cs
    → n < 8
    → hit c n ≡ false
unfolding first_in
first_in-inr hit before [] last e c n m h = elim m [ ]
first_in-inr hit before (c' ∷ cs) last e c n m h = elim (Option-cases (first (hit c') 8 0)) [
  | inl nothing ↦ elim m [
    | Memᴰ.head here ↦ rw here (first-none (hit c') 8 0 n nothing (omega arith) (omega arith))
    | Memᴰ.tail m' ↦ first_in-inr hit c' cs last (rw (first_in, nothing) at e) c n m' h
  ]
  | inr (k, at) ↦ cc (rw (first_in, at) at e)
]

pub first_in-inl :
    (hit : (c n : ℕ) → Bool) (before : ℕ) (cs : List ℕ) (c n : ℕ)
    → first_in hit before cs ≡ inl (c, n)
    → Memᴰ c cs × (n < 8) × (hit c n ≡ true)
unfolding first_in
first_in-inl hit before [] c n e = cc
first_in-inl hit before (c' ∷ cs) c n e = elim (Option-cases (first (hit c') 8 0)) [
  | inl nothing ↦
      let ih = first_in-inl hit c' cs c n (rw (first_in, nothing) at e) in
      (Memᴰ.tail ih.0, ih.1, ih.2)
  | inr (k, at) ↦
      let found = first-some (hit c') 8 0 k at in
      let e' : ◌≡◌ {A = (ℕ × ℕ) ⊎ ℕ} (inl (c', k)) (inl (c, n)) = rw (first_in, at) at e in
      let cluster : c' ≡ c = cc in
      let number : k ≡ n = cc in rw (← cluster, ← number) (Memᴰ.head refl, found.1, found.2)
]

-- One entry of the directory passes.
pub first_in-only :
    (hit : (c n : ℕ) → Bool) (before : ℕ) (cs : List ℕ) (c n : ℕ)
    → Memᴰ c cs
    → n < 8
    → hit c n ≡ true
    → ((c' n' : ℕ) → Memᴰ c' cs → n' < 8 → (c' ≢ c) ⊎ (n' ≢ n) → hit c' n' ≡ false)
    → first_in hit before cs ≡ inl (c, n)
unfolding first_in
first_in-only hit before [] c n m h yes_n others = elim m [ ]
first_in-only hit before (c' ∷ cs) c n m h yes_n others = elim (Bool-cases (c' == c)) [
  | inl same ↦
      let here : c' ≡ c = ==→eq c' c same in
      let at =
        first-only (hit c') 8 0 n (omega arith) h (rw here yes_n)
          (λ i low high ne. others c' i (Memᴰ.head refl) high (inr ne)) in
      rw (first_in, at, here) refl
  | inr other ↦
      let ne = ==→ne c' c other in
      let nothing =
        first-no (hit c') 8 0 (λ i low high. others c' i (Memᴰ.head refl) high (inl ne)) in
      rw (first_in, nothing)
        (first_in-only hit c' cs c n
          (elim m [ Memᴰ.head here ↦ absurd (ne (sym here)) | Memᴰ.tail m' ↦ m' ]) h yes_n
          (λ c1 n1 m1. others c1 n1 (Memᴰ.tail m1)))
]

first_same :
    (test test' : ℕ → Bool) (k n : ℕ)
    → ((i : ℕ) → n ≤ i → i < n + k → test' i ≡ test i)
    → first test' k n ≡ first test k n
unfolding first
first_same test test' zero n h = refl
first_same test test' (suc k) n h =
    rw
      (
        h n (omega arith) (omega arith),
        first_same test test' k (n + 1) (λ i low high. h i (omega arith) (omega arith)),
      )
      refl

-- Two tests that agree on the entries of a directory.
pub first_in_same :
    (hit hit' : (c n : ℕ) → Bool) (before : ℕ) (cs : List ℕ)
    → ((c n : ℕ) → Memᴰ c cs → n < 8 → hit' c n ≡ hit c n)
    → first_in hit' before cs ≡ first_in hit before cs
unfolding first_in
first_in_same hit hit' before [] h = refl
first_in_same hit hit' before (c ∷ cs) h =
    ap₂
      (λ (o : Option ℕ) (r : (ℕ × ℕ) ⊎ ℕ).
        let x : (ℕ × ℕ) ⊎ ℕ = elim o [ some n ↦ inl (c, n) | none ↦ r ] in x)
      (first_same (hit c) (hit' c) 8 0 (λ i low high. h c i (Memᴰ.head refl) high))
      (first_in_same hit hit' c cs (λ c1 n m k. h c1 n (Memᴰ.tail m) k))
