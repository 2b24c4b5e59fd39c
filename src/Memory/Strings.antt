-- ===== src/Memory/Strings.antt =====
-- A C string depends on the bytes up to its NUL.
use native.Mathlib.Nat.{add-zero}
use model_lib.Prelude.{
  ne→==, length, false, ℕ, zero, suc, ◌+◌, ◌≤◌, ◌<◌, ◌==◌, ◌≡◌, refl, ap, ap₂, sym, ◌∙◌, arith,
  List, [], ◌∷◌, Option, none, some, if◌then◌else◌,
}
use model_lib.Memory.{Bytes, c_string, string_bytes}

pub c_string_mono :
    (r r' : ℕ) (m : Bytes) (p : ℕ) (t : List ℕ)
    → c_string r m p ≡ some t
    → r ≤ r'
    → c_string r' m p ≡ some t
unfolding c_string
c_string_mono zero r' m p t e h = cc
c_string_mono (suc r) zero m p t e h = absurd (omega arith)
c_string_mono (suc r) (suc r') m p t e h =
    step (c_string r m (suc p)) (c_string r' m (suc p))
      (λ t' e'. c_string_mono r r' m (suc p) t' e' (omega arith)) e
  where
    step :
        (o o' : Option (List ℕ))
        → ((t' : List ℕ) → o ≡ some t' → o' ≡ some t')
        → (if m p == 0 then some [] else elim o [ none ↦ none | some s ↦ some (m p ∷ s) ]) ≡ some t
        → (if m p == 0 then some [] else elim o' [ none ↦ none | some s ↦ some (m p ∷ s) ]) ≡ some t
    step none o' ih e = ground arith
    step (some s) o' ih e = let same = ih s refl in ground arith

pub c_string-same :
    (r : ℕ) (m m' : Bytes) (p q : ℕ)
    → ((i : ℕ) → i < r → m' (q + i) ≡ m (p + i))
    → c_string r m' q ≡ c_string r m p
unfolding c_string
c_string-same zero m m' p q same = refl
c_string-same (suc r) m m' p q same =
    let zero_q : q + 0 ≡ q = omega arith in
    let zero_p : p + 0 ≡ p = omega arith in
    let head : m' q ≡ m p = ap m' (sym zero_q) ∙ same 0 (omega arith) ∙ ap m zero_p in
    ap₂
      (λ (x : ℕ) (o : Option (List ℕ)).
        if x == 0 then some [] else elim o [ none ↦ none | some s ↦ some (x ∷ s) ])
      head
      (c_string-same r m m' (suc p) (suc q) (λ i h.
        let move_q : suc q + i ≡ q + suc i = omega arith in
        let move_p : suc p + i ≡ p + suc i = omega arith in
        ap m' move_q ∙ same (suc i) (omega arith) ∙ ap m (sym move_p)))

-- A C string's characters: bytes other than NUL.
unfoldable pub IsName : List ℕ → Type 0
IsName [] = Unit {0}
IsName (c ∷ s) = (0 < c) × (c < 256) × IsName s

pub string_bytes-byte : (s : List ℕ) → IsName s → (i : ℕ) → string_bytes s i < 256
unfolding IsName
string_bytes-byte [] h i = omega arith
string_bytes-byte (c ∷ s) h zero = h.1
string_bytes-byte (c ∷ s) h (suc i) = string_bytes-byte s h.2 i

-- A string that stands in memory, its NUL included, is read.
pub c_string_stored :
    (s : List ℕ) (r : ℕ) (m : Bytes) (p : ℕ)
    → IsName s
    → length s < r
    → ((i : ℕ) → i ≤ length s → m (p + i) ≡ string_bytes s i)
    → c_string r m p ≡ some s
unfolding c_string IsName
c_string_stored s zero m p h short at = absurd (omega arith)
c_string_stored [] (suc r) m p h short at =
    let here : m p ≡ 0 = omega (arith, at 0 (omega arith), ap m (add-zero p)) in
    ground (arith, here)
c_string_stored (c ∷ s) (suc r) m p h short at =
    let here : m p ≡ c = omega (arith, at 0 (omega arith), ap m (add-zero p)) in
    let nonzero : (m p == 0) ≡ false = ne→== (m p) 0 (omega (arith, here, h.0)) in
    let rest : c_string r m (suc p) ≡ some s =
      c_string_stored s r m (suc p) h.2 (omega arith) (λ i k.
        let move : suc p + i ≡ p + suc i = omega arith in ap m move ∙ at (suc i) (omega arith)) in
    rw (c_string, nonzero, rest, here) refl
