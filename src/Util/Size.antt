-- ===== src/Util/Size.antt =====
-- util.c: `fls64` finds the highest bit, so that `parse_size` refuses what does not fit and wraps
-- nothing.
use model_lib.Prelude.{
  ℕ, zero, suc, ◌+◌, ◌-◌, ◌*◌, ◌%◌, ◌^◌, ◌≤◌, ◌<◌, ◌==◌, ◌≡◌, refl, inl, inr, ltb, leb, true, false,
  if◌then◌else◌, arith, ok, halt, Bool, Bool-cases, List, [], ◌∷◌, Outcome, some, ap, sym, ◌∙◌,
}
use mathlib.Core.Path.{◌≡⟨◌⟩◌, ◌∎}
use native.Mathlib.Nat.{pow-suc, pow-le-pow_right}
use model_lib.Util.{
  top_bit, fls64_from, fls64, mult_of, scale, parse_size, strtoull, suffix_mult, is_negative,
  Parsed, to_lower,
}

leb→le : (a b : ℕ) → leb a b ≡ true → a ≤ b
leb→le a b h = ground arith

leb→lt : (a b : ℕ) → leb a b ≡ false → b < a
leb→lt a b h = ground arith

pow_positive : (n : ℕ) → 0 < 2 ^ n
pow_positive zero = omega arith
pow_positive (suc n) = rw pow-suc (omega (arith, pow_positive n))

pow_sum : (a b c : ℕ) → a + b ≡ c → 2 ^ a * 2 ^ b ≡ 2 ^ c
pow_sum zero b c e = let e' : b ≡ c = omega arith in rw e' (omega arith)
pow_sum (suc a) b zero e = absurd (omega arith)
pow_sum (suc a) b (suc c) e =
    let smaller = pow_sum a b c (omega arith) in
    2 ^ suc a * 2 ^ b
    ≡⟨ rw (pow-suc 2 a) (omega arith) ⟩ 2 ^ a * 2 ^ b * 2
    ≡⟨ ap (λ t. t * 2) smaller ∙ sym (pow-suc 2 c) ⟩ 2 ^ suc c ∎

mul_mono : (a b p : ℕ) → a ≤ b → a * p ≤ b * p
mul_mono a b p h = grind arith

-- `r` is one more than the place of the highest bit of `x`.
record HighBit (x r : ℕ) : Type 0 where
  above : x < 2 ^ r
  below : (k : ℕ) → r ≡ suc k → 2 ^ k ≤ x

shifted : (x q p : ℕ) → q * p ≡ 2 ^ 63 → x < q * 2 → 0 < p → leb (2 ^ 63) (x * p % 2 ^ 64) ≡ leb q x
shifted x q p e h positive =
    let up : (x + 1) * p ≡ x * p + p = omega arith in
    let double : q * 2 * p ≡ 2 * (q * p) = omega arith in
    ground (arith, up, double, mul_mono q x p, mul_mono (x + 1) q p, mul_mono (x + 1) (q * 2) p)

top_bit_lem : (x n : ℕ) → n ≤ 63 → x < 2 ^ suc n → top_bit x (64 - suc n) ≡ leb (2 ^ n) x
top_bit_lem x n h k =
    shifted x (2 ^ n) (2 ^ (64 - suc n)) (pow_sum n (64 - suc n) 63 (omega arith))
      (rw (← pow-suc 2 n) k) (pow_positive (64 - suc n))

fls64_from_lem : (n x : ℕ) → n ≤ 64 → x < 2 ^ n → HighBit x (fls64_from n x)
unfolding fls64_from
fls64_from_lem zero x h k = record { above = k; below = λ k e. absurd (omega arith) }
fls64_from_lem (suc n) x h k = elim (Bool-cases (top_bit x (64 - suc n))) [
  | inl hit ↦ rw hit (record {
    above = k;
    below = λ j e.
        let same : n ≡ j = omega arith in
        leb→le _ _ (rw (← same) (sym (top_bit_lem x n (omega arith) k) ∙ hit));
  })
  | inr miss ↦
      rw miss (
        fls64_from_lem n x (omega arith)
          (leb→lt _ _ (sym (top_bit_lem x n (omega arith) k) ∙ miss)))
]

fls64-HighBit : (x : ℕ) → x < 2 ^ 64 → HighBit x (fls64 x)
unfolding fls64
fls64-HighBit x h = fls64_from_lem 64 x (omega arith) h

module _ (value n r : ℕ) (top : HighBit value r) where
  fits_below : r + n ≤ 64 → value * 2 ^ n < 2 ^ 64
  fits_below h =
      let up : (value + 1) * 2 ^ n ≡ value * 2 ^ n + 2 ^ n = omega arith in
      omega (
        arith,
        up,
        pow_positive n,
        mul_mono (value + 1) (2 ^ r) (2 ^ n) (omega (arith, top.above)),
        pow_sum r n (r + n) (omega arith),
        pow-le-pow_right {n = 2} (omega arith) h,
      )

  too_large : 64 < r + n → n ≤ 60 → 2 ^ 64 ≤ value * 2 ^ n
  too_large h small =
      let least : 2 ^ (r - 1) ≤ value = top.below (r - 1) (omega arith) in
      let enough : 64 ≤ r - 1 + n = omega arith in
      omega (
        arith,
        mul_mono (2 ^ (r - 1)) value (2 ^ n) least,
        pow_sum (r - 1) n (r - 1 + n) (omega arith),
        pow-le-pow_right {n = 2} (omega arith) enough,
      )

scale_product :
    (value n : ℕ)
    → value < 2 ^ 64
    → n ≤ 60
    → fls64 (2 ^ n) ≡ n + 1
    → scale value (2 ^ n) ≡ (if ltb (value * 2 ^ n) (2 ^ 64) then ok (value * 2 ^ n) else halt)
unfolding scale
scale_product value n h small bits =
    let top = fls64-HighBit value h in
    rw bits
      (ground (arith, fits_below value n (fls64 value) top, too_large value n (fls64 value) top))

-- A multiplier is a power of two whose highest bit `fls64` finds.
record Power (m : ℕ) : Type 0 where
  bits : ℕ
  small : bits ≤ 60
  value : 2 ^ bits ≡ m
  top : fls64 (2 ^ bits) ≡ bits + 1

pick :
    (b : Bool) {m m' : ℕ} (rest : Outcome ℕ)
    → Power m'
    → (rest ≡ ok m → Power m)
    → (if b then ok m' else rest) ≡ ok m
    → Power m
pick true {m} {m'} rest first later e = let e' : m' ≡ m = cc in rw (← e') first
pick false rest first later e = later e

power : (n : ℕ) → n ≤ 60 → fls64 (2 ^ n) ≡ n + 1 → Power (2 ^ n)
power n h e = record { bits = n; small = h; value = refl; top = e }

mult_of-Power : (c : ℕ) {m : ℕ} → mult_of c ≡ ok m → Power m
unfolding mult_of fls64
mult_of-Power c = pick (c == b'e') _ (power 60 (omega arith) refl) (
    pick (c == b'p') _ (power 50 (omega arith) refl) (
      pick (c == b't') _ (power 40 (omega arith) refl) (
        pick (c == b'g') _ (power 30 (omega arith) refl) (
          pick (c == b'm') _ (power 20 (omega arith) refl) (
            pick (c == b'k') _ (power 10 (omega arith) refl)
              (pick (c == b'b') _ (power 0 (omega arith) refl) (λ e. cc)))))))

suffix_mult-Power : (rest : List ℕ) {m : ℕ} → suffix_mult rest ≡ ok m → Power m
unfolding suffix_mult fls64
suffix_mult-Power [] {m} e = let e' : 1 ≡ m = cc in rw (← e') (power 0 (omega arith) refl)
suffix_mult-Power (c ∷ []) e = mult_of-Power (to_lower c) e
suffix_mult-Power (c ∷ d ∷ rest) e = cc

value-lt : (s : List ℕ) (p : Parsed) → strtoull s ≡ some p → p.value < 2 ^ 64
unfolding strtoull
value-lt s p e = ground arith

-- A text that does not begin with '-', of which `strtoull` reads a number without overflow, and whose
-- rest is no suffix or a known one: `parse_size` returns the exact product of number and multiplier
-- if that is below 2^64, and stops the program if it is not.
pub parse_size-product :
    (s : List ℕ) (p : Parsed) (mult : ℕ)
    → is_negative s ≡ false
    → strtoull s ≡ some p
    → p.erange ≡ false
    → suffix_mult p.rest ≡ ok mult
    → parse_size s ≡ (if ltb (p.value * mult) (2 ^ 64) then ok (p.value * mult) else halt)
unfolding parse_size
parse_size-product s p mult plus read fits suffix =
    let w = suffix_mult-Power p.rest suffix in
    rw (plus, read, suffix, fits, ← w.value)
      (scale_product p.value w.bits (value-lt s p read) w.small w.top)
