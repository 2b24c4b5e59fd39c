-- ===== src/Prelude/Results.antt =====
-- How a C function ends: it returns, it meets undefined behaviour, it stops the program by
-- `exit(1)` or `BUG_ON(1)`, or the rounds given to one of its loops are used up.

pub data Outcome {ℓ} (R : Type ℓ) : Type ℓ where
  ok : R → Outcome R
  fault halt out_of_fuel : Outcome R

module _ {ℓ κ} {R : Type ℓ} {S : Type κ} where
  infixl 5 ◌>>=◌ ◌>>◌
  abbrev pub ◌>>=◌ : Outcome R → (R → Outcome S) → Outcome S
  out_of_fuel >>= next = out_of_fuel
  halt >>= next = halt
  fault >>= next = fault
  ok r >>= next = next r

  abbrev pub ◌>>◌ : Outcome R → Outcome S → Outcome S
  first >> second = first >>= λ _. second
