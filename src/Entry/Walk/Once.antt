-- ===== src/Entry/Walk/Once.antt =====
-- entry.c: a chain is determined by the table, and comes to no cluster twice.
use mathlib.Core.List.{Memᴰ}
use mathlib.Core.Path.{subst}
use model_lib.Prelude.{ℕ, suc, ◌≤◌, ◌≡◌, refl, sym, ap, arith, List, ◌∷◌, length}
use model_lib.Volume.{Volume}
use model_lib.Entry.Walk.Chain.{Chain, stop, link}

pub Chain-length :
    {s : ℕ} {v : Volume} {c : ℕ} {cs cs' : List ℕ}
    → Chain s v c cs
    → Chain s v c cs'
    → length cs ≡ length cs'
Chain-length (stop e) (stop e') = refl
Chain-length (stop e) (link is rest) = absurd (is.not_end e)
Chain-length (link is rest) (stop e) = absurd (is.not_end e)
Chain-length (link is rest) (link is' rest') = ap suc (Chain-length rest rest')

-- The chain from a cluster of a chain is no longer.
Chain-tail :
    {s : ℕ} {v : Volume} {c : ℕ} {cs : List ℕ} (x : ℕ)
    → Chain s v c cs
    → Memᴰ x cs
    → (cs' : List ℕ) × Chain s v x cs' × (length cs' ≤ length cs)
Chain-tail x (stop e) m = elim m [ ]
Chain-tail {s} {v} x (link {c} {cs} is rest) (Memᴰ.head here) =
    (c ∷ cs, subst (λ z. Chain s v z (c ∷ cs)) (sym here) (link is rest), omega arith)
Chain-tail x (link is rest) (Memᴰ.tail m) =
    let (cs', chain, short) = Chain-tail x rest m in (cs', chain, omega arith)

pub Chain-new_head :
    {s : ℕ} {v : Volume} {c0 : ℕ} (c : ℕ) {cs : List ℕ} → Chain s v c0 (c ∷ cs) → Memᴰ c cs → ⊥
Chain-new_head c (link is rest) m =
    let (cs', chain, short) = Chain-tail c rest m in
    omega (arith, short, Chain-length chain (link is rest))
