-- ===== src/Prelude/Loops.antt =====
-- Counted loops and the pipeline that writes statements in the order of the source.
use Prim.Native.Nat.{ℕ, zero, suc, ◌<◌}
use native.Mathlib.Omega.{arith}

-- `w |> f |> g` runs `f`, then `g`.
infixl 6 ◌|>◌
abbrev pub ◌|>◌ {ℓ κ} : {A : Type ℓ} {B : Type κ} → A → (A → B) → B
x |> f = f x

-- for (k = 0; k < n; k++) s = body k s
unfoldable pub for_to {ℓ} : {S : Type ℓ} → ℕ → (ℕ → S → S) → S → S
for_to zero body s = s
for_to (suc n) body s = body n (for_to n body s)

-- What every round keeps, the loop keeps.
pub for_to_inv {ℓ κ} :
    {S : Type ℓ} (P : S → Type κ) (n : ℕ) (body : ℕ → S → S)
    → ((k : ℕ) (s : S) → k < n → P s → P (body k s))
    → (s : S) → P s
    → P (for_to n body s)
unfolding for_to
for_to_inv P zero body keep s h = h
for_to_inv P (suc n) body keep s h =
    keep n (for_to n body s) (omega arith)
      (for_to_inv P n body (λ k t q. keep k t (omega arith)) s h)
