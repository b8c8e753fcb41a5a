-- ===== src/Result.antt =====
-- packages/core/src/result.ts: what a total function returns instead of throwing.
pub data Result {ℓ κ} (T : Type ℓ) (E : Type κ) : Type (ℓ ⊔ κ) where
  ok : T → Result T E
  err : E → Result T E

-- An early `return` of the error of a part.
infixl 5 ◌>>=◌
abbrev pub ◌>>=◌ {ℓ κ μ} :
    {T : Type ℓ} {U : Type κ} {E : Type μ} → Result T E → (T → Result U E) → Result U E
ok a >>= f = f a
err e >>= f = err e
