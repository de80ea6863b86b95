-- ===== src/Base/Monad.antt =====
-- Stateful code: a function of the program's state that returns its result and the new state.

use mathlib.Core.Bool.{Bool, true, false}

abbrev pub State {ℓ κ} : Type ℓ → Type κ → Type (ℓ ⊔ κ)
State S A = S → A × S

infixl 5 ◌>>=◌ ◌>>◌
abbrev pub ◌>>=◌ {ℓ κ μ} :
    {S : Type ℓ} {A : Type κ} {B : Type μ} → State S A → (A → State S B) → State S B
◌>>=◌ m k s = let (a, t) = m s in k a t

-- A call for its effect: what it returns is dropped, as C drops it.
abbrev pub ◌>>◌ {ℓ κ μ} : {S : Type ℓ} {A : Type κ} {B : Type μ} → State S A → State S B → State S B
◌>>◌ m k s = k (m s).1

abbrev pub return {ℓ κ} : {S : Type ℓ} {A : Type κ} → A → State S A
return a s = (a, s)

abbrev pub get {ℓ} : {S : Type ℓ} → State S S
get s = (s, s)

abbrev pub modify {ℓ} : {S : Type ℓ} → (S → S) → State S (Unit {0})
modify f s = (tt, f s)

-- The statement that does nothing.
abbrev pub skip {ℓ} : {S : Type ℓ} → State S (Unit {0})
skip s = (tt, s)

-- `if (!ok) return a;` in front of the rest of a function.
abbrev pub return_unless {ℓ κ} : {S : Type ℓ} {A : Type κ} → Bool → A → State S A → State S A
return_unless true a rest = rest
return_unless false a rest = return a
