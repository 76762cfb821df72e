-- ===== src/Base/Maybe.antt =====
-- `do` blocks in `Option`: a step that returns `None` ends the block.
use mathlib.Core.Path.{◌≡◌, refl}
use mathlib.Core.Option.{Option, none, some}

infixl 5 ◌>>=◌
abbrev pub ◌>>=◌ {ℓ κ} : {A : Type ℓ} {B : Type κ} → Option A → (A → Option B) → Option B
m >>= k = elim m [ none ↦ none | some a ↦ k a ]

-- Inversion of a block that returned.
pub bind-eq-some {ℓ κ} :
    {A : Type ℓ} {B : Type κ} (m : Option A) (k : A → Option B) {b : B}
    → (m >>= k) ≡ some b
    → (a : A) × (m ≡ some a) × (k a ≡ some b)
bind-eq-some none k e = cc
bind-eq-some (some a) k e = (a, refl, e)
