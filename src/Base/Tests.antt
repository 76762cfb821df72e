-- ===== src/Base/Tests.antt =====
-- Boolean tests on numbers and texts, the conditional, and case lemmas on computed values.
use Prim.Native.Nat.{ℕ, ◌≤◌, ◌<◌, compare, Ordering}
use Prim.Native.String.{String}
use mathlib.Core.Path.{◌≡◌, refl}
use mathlib.Core.Logic.{◌≢◌, ◌↔◌, ◌⊎◌, inl, inr}
use mathlib.Core.Bool.{Bool, true, false}
use mathlib.Core.Option.{Option, none, some}
use native.Mathlib.Omega.{arith}
use text.Mathlib.Text.{◌==◌ as text_eq}
use text.Mathlib.TextEquality.{eq_iff}

abbrev pub ltb : ℕ → ℕ → Bool
ltb a b = elim (compare a b) [ Ordering.lt ↦ true | _ ↦ false ]

abbrev pub leb : ℕ → ℕ → Bool
leb a b = elim (compare a b) [ Ordering.gt ↦ false | _ ↦ true ]

-- The program's `==`, on numbers and on texts.
pub record Compared {ℓ} (T : Type ℓ) : Type ℓ where
  pub agree : T → T → Bool
  pub agree_iff : (x y : T) → (agree x y ≡ true) ↔ (x ≡ y)

infix 50 ◌==◌
abbrev pub ◌==◌ {ℓ} : {T : Type ℓ} ⦃c : Compared T⦄ → T → T → Bool
◌==◌ ⦃c⦄ x y = c.agree x y

abbrev pub same_number : ℕ → ℕ → Bool
same_number m n = elim (compare m n) [
  | Ordering.lt ↦ false
  | Ordering.eq ↦ true
  | Ordering.gt ↦ false
]

pub same_number_iff : (m n : ℕ) → (same_number m n ≡ true) ↔ (m ≡ n)
same_number_iff m n = ground arith

instance abbrev pub compared_numbers : Compared ℕ
compared_numbers = record { agree = same_number; agree_iff = same_number_iff }

instance abbrev pub compared_texts : Compared String
compared_texts = record { agree = text_eq; agree_iff = eq_iff }

infix 1 if◌then◌else◌
abbrev pub if◌then◌else◌ {ℓ} : {A : Type ℓ} → Bool → A → A → A
if true then x else y = x
if false then x else y = y

pub ltb→lt : (a b : ℕ) → ltb a b ≡ true → a < b
ltb→lt a b h = ground arith

pub lt→ltb : (a b : ℕ) → a < b → ltb a b ≡ true
lt→ltb a b h = ground arith

pub leb→le : (a b : ℕ) → leb a b ≡ true → a ≤ b
leb→le a b h = ground arith

pub ruleset tests = (arith, ltb→lt, lt→ltb, leb→le)

pub Bool-cases : (b : Bool) → (b ≡ true) ⊎ (b ≡ false)
Bool-cases true = inl refl
Bool-cases false = inr refl

pub Option-cases {ℓ} : {A : Type ℓ} (o : Option A) → (o ≡ none) ⊎ ((a : A) × (o ≡ some a))
Option-cases none = inl refl
Option-cases (some a) = inr (a, refl)

-- To prove something of the chosen branch, prove it of each under its condition.
pub if-cases :
    {A : Type 0} (P : A → Type 0) (b : Bool) {x y : A}
    → (b ≡ true → P x)
    → (b ≡ false → P y)
    → P (if b then x else y)
if-cases P true first second = first refl
if-cases P false first second = second refl

pub number_self : (n : ℕ) → (n == n) ≡ true
number_self n = (compared_numbers.agree_iff n n).1 refl

pub number_differs : (a b : ℕ) → a ≢ b → (a == b) ≡ false
number_differs a b d = elim (Bool-cases (a == b)) [
  | inl same ↦ absurd (d ((compared_numbers.agree_iff a b).0 same))
  | inr other ↦ other
]

pub number_flip : (a b : ℕ) → (a == b) ≡ (b == a)
number_flip a b = ground (arith, compared_numbers.agree_iff a b, compared_numbers.agree_iff b a)
