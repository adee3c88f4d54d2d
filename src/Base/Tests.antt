-- ===== src/Base/Tests.antt =====
-- Boolean tests on the native numbers, the conditional, and case splits that keep the equation.
use Prim.Native.Nat.{ℕ, ◌≤◌, ◌<◌, compare, Ordering}
use mathlib.Core.Path.{◌≡◌, refl}
use mathlib.Core.Logic.{◌↔◌, ◌⊎◌, inl, inr}
use mathlib.Core.Bool.{Bool, true, false}
use mathlib.Core.Option.{Option, none, some}
use native.Mathlib.Omega.{arith}

abbrev pub ltb : ℕ → ℕ → Bool
ltb a b = elim (compare a b) [ Ordering.lt ↦ true | _ ↦ false ]

abbrev pub leb : ℕ → ℕ → Bool
leb a b = elim (compare a b) [ Ordering.gt ↦ false | _ ↦ true ]

infix 50 ◌==◌
abbrev pub ◌==◌ : ℕ → ℕ → Bool
a == b = elim (compare a b) [ Ordering.eq ↦ true | _ ↦ false ]

infix 1 if◌then◌else◌
abbrev pub if◌then◌else◌ {ℓ} : {A : Type ℓ} → Bool → A → A → A
if true then x else y = x
if false then x else y = y

pub ==_iff : (a b : ℕ) → ((a == b) ≡ true) ↔ (a ≡ b)
==_iff a b = ground arith

pub ==_refl : (a : ℕ) → (a == a) ≡ true
==_refl a = ground arith

pub leb→le : (a b : ℕ) → leb a b ≡ true → a ≤ b
leb→le a b h = ground arith

pub Bool-cases : (b : Bool) → (b ≡ true) ⊎ (b ≡ false)
Bool-cases true = inl refl
Bool-cases false = inr refl

pub Option-cases {ℓ} : {A : Type ℓ} (o : Option A) → (o ≡ none) ⊎ ((a : A) × (o ≡ some a))
Option-cases none = inl refl
Option-cases (some a) = inr (a, refl)

-- `value == some n`, for an optional column compared with a value.
abbrev pub holds : Option ℕ → ℕ → Bool
holds none n = false
holds (some m) n = m == n

-- A guarded result: what was returned, and that the guard held.
pub guarded-eq-some {ℓ} :
    {A : Type ℓ} (b : Bool) (x y : A) → (if b then some x else none) ≡ some y → (b ≡ true) × (x ≡ y)
guarded-eq-some true x y h = (refl, ground arith)
guarded-eq-some false x y h = cc

pub unless-eq-some {ℓ} :
    {A : Type ℓ} (b : Bool) (x y : A)
    → (if b then none else some x) ≡ some y
    → (b ≡ false) × (x ≡ y)
unless-eq-some true x y h = cc
unless-eq-some false x y h = (refl, ground arith)

pub ltb_cong : {n n' m m' : ℕ} → n ≡ n' → m ≡ m' → ltb n m ≡ ltb n' m'
ltb_cong p q = ground arith

pub lt_or_moved : {D : Type 0} {n n' m m' : ℕ} → D ⊎ (n < m) → n ≡ n' → m ≡ m' → D ⊎ (n' < m')
lt_or_moved (inl d) p q = inl d
lt_or_moved (inr l) p q = inr (omega arith)
