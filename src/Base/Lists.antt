-- ===== src/Base/Lists.antt =====
-- Lists measured by native numbers, and predicates over lists.
use Prim.Native.Nat.{ℕ, zero, suc, ◌+◌, ◌≤◌, min}
use mathlib.Core.Path.{◌≡◌, refl, sym, ap, subst}
use mathlib.Core.Bool.{Bool, true, false, ◌&&◌, ◌||◌}
use mathlib.Core.List.{List, [], ◌∷◌, ◌++◌, map, Memᴰ}
use mathlib.Core.Option.{Option, none, some}
use native.Mathlib.Omega.{arith}
use mathlib.Core.Logic.{inl, inr}
use projectree.Base.Tests.{if◌then◌else◌, Bool-cases}

module _ {ℓ} {A : Type ℓ} where
  abbrev pub length : List A → ℕ
  length [] = 0
  length (x ∷ xs) = suc (length xs)

  abbrev pub take : ℕ → List A → List A
  take zero xs = []
  take (suc n) [] = []
  take (suc n) (x ∷ xs) = x ∷ take n xs

  -- The elements that pass a Boolean test, in order.
  abbrev pub keep : (A → Bool) → List A → List A
  keep p [] = []
  keep p (x ∷ xs) = let rest = keep p xs in if p x then x ∷ rest else rest

  abbrev pub any : (A → Bool) → List A → Bool
  any p [] = false
  any p (x ∷ xs) = p x || any p xs

  abbrev pub all : (A → Bool) → List A → Bool
  all p [] = true
  all p (x ∷ xs) = p x && all p xs

  -- The first element that passes a test.
  abbrev pub find : (A → Bool) → List A → Option A
  find p [] = none
  find p (x ∷ xs) = let rest = find p xs in if p x then some x else rest

  pub length-append : (xs ys : List A) → length (xs ++ ys) ≡ length xs + length ys
  length-append [] ys = omega arith
  length-append (x ∷ xs) ys = omega (arith, length-append xs ys)

  pub length-take-le : (n : ℕ) (xs : List A) → length (take n xs) ≤ n
  length-take-le zero xs = omega arith
  length-take-le (suc n) [] = omega arith
  length-take-le (suc n) (x ∷ xs) = omega (arith, length-take-le n xs)

  pub length-take : (n : ℕ) (xs : List A) → length (take n xs) ≡ min n (length xs)
  length-take zero xs = omega arith
  length-take (suc n) [] = omega arith
  length-take (suc n) (x ∷ xs) = omega (arith, length-take n xs)

module _ {ℓ κ} {A : Type ℓ} where
  -- Every element satisfies `P`.
  abbrev pub All : (A → Type κ) → List A → Type κ
  All P [] = Unit
  All P (x ∷ xs) = P x × All P xs

module _ {ℓ κ} {A : Type ℓ} (P : A → Type κ) where
  pub All-append : (xs ys : List A) → All P xs → All P ys → All P (xs ++ ys)
  All-append [] ys h k = k
  All-append (x ∷ xs) ys h k = (h.0, All-append xs ys h.1 k)

  pub All-take : (n : ℕ) (xs : List A) → All P xs → All P (take n xs)
  All-take zero xs h = tt
  All-take (suc n) [] h = tt
  All-take (suc n) (x ∷ xs) h = (h.0, All-take n xs h.1)

  pub All-mem : {a : A} (xs : List A) → All P xs → Memᴰ a xs → P a
  All-mem xs h (Memᴰ.head {x = x} {xs = rest} e) = subst P (sym e) h.0
  All-mem xs h (Memᴰ.tail {xs = rest} m) = All-mem rest h.1 m

  pub All-of : ((a : A) → P a) → (xs : List A) → All P xs
  All-of f [] = tt
  All-of f (x ∷ xs) = (f x, All-of f xs)

  -- What holds of every member holds of every element.
  pub All-of_mem : (xs : List A) → ((a : A) → Memᴰ a xs → P a) → All P xs
  All-of_mem [] f = tt
  All-of_mem (x ∷ xs) f = (f x (Memᴰ.head refl), All-of_mem xs (λ a m. f a (Memᴰ.tail m)))

module _ {ℓ κ μ} {A : Type ℓ} (P : A → Type κ) (Q : A → Type μ) where
  pub All-imp : ((a : A) → P a → Q a) → (xs : List A) → All P xs → All Q xs
  All-imp f [] h = tt
  All-imp f (x ∷ xs) h = (f x h.0, All-imp f xs h.1)

  pub All-and : (xs : List A) → All P xs → All Q xs → All (λ a. P a × Q a) xs
  All-and [] h k = tt
  All-and (x ∷ xs) h k = ((h.0, k.0), All-and xs h.1 k.1)

  -- A predicate on a selection may use that the selected elements pass the test.
  pub All-keep :
      (p : A → Bool)
      → ((a : A) → p a ≡ true → P a → Q a)
      → (xs : List A) → All P xs
      → All Q (keep p xs)
  All-keep p f [] h = tt
  All-keep p f (x ∷ xs) h = elim (Bool-cases (p x)) [
    | inl e ↦ rw e (f x e h.0, All-keep p f xs h.1)
    | inr e ↦ rw e (All-keep p f xs h.1)
  ]

module _ {ℓ κ} {A : Type ℓ} {B : Type κ} where
  pub length-map : (f : A → B) (xs : List A) → length (map f xs) ≡ length xs
  length-map f [] = refl
  length-map f (x ∷ xs) = ap suc (length-map f xs)

module _ {ℓ} {A : Type ℓ} (p : A → Bool) where
  -- A map that the test does not see changes no answer.
  pub any-map : (f : A → A) (xs : List A) → ((a : A) → p (f a) ≡ p a) → any p (map f xs) ≡ any p xs
  any-map f [] same = refl
  any-map f (x ∷ xs) same = rw (same x, any-map f xs same)

  -- A map after which the test holds wherever another one held before.
  pub any-map_of :
      (q : A → Bool) (f : A → A)
      → ((a : A) → q a ≡ true → p (f a) ≡ true)
      → (xs : List A) → any q xs ≡ true
      → any p (map f xs) ≡ true
  any-map_of q f hit [] h = h
  any-map_of q f hit (x ∷ xs) h = elim (Bool-cases (q x)) [
    | inl e ↦ rw (hit x e)
    | inr e ↦ rw (any-map_of q f hit xs (ground (arith, e))) (or-true (p (f x)))
  ]
    where
      or-true : (b : Bool) → (b || true) ≡ true
      or-true b = ground arith

  pub find_of_any : (xs : List A) → any p xs ≡ true → (a : A) × (find p xs ≡ some a) × (p a ≡ true)
  find_of_any [] h = cc
  find_of_any (x ∷ xs) h = elim (Bool-cases (p x)) [
    | inl e ↦ (x, rw e, e)
    | inr e ↦ let (a, f, t) = find_of_any xs (ground (arith, e)) in (a, rw e f, t)
  ]

  pub any_of_mem : {a : A} (xs : List A) → p a ≡ true → Memᴰ a xs → any p xs ≡ true
  any_of_mem xs h (Memᴰ.head {x = x} {xs = rest} e) = rw (← e, h)
  any_of_mem xs h (Memᴰ.tail {x = x} {xs = rest} m) = rw (any_of_mem rest h m) (ground arith)

  pub mem-keep : {a : A} (xs : List A) → p a ≡ true → Memᴰ a xs → Memᴰ a (keep p xs)
  mem-keep xs h (Memᴰ.head {x = x} {xs = rest} e) = rw (← e, h) (Memᴰ.head refl)
  mem-keep xs h (Memᴰ.tail {x = x} {xs = rest} m) = elim (Bool-cases (p x)) [
    | inl e ↦ rw e (Memᴰ.tail (mem-keep rest h m))
    | inr e ↦ rw e (mem-keep rest h m)
  ]

  pub any-map_none :
      (f : A → A) → ((a : A) → p (f a) ≡ false) → (xs : List A) → any p (map f xs) ≡ false
  any-map_none f miss [] = refl
  any-map_none f miss (x ∷ xs) = rw (miss x, any-map_none f miss xs)

  pub find_of_none : (xs : List A) → any p xs ≡ false → find p xs ≡ none
  find_of_none [] h = refl
  find_of_none (x ∷ xs) h = elim (Bool-cases (p x)) [
    | inl e ↦ ground (arith, e)
    | inr e ↦ rw e (find_of_none xs (ground (arith, e)))
  ]

  -- If no element passes a test, every element has what a failed test gives.
  pub All-of_none {κ} :
      (P : A → Type κ) → ((a : A) → p a ≡ false → P a) → (xs : List A) → any p xs ≡ false → All P xs
  All-of_none P f [] h = tt
  All-of_none P f (x ∷ xs) h = elim (Bool-cases (p x)) [
    | inl e ↦ ground (arith, e)
    | inr e ↦ (f x e, All-of_none P f xs (ground (arith, e)))
  ]

  -- What is found passes the test, and has what all elements have.
  pub find-All {κ} :
      (P : A → Type κ) {a : A} (xs : List A) → All P xs → find p xs ≡ some a → P a × (p a ≡ true)
  find-All P [] h e = cc
  find-All P {a} (x ∷ xs) h e = elim (Bool-cases (p x)) [
    | inl t ↦
        let same : x ≡ a = ground (arith, t) in (subst P same h.0, subst (λ y. p y ≡ true) same t)
    | inr f ↦ find-All P xs h.1 (ground (arith, f))
  ]

module _ {ℓ} {A : Type ℓ} where
  -- Tests that agree on the elements of a list agree on whether one passes.
  pub any_cong : (p q : A → Bool) (xs : List A) → All (λ a. p a ≡ q a) xs → any p xs ≡ any q xs
  any_cong p q [] h = refl
  any_cong p q (x ∷ xs) h = rw (h.0, any_cong p q xs h.1)

-- A stronger test passes nowhere either.
pub any_narrow {ℓ} :
    {A : Type ℓ} (p q : A → Bool) (xs : List A)
    → ((a : A) → p a ≡ true → q a ≡ true)
    → any q xs ≡ false
    → any p xs ≡ false
any_narrow p q [] f h = refl
any_narrow p q (x ∷ xs) f h = elim (Bool-cases (p x)) [
  | inl e ↦ ground (arith, f x e)
  | inr e ↦ rw e (any_narrow p q xs f (ground arith))
]

pub keep-append {ℓ} :
    {A : Type ℓ} (p : A → Bool) (xs ys : List A) → keep p (xs ++ ys) ≡ keep p xs ++ keep p ys
keep-append p [] ys = refl
keep-append p (x ∷ xs) ys = elim (Bool-cases (p x)) [
  | inl e ↦ rw e (ap (◌∷◌ x) (keep-append p xs ys))
  | inr e ↦ rw e (keep-append p xs ys)
]

pub any_of_find-none {ℓ} :
    {A : Type ℓ} (p : A → Bool) (xs : List A) → find p xs ≡ none → any p xs ≡ false
any_of_find-none p [] h = refl
any_of_find-none p (x ∷ xs) h = elim (Bool-cases (p x)) [
  | inl e ↦ ground (arith, e)
  | inr e ↦ rw e (any_of_find-none p xs (ground (arith, e)))
]

-- What is found is a member.
pub mem_of_find {ℓ} :
    {A : Type ℓ} {a : A} (p : A → Bool) (xs : List A) → find p xs ≡ some a → Memᴰ a xs
mem_of_find p [] h = cc
mem_of_find {a} p (x ∷ xs) h = elim (Bool-cases (p x)) [
  | inl e ↦ let same : a ≡ x = ground (arith, e) in Memᴰ.head same
  | inr e ↦ Memᴰ.tail (mem_of_find p xs (ground (arith, e)))
]

pub find-append {ℓ} :
    {A : Type ℓ} {a : A} (p : A → Bool) (xs ys : List A)
    → find p xs ≡ some a
    → find p (xs ++ ys) ≡ some a
find-append p [] ys h = cc
find-append p (x ∷ xs) ys h = elim (Bool-cases (p x)) [
  | inl e ↦ ground (arith, e)
  | inr e ↦ rw e (find-append p xs ys (ground (arith, e)))
]
