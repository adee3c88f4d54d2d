-- ===== src/Base/Sorting.antt =====
-- Stable insertion sort by a Boolean order: what `sorted(..., key=...)` and ORDER BY return.
use mathlib.Core.List.{Perm}
use mathlib.Core.List.Perm
use mathlib.Core.Logic.{inl, inr}
use mathlib.Core.Path.{◌≡◌, refl, ap}
use mathlib.Core.Bool.{Bool, true, false}
use mathlib.Core.List.{List, [], ◌∷◌, Memᴰ}
use mathlib.Core.List.Memᴰ
use Prim.Native.Nat.{ℕ, zero, suc}
use projectree.Base.Tests.{if◌then◌else◌, Bool-cases}
use projectree.Base.Lists.{All, All-imp, All-keep, All-take, All-mem, length, take, keep}

module _ {ℓ} {A : Type ℓ} (le : A → A → Bool) where
  abbrev pub insert_by : A → List A → List A
  insert_by x [] = x ∷ []
  insert_by x (y ∷ ys) = if le x y then x ∷ y ∷ ys else y ∷ insert_by x ys

  abbrev pub sort_by : List A → List A
  sort_by [] = []
  sort_by (x ∷ xs) = insert_by x (sort_by xs)

  -- Each element is at most every later one.
  abbrev pub IsSorted : List A → Type ℓ
  IsSorted [] = Unit
  IsSorted (x ∷ xs) = All (λ y. le x y ≡ true) xs × IsSorted xs

module _ {ℓ} {A : Type ℓ} (le : A → A → Bool) where
  insert_by-perm : (x : A) (xs : List A) → Perm (insert_by le x xs) (x ∷ xs)
  insert_by-perm x [] = Perm.refl (x ∷ [])
  insert_by-perm x (y ∷ ys) = elim (Bool-cases (le x y)) [
    | inl e ↦ rw e (Perm.refl (x ∷ y ∷ ys))
    | inr e ↦ rw e (Perm.trans (Perm.cons y (insert_by-perm x ys)) (Perm.swap x y ys))
  ]

  -- Sorting only reorders.
  pub sort_by-perm : (xs : List A) → Perm (sort_by le xs) xs
  sort_by-perm [] = Perm.refl []
  sort_by-perm (x ∷ xs) =
      Perm.trans (insert_by-perm x (sort_by le xs)) (Perm.cons x (sort_by-perm xs))

  pub length-insert_by : (x : A) (xs : List A) → length (insert_by le x xs) ≡ suc (length xs)
  length-insert_by x [] = refl
  length-insert_by x (y ∷ ys) = elim (Bool-cases (le x y)) [
    | inl e ↦ rw e
    | inr e ↦ rw e (ap suc (length-insert_by x ys))
  ]

  pub length-sort_by : (xs : List A) → length (sort_by le xs) ≡ length xs
  length-sort_by [] = refl
  length-sort_by (x ∷ xs) = rw (length-insert_by x (sort_by le xs), length-sort_by xs)

  module _ {κ} (P : A → Type κ) where
    pub All-insert_by : (x : A) (xs : List A) → P x → All P xs → All P (insert_by le x xs)
    All-insert_by x [] h k = (h, tt)
    All-insert_by x (y ∷ ys) h k = elim (Bool-cases (le x y)) [
      | inl e ↦ rw e (h, k)
      | inr e ↦ rw e (k.0, All-insert_by x ys h k.1)
    ]

    pub All-sort_by : (xs : List A) → All P xs → All P (sort_by le xs)
    All-sort_by [] h = tt
    All-sort_by (x ∷ xs) h = All-insert_by x (sort_by le xs) h.0 (All-sort_by xs h.1)

-- The order is total and transitive.
pub record IsOrder {ℓ} {A : Type ℓ} (le : A → A → Bool) : Type ℓ where
  pub total : (a b : A) → le a b ≡ false → le b a ≡ true
  pub trans : (a b c : A) → le a b ≡ true → le b c ≡ true → le a c ≡ true

module _ {ℓ} {A : Type ℓ} {le : A → A → Bool} (o : IsOrder le) where
  insert_by-IsSorted : (x : A) (xs : List A) → IsSorted le xs → IsSorted le (insert_by le x xs)
  insert_by-IsSorted x [] h = (tt, tt)
  insert_by-IsSorted x (y ∷ ys) h = elim (Bool-cases (le x y)) [
    | inl e ↦ rw e (
      (e, All-imp (λ z. le y z ≡ true) (λ z. le x z ≡ true) (λ z q. o.trans x y z e q) ys h.0),
      h,
    )
    | inr e ↦ rw e (
      All-insert_by le (λ z. le y z ≡ true) x ys (o.total x y e) h.0,
      insert_by-IsSorted x ys h.1,
    )
  ]

  pub sort_by-IsSorted : (xs : List A) → IsSorted le (sort_by le xs)
  sort_by-IsSorted [] = tt
  sort_by-IsSorted (x ∷ xs) = insert_by-IsSorted x (sort_by le xs) (sort_by-IsSorted xs)

module _ {ℓ} {A : Type ℓ} (le : A → A → Bool) where
  mem-insert_by : {a : A} (x : A) (xs : List A) → Memᴰ a (x ∷ xs) → Memᴰ a (insert_by le x xs)
  mem-insert_by x [] m = m
  mem-insert_by x (y ∷ ys) m = elim (Bool-cases (le x y)) [
    | inl e ↦ rw e m
    | inr e ↦ rw e (elim (Memᴰ.cases_cons m) [
      | inl p ↦ Memᴰ.tail (mem-insert_by x ys (Memᴰ.head p))
      | inr n ↦ elim (Memᴰ.cases_cons n) [
        | inl q ↦ Memᴰ.head q
        | inr k ↦ Memᴰ.tail (mem-insert_by x ys (Memᴰ.tail k))
      ]
    ])
  ]

  pub mem-sort_by : {a : A} (xs : List A) → Memᴰ a xs → Memᴰ a (sort_by le xs)
  mem-sort_by xs (Memᴰ.head {x = x} {xs = rest} e) = mem-insert_by x (sort_by le rest) (Memᴰ.head e)
  mem-sort_by xs (Memᴰ.tail {x = x} {xs = rest} m) =
      mem-insert_by x (sort_by le rest) (Memᴰ.tail (mem-sort_by rest m))

  pub keep-IsSorted : (p : A → Bool) (xs : List A) → IsSorted le xs → IsSorted le (keep p xs)
  keep-IsSorted p [] h = tt
  keep-IsSorted p (x ∷ xs) h = elim (Bool-cases (p x)) [
    | inl e ↦ rw e (
      All-keep (λ y. le x y ≡ true) (λ y. le x y ≡ true) p (λ y t q. q) xs h.0,
      keep-IsSorted p xs h.1,
    )
    | inr e ↦ rw e (keep-IsSorted p xs h.1)
  ]

  pub take-IsSorted : (n : ℕ) (xs : List A) → IsSorted le xs → IsSorted le (take n xs)
  take-IsSorted zero xs h = tt
  take-IsSorted (suc n) [] h = tt
  take-IsSorted (suc n) (x ∷ xs) h =
      (All-take (λ y. le x y ≡ true) n xs h.0, take-IsSorted n xs h.1)

  -- What a limit leaves out of a sorted list comes after all that it takes, and the limit is used up.
  pub take_before :
      {a : A} (n : ℕ) (xs : List A)
      → IsSorted le xs
      → Memᴰ a xs
      → ¬ Memᴰ a (take n xs)
      → (length (take n xs) ≡ n) × All (λ s. le s a ≡ true) (take n xs)
  take_before zero xs h m out = (refl, tt)
  take_before (suc n) [] h m out = absurd (Memᴰ.not-nil m)
  take_before {a} (suc n) (x ∷ xs) h m out = elim (Memᴰ.cases_cons m) [
    | inl e ↦ absurd (out (Memᴰ.head e))
    | inr k ↦
        let (full, before) = take_before n xs h.1 k (λ t. out (Memᴰ.tail t)) in
        (ap suc full, (All-mem (λ y. le x y ≡ true) xs h.0 k, before))
  ]
