-- ===== src/Base/Table.antt =====
-- A database table as a list of rows: UPDATE ... WHERE, and predicates that an update keeps.
use mathlib.Core.Logic.{inl, inr, ◌≢◌}
use mathlib.Core.Path.{◌≡◌, refl, ap, sym, ◌∙◌}
use mathlib.Core.Bool.{Bool, true, false}
use mathlib.Core.List.{List, [], ◌∷◌, ◌++◌, map, Memᴰ}
use mathlib.Core.List.Memᴰ
use Prim.Native.Nat.{ℕ, zero, suc}
use native.Mathlib.Omega.{arith}
use projectree.Base.Tests.{if◌then◌else◌, Bool-cases}
use projectree.Base.Lists.{All, All-imp, All-mem, All-append, All-take, All-keep, any, take, keep}
use projectree.Base.Sorting.{insert_by, sort_by, All-insert_by, All-sort_by}

module _ {ℓ} {A : Type ℓ} where
  -- One row under an update.
  abbrev pub when : (A → Bool) → (A → A) → A → A
  when p f r = if p r then f r else r

  -- The rows that pass the test are replaced, in place.
  abbrev pub update_where : (A → Bool) → (A → A) → List A → List A
  update_where p f = map (when p f)

module _ {ℓ} {A : Type ℓ} (p : A → Bool) (f : A → A) where
  -- With no row selected an update changes nothing.
  pub update_where_absent : (rows : List A) → any p rows ≡ false → update_where p f rows ≡ rows
  update_where_absent [] h = refl
  update_where_absent (r ∷ rows) h = elim (Bool-cases (p r)) [
    | inl e ↦ ground (arith, e)
    | inr e ↦ rw e (ap (◌∷◌ r) (update_where_absent rows (ground (arith, e))))
  ]

module _ {ℓ κ μ} {A : Type ℓ} (P : A → Type κ) (Q : A → Type μ) where
  pub All-map :
      (f : A → A) → ((a : A) → P a → Q (f a)) → (xs : List A) → All P xs → All Q (map f xs)
  All-map f g [] h = tt
  All-map f g (x ∷ xs) h = (g x h.0, All-map f g xs h.1)

  pub All-update_where :
      (p : A → Bool) (f : A → A)
      → ((a : A) → p a ≡ true → P a → Q (f a))
      → ((a : A) → p a ≡ false → P a → Q a)
      → (rows : List A) → All P rows
      → All Q (update_where p f rows)
  All-update_where p f hit miss [] h = tt
  All-update_where p f hit miss (r ∷ rows) h = elim (Bool-cases (p r)) [
    | inl e ↦ rw e (hit r e h.0, All-update_where p f hit miss rows h.1)
    | inr e ↦ rw e (miss r e h.0, All-update_where p f hit miss rows h.1)
  ]

-- No two rows share a key.
abbrev pub UniqueBy {ℓ} : {A : Type ℓ} → (A → ℕ) → List A → Type 0
UniqueBy key [] = Unit
UniqueBy key (r ∷ rows) = All (λ s. key r ≢ key s) rows × UniqueBy key rows

module _ {ℓ} {A : Type ℓ} (key : A → ℕ) where
  -- Rows of a table with unique keys are found again by their keys.
  pub UniqueBy-eq :
      {a b : A} (rows : List A)
      → UniqueBy key rows
      → Memᴰ a rows
      → Memᴰ b rows
      → key a ≡ key b
      → a ≡ b
  UniqueBy-eq [] u m n e = absurd (Memᴰ.not-nil m)
  UniqueBy-eq {a} {b} (r ∷ rows) u m n e = elim (Memᴰ.cases_cons m) [
    | inl p ↦ elim (Memᴰ.cases_cons n) [
      | inl q ↦ p ∙ sym q
      | inr n' ↦ absurd (All-mem (λ s. key r ≢ key s) rows u.0 n' (ap key (sym p) ∙ e))
    ]
    | inr m' ↦ elim (Memᴰ.cases_cons n) [
      | inl q ↦ absurd (All-mem (λ s. key r ≢ key s) rows u.0 m' (ap key (sym q) ∙ sym e))
      | inr n' ↦ UniqueBy-eq rows u.1 m' n' e
    ]
  ]

  -- An update that leaves the keys alone keeps them unique.
  pub UniqueBy-map :
      (f : A → A)
      → ((a : A) → key (f a) ≡ key a)
      → (rows : List A) → UniqueBy key rows
      → UniqueBy key (map f rows)
  UniqueBy-map f same [] u = tt
  UniqueBy-map f same (r ∷ rows) u = (
    All-map (λ s. key r ≢ key s) (λ s. key (f r) ≢ key s) f (λ s d e. d (sym (same r) ∙ e ∙ same s))
        rows u.0,
    UniqueBy-map f same rows u.1,
  )

  pub UniqueBy-append :
      (xs ys : List A)
      → UniqueBy key xs
      → UniqueBy key ys
      → All (λ x. All (λ y. key x ≢ key y) ys) xs
      → UniqueBy key (xs ++ ys)
  UniqueBy-append [] ys u v d = v
  UniqueBy-append (x ∷ xs) ys u v d =
      (All-append (λ y. key x ≢ key y) xs ys u.0 d.0, UniqueBy-append xs ys u.1 v d.1)

-- A row that an update leaves alone is still there after it.
pub mem-map_fixed {ℓ} :
    {A : Type ℓ} {r : A} (f : A → A) {rows : List A} → f r ≡ r → Memᴰ r rows → Memᴰ r (map f rows)
mem-map_fixed f fixed m = Memᴰ.cast (sym fixed) (Memᴰ.map f m)

module _ {ℓ} {A : Type ℓ} (key : A → ℕ) where
  pub UniqueBy-take : (n : ℕ) (rows : List A) → UniqueBy key rows → UniqueBy key (take n rows)
  UniqueBy-take zero rows u = tt
  UniqueBy-take (suc n) [] u = tt
  UniqueBy-take (suc n) (r ∷ rows) u =
      (All-take (λ s. key r ≢ key s) n rows u.0, UniqueBy-take n rows u.1)

  pub UniqueBy-keep :
      (p : A → Bool) (rows : List A) → UniqueBy key rows → UniqueBy key (keep p rows)
  UniqueBy-keep p [] u = tt
  UniqueBy-keep p (r ∷ rows) u = elim (Bool-cases (p r)) [
    | inl e ↦ rw e (
      All-keep (λ s. key r ≢ key s) (λ s. key r ≢ key s) p (λ s t d. d) rows u.0,
      UniqueBy-keep p rows u.1,
    )
    | inr e ↦ rw e (UniqueBy-keep p rows u.1)
  ]

  UniqueBy-insert_by :
      (le : A → A → Bool) (r : A) (rows : List A)
      → All (λ s. key r ≢ key s) rows
      → UniqueBy key rows
      → UniqueBy key (insert_by le r rows)
  UniqueBy-insert_by le r [] d u = (tt, tt)
  UniqueBy-insert_by le r (s ∷ rows) d u = elim (Bool-cases (le r s)) [
    | inl e ↦ rw e (d, u)
    | inr e ↦ rw e (
      All-insert_by le (λ t. key s ≢ key t) r rows (λ q. d.0 (sym q)) u.0,
      UniqueBy-insert_by le r rows d.1 u.1,
    )
  ]

  pub UniqueBy-sort_by :
      (le : A → A → Bool) (rows : List A) → UniqueBy key rows → UniqueBy key (sort_by le rows)
  UniqueBy-sort_by le [] u = tt
  UniqueBy-sort_by le (r ∷ rows) u =
      UniqueBy-insert_by le r (sort_by le rows) (All-sort_by le (λ s. key r ≢ key s) rows u.0)
        (UniqueBy-sort_by le rows u.1)

module _ {ℓ} {A : Type ℓ} (key : A → ℕ) where
  -- A new row with a key of its own.
  pub UniqueBy-concat :
      (r : A) (rows : List A)
      → All (λ s. key r ≢ key s) rows
      → UniqueBy key rows
      → UniqueBy key (rows ++ r ∷ [])
  UniqueBy-concat r rows d u =
      UniqueBy-append key rows (r ∷ []) u (tt, tt)
        (All-imp (λ s. key r ≢ key s) (λ s. All (λ t. key s ≢ key t) (r ∷ []))
          (λ s n. ((λ e. n (sym e)), tt)) rows d)

-- An update that no old row passes is made to the new rows only.
pub update_where-append {ℓ} :
    {A : Type ℓ} (p : A → Bool) (f : A → A) (xs ys : List A)
    → any p xs ≡ false
    → update_where p f (xs ++ ys) ≡ xs ++ update_where p f ys
update_where-append p f [] ys h = refl
update_where-append p f (x ∷ xs) ys h = elim (Bool-cases (p x)) [
  | inl e ↦ ground (arith, e)
  | inr e ↦ rw e (ap (◌∷◌ x) (update_where-append p f xs ys (ground (arith, e))))
]

pub when-hit {ℓ} : {A : Type ℓ} (p : A → Bool) (f : A → A) (r : A) → p r ≡ true → when p f r ≡ f r
when-hit p f r h = rw h refl

pub when-miss {ℓ} : {A : Type ℓ} (p : A → Bool) (f : A → A) (r : A) → p r ≡ false → when p f r ≡ r
when-miss p f r h = rw h refl
