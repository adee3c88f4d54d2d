-- ===== src/Base/Result.antt =====
-- Results of fallible operations: a value or an error. A `do` block stops at the first error.
use mathlib.Core.Path.{◌≡◌, refl}
use mathlib.Core.Bool.{Bool, true, false}
use mathlib.Core.Option.{Option, none, some}
use native.Mathlib.Omega.{arith}

pub data Fallible {κ} (Error : Type 0) (Value : Type κ) : Type κ where
  err : Error → Fallible Error Value
  ok : Value → Fallible Error Value

module _ {Error : Type 0} where
  infixl 5 ◌>>◌ ◌>>=◌
  abbrev pub ◌>>=◌ {κ μ} :
      {Value : Type κ} {Next : Type μ}
      → Fallible Error Value
      → (Value → Fallible Error Next)
      → Fallible Error Next
  err problem >>= next = err problem
  ok value >>= next = next value

  abbrev pub ◌>>◌ {μ} :
      {Next : Type μ} → Fallible Error (Unit {0}) → Fallible Error Next → Fallible Error Next
  check >> after = check >>= λ _. after

  -- `if test: raise`
  abbrev pub refuse : Bool → Error → Fallible Error (Unit {0})
  refuse false problem = ok tt
  refuse true problem = err problem

  abbrev pub or_raise {κ} : {Value : Type κ} → Option Value → Error → Fallible Error Value
  or_raise (some value) problem = ok value
  or_raise none problem = err problem

  -- What a chain of checks that ends well has passed.
  pub refuse-eq-ok {κ} :
      {Value : Type κ} (test : Bool) (problem : Error) (after : Fallible Error Value) {end : Value}
      → (refuse test problem >> after) ≡ ok end
      → (test ≡ false) × (after ≡ ok end)
  refuse-eq-ok false problem after reached = (refl, reached)
  refuse-eq-ok true problem after reached = cc

  pub or_raise-eq-ok {κ} :
      {Value : Type κ} (found : Option Value) (problem : Error) {end : Value}
      → or_raise found problem ≡ ok end
      → found ≡ some end
  or_raise-eq-ok (some value) problem reached = ground arith
  or_raise-eq-ok none problem reached = cc

  pub >>=-eq-ok {κ μ} :
      {Value : Type κ} {Next : Type μ} (start : Fallible Error Value)
      (next : Value → Fallible Error Next) {end : Next}
      → (start >>= next) ≡ ok end
      → (between : Value) × (start ≡ ok between) × (next between ≡ ok end)
  >>=-eq-ok (err problem) next reached = cc
  >>=-eq-ok (ok value) next reached = (value, refl, reached)
