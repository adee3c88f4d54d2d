-- ===== src/Outbox/Queue.antt =====
-- In what order events are claimed, and which ones wait.

use projectree.Base.{
  ℕ, zero, suc, ◌≡◌, ◌<◌, ◌≤◌, ◌⊎◌, refl, inl, inr, true, false, not, ◌&&◌, Bool, Option, none,
  some, List, [], ◌∷◌, Memᴰ, String, str_eq, str_eq_iff, any_of_mem, length, All, All-imp, All-keep,
  All-take, All-of_mem, mem-keep, keep, take, leb, arith, find_of_any, mem_of_find,
}
use projectree.Base.Sorting.{
  IsSorted, sort_by, sort_by-IsSorted, mem-sort_by, All-sort_by, keep-IsSorted, take-IsSorted,
  take_before,
}
use projectree.Claiming.Order.{by_availability-IsOrder}
use projectree.Outbox.{
  OutboxEvent, OutboxStatus, pending, publishing, select_claimable, is_claimable, is_open,
  schema_allowed, claim_order,
}

-- A worker that publishes the given schema versions, or all of them, may claim the version.
abbrev pub IsAllowed : Option (List String) → String → Type 0
IsAllowed none version = Unit
IsAllowed (some versions) version = Memᴰ version versions

-- PENDING or PUBLISHING, and its time has come.
abbrev pub IsDue : ℕ → Option (List String) → OutboxEvent → Type 0
IsDue now versions r =
    ((r.status ≡ pending) ⊎ (r.status ≡ publishing))
    × (r.available_at ≤ now)
    × IsAllowed versions r.schema_version

-- By `available_at`, then by `created_at`.
abbrev pub ComesBefore : OutboxEvent → OutboxEvent → Type 0
ComesBefore a b =
    (a.available_at < b.available_at)
    ⊎ ((a.available_at ≡ b.available_at) × (a.created_at ≤ b.created_at))

-- Each event comes before all later ones.
abbrev pub IsQueue : List OutboxEvent → Type 0
IsQueue [] = Unit
IsQueue (r ∷ rows) = All (ComesBefore r) rows × IsQueue rows

claim_order-ComesBefore : (a b : OutboxEvent) → claim_order a b ≡ true → ComesBefore a b
claim_order-ComesBefore a b h = ground (arith, h)

IsSorted-IsQueue : (rows : List OutboxEvent) → IsSorted claim_order rows → IsQueue rows
IsSorted-IsQueue [] h = tt
IsSorted-IsQueue (r ∷ rows) h = (
  All-imp (λ s. claim_order r s ≡ true) (ComesBefore r) (claim_order-ComesBefore r) rows h.0,
  IsSorted-IsQueue rows h.1,
)

open_status : (s : OutboxStatus) → is_open s ≡ true → (s ≡ pending) ⊎ (s ≡ publishing)
open_status pending h = inl refl
open_status publishing h = inr refl
open_status OutboxStatus.published h = cc
open_status OutboxStatus.dead h = cc

status_open : (s : OutboxStatus) → (s ≡ pending) ⊎ (s ≡ publishing) → is_open s ≡ true
status_open s (inl e) = rw e refl
status_open s (inr e) = rw e refl

allowed :
    (versions : Option (List String)) (v : String)
    → schema_allowed versions v ≡ true
    → IsAllowed versions v
allowed none v h = tt
allowed (some versions) v h =
    let (w, found, same) = find_of_any (str_eq v) versions h in
    rw ((str_eq_iff v w).0 same) (mem_of_find (str_eq v) versions found)

allows :
    (versions : Option (List String)) (v : String)
    → IsAllowed versions v
    → schema_allowed versions v ≡ true
allows none v h = refl
allows (some versions) v m = any_of_mem (str_eq v) versions ((str_eq_iff v v).1 refl) m

three : (a b c : Bool) → (a && (b && c)) ≡ true → (a ≡ true) × (b ≡ true) × (c ≡ true)
three a b c h = ground arith

claimable-IsDue :
    (now : ℕ) (versions : Option (List String)) (r : OutboxEvent)
    → is_claimable now versions r ≡ true
    → IsDue now versions r
claimable-IsDue now versions r h =
    let (o, t, v) =
      three (is_open r.status) (leb r.available_at now) (schema_allowed versions r.schema_version)
        h in
    (open_status r.status o, ground (arith, t), allowed versions r.schema_version v)

IsDue-claimable :
    (now : ℕ) (versions : Option (List String)) (r : OutboxEvent)
    → IsDue now versions r
    → is_claimable now versions r ≡ true
IsDue-claimable now versions r (s, t, v) =
    let ripe : leb r.available_at now ≡ true = ground (arith, t) in
    rw (status_open r.status s, ripe, allows versions r.schema_version v) refl

length-take_le {ℓ} : {A : Type ℓ} (n : ℕ) (xs : List A) → length (take n xs) ≤ n
length-take_le zero xs = omega arith
length-take_le (suc n) [] = omega arith
length-take_le (suc n) (x ∷ xs) = omega (arith, length-take_le n xs)

module _ (now : ℕ) (versions : Option (List String)) (locked : ℕ → Bool) (batch_size : ℕ)
    (rows : List OutboxEvent) where
  candidates-IsSorted :
      IsSorted claim_order (
        keep (λ r. not (locked r.id)) (sort_by claim_order (keep (is_claimable now versions) rows)))
  candidates-IsSorted =
      keep-IsSorted claim_order (λ r. not (locked r.id)) _
        (sort_by-IsSorted (by_availability-IsOrder (λ r. r.available_at) (λ r. r.created_at))
          (keep (is_claimable now versions) rows))

  -- A claim takes at most as many events as its batch holds, in the order of `available_at`, then
  -- `created_at`. Each is an event of the table that is due, PENDING or PUBLISHING, of a version that
  -- the worker may claim, and that no other transaction holds.
  pub select_claimable-IsDue :
      let chosen = select_claimable now versions locked batch_size rows in
      IsQueue chosen
      × (length chosen ≤ batch_size)
      × All (λ r. Memᴰ r rows × IsDue now versions r × (locked r.id ≡ false)) chosen
  unfolding select_claimable
  select_claimable-IsDue = (
    IsSorted-IsQueue _ (take-IsSorted claim_order batch_size _ candidates-IsSorted),
    length-take_le batch_size _,
    All-take (λ r. Memᴰ r rows × IsDue now versions r × (locked r.id ≡ false)) batch_size _
        (All-keep (λ r. Memᴰ r rows × IsDue now versions r)
          (λ r. Memᴰ r rows × IsDue now versions r × (locked r.id ≡ false)) (λ r. not (locked r.id))
          (λ r e h. (h.0, h.1, ground (arith, e))) _
          (All-sort_by claim_order (λ r. Memᴰ r rows × IsDue now versions r) _
            (All-keep (λ r. Memᴰ r rows) (λ r. Memᴰ r rows × IsDue now versions r)
              (is_claimable now versions) (λ r e m. (m, claimable-IsDue now versions r e)) rows
              (All-of_mem (λ r. Memᴰ r rows) rows (λ r m. m))))),
  )

  -- An event of the table that is due and that no other transaction holds is left waiting only by a
  -- batch that is full, and whose events all come before it.
  pub select_claimable_fair :
      (r : OutboxEvent)
      → Memᴰ r rows
      → IsDue now versions r
      → locked r.id ≡ false
      → ¬ Memᴰ r (select_claimable now versions locked batch_size rows)
      → (length (select_claimable now versions locked batch_size rows) ≡ batch_size)
        × All (λ s. ComesBefore s r) (select_claimable now versions locked batch_size rows)
  unfolding select_claimable
  select_claimable_fair r m due free out =
      let (full, before) =
        take_before claim_order batch_size _ candidates-IsSorted
          (mem-keep (λ r. not (locked r.id)) _ (rw free refl)
            (mem-sort_by claim_order _
              (mem-keep (is_claimable now versions) rows (IsDue-claimable now versions r due) m)))
          out in
      (
        full,
        All-imp (λ s. claim_order s r ≡ true) (λ s. ComesBefore s r)
            (λ s. claim_order-ComesBefore s r) _ before,
      )
