-- ===== src/Outbox/Batch.antt =====
-- The claim loop: what its tokens are, and what it leaves of the table.
use projectree.Base.{
  ℕ, suc, ◌+◌, ◌≤◌, ◌<◌, ◌≢◌, ◌≡◌, refl, ap, Bool, true, not, Option, List, [], ◌∷◌, Memᴰ, String,
  arith, length, ◌==◌, ==_iff, All, All-imp, All-and, All-take, All-keep, All-of_mem,
}
use projectree.Base.Sorting.{All-sort_by}
use projectree.Base.Table.{
  All-update_where, UniqueBy, UniqueBy-eq, UniqueBy-map, update_where, when,
}
use projectree.Outbox.{
  OutboxEvent, is_open, is_claimable, claim_order, claim_row, claim_each, select_claimable,
}

-- Every row of the table with the identifier of `s` is open.
abbrev pub OpenAt : OutboxEvent → List OutboxEvent → Type 0
OpenAt s rows = All (λ r. r.id ≡ s.id → is_open r.status ≡ true) rows

pub OpenAt-claim_row :
    (now stall token : ℕ) (s z : OutboxEvent) (rows : List OutboxEvent)
    → OpenAt z rows
    → OpenAt z (update_where (λ r. r.id == s.id) (claim_row now stall token) rows)
OpenAt-claim_row now stall token s z rows =
    All-update_where (λ r. r.id ≡ z.id → is_open r.status ≡ true)
      (λ r. r.id ≡ z.id → is_open r.status ≡ true) (λ r. r.id == s.id) (claim_row now stall token)
      (λ r e h k. refl) (λ r e h. h) rows

open_of_claimable :
    (now : ℕ) (versions : Option (List String)) (s r : OutboxEvent)
    → r ≡ s
    → is_claimable now versions s ≡ true
    → is_open r.status ≡ true
open_of_claimable now versions s r e c = rw e (ground arith)

module _ (now stall : ℕ) where
  -- The tokens of a batch are drawn in order from `token` on.
  pub claim_each-tokens :
      (token : ℕ) (selected rows : List OutboxEvent)
      → All
          (λ c.
            (token ≤ c.claim_token)
            × (c.claim_token < token + length (claim_each now stall token selected rows).1))
          (claim_each now stall token selected rows).1
  unfolding claim_each
  claim_each-tokens token [] rows = tt
  claim_each-tokens token (s ∷ selected) rows =
      let rows' = update_where (λ r. r.id == s.id) (claim_row now stall token) rows in
      (
        (omega arith, omega arith),
        All-imp
            (λ c.
              (suc token ≤ c.claim_token)
              × (c.claim_token
                  < suc token + length (claim_each now stall (suc token) selected rows').1))
            (λ c.
              (token ≤ c.claim_token)
              × (c.claim_token
                  < token + suc (length (claim_each now stall (suc token) selected rows').1)))
            (λ c h. omega arith) (claim_each now stall (suc token) selected rows').1
            (claim_each-tokens (suc token) selected rows'),
      )

  pub claim_each-UniqueBy :
      (token : ℕ) (selected rows : List OutboxEvent)
      → UniqueBy (λ c. c.claim_token) (claim_each now stall token selected rows).1
  unfolding claim_each
  claim_each-UniqueBy token [] rows = tt
  claim_each-UniqueBy token (s ∷ selected) rows =
      let rows' = update_where (λ r. r.id == s.id) (claim_row now stall token) rows in
      (
        All-imp
            (λ c.
              (suc token ≤ c.claim_token)
              × (c.claim_token
                  < suc token + length (claim_each now stall (suc token) selected rows').1))
            (λ c. token ≢ c.claim_token) (λ c h. omega arith)
            (claim_each now stall (suc token) selected rows').1
            (claim_each-tokens (suc token) selected rows'),
        claim_each-UniqueBy (suc token) selected rows',
      )

  pub length-claim_each :
      (token : ℕ) (selected rows : List OutboxEvent)
      → length (claim_each now stall token selected rows).1 ≡ length selected
  unfolding claim_each
  length-claim_each token [] rows = refl
  length-claim_each token (s ∷ selected) rows = ap suc (length-claim_each (suc token) selected _)

  module _ {κ} (P : OutboxEvent → Type κ) where
    -- What every claim of an open row keeps, the loop keeps.
    pub claim_each-All :
        (bound : ℕ)
        → ((t : ℕ) (r : OutboxEvent)
            → t < bound
            → is_open r.status ≡ true
            → P r
            → P (claim_row now stall t r))
        → (token : ℕ) (selected rows : List OutboxEvent) → token + length selected ≤ bound
        → All (λ s. OpenAt s rows) selected
        → All P rows
        → All P (claim_each now stall token selected rows).0
    unfolding claim_each
    claim_each-All bound keeps token [] rows le o h = h
    claim_each-All bound keeps token (s ∷ selected) rows le o h =
        claim_each-All bound keeps (suc token) selected
          (update_where (λ r. r.id == s.id) (claim_row now stall token) rows) (omega arith)
          (All-imp (λ z. OpenAt z rows)
            (λ z. OpenAt z (update_where (λ r. r.id == s.id) (claim_row now stall token) rows))
            (λ z. OpenAt-claim_row now stall token s z rows) selected o.1)
          (All-update_where (λ r. (r.id ≡ s.id → is_open r.status ≡ true) × P r) P
            (λ r. r.id == s.id) (claim_row now stall token)
            (λ r e q. keeps token r (omega arith) (q.0 ((==_iff r.id s.id).0 e)) q.1) (λ r e q. q.1)
            rows (All-and (λ r. r.id ≡ s.id → is_open r.status ≡ true) P rows o.0 h))

-- The loop changes no identifier.
pub claim_each-ids :
    (now stall token : ℕ) (selected rows : List OutboxEvent)
    → UniqueBy (λ r. r.id) rows
    → UniqueBy (λ r. r.id) (claim_each now stall token selected rows).0
unfolding claim_each
claim_each-ids now stall token [] rows u = u
claim_each-ids now stall token (s ∷ selected) rows u =
    claim_each-ids now stall (suc token) selected
      (update_where (λ r. r.id == s.id) (claim_row now stall token) rows)
      (UniqueBy-map (λ r. r.id) (when (λ r. r.id == s.id) (claim_row now stall token))
        (λ r. ground arith) rows u)

-- What a statement selects are open rows of the table.
pub select_claimable-OpenAt :
    (now : ℕ) (versions : Option (List String)) (locked : ℕ → Bool) (limit : ℕ)
    (rows : List OutboxEvent)
    → UniqueBy (λ r. r.id) rows
    → All (λ s. OpenAt s rows) (select_claimable now versions locked limit rows)
unfolding select_claimable
select_claimable-OpenAt now versions locked limit rows u =
    All-take (λ s. OpenAt s rows) limit _
      (All-keep (λ s. OpenAt s rows) (λ s. OpenAt s rows) (λ r. not (locked r.id)) (λ s e h. h) _
        (All-sort_by claim_order (λ s. OpenAt s rows) _
          (All-keep (λ s. Memᴰ s rows) (λ s. OpenAt s rows) (is_claimable now versions)
            (λ s c m.
              All-of_mem (λ r. r.id ≡ s.id → is_open r.status ≡ true) rows
                (λ r n e.
                  open_of_claimable now versions s r (UniqueBy-eq (λ r. r.id) rows u n m e) c))
            rows (All-of_mem (λ s. Memᴰ s rows) rows (λ s m. m)))))
