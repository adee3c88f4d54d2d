-- ===== src/Outbox/Counts.antt =====
-- The counts that a relay round returns: with no other worker about, every claimed event is
-- accounted for once.

use projectree.Base.{
  ℕ, suc, ◌+◌, ◌≡◌, ◌≢◌, refl, sym, true, false, Bool, Option, some, List, [], ◌∷◌, Memᴰ, String,
  arith, length, any, ◌==◌, ==_refl, All, All-imp, All-and, any-map, any-map_of, any_of_mem,
  find_of_any, Option-cases, inl, inr, All-take, All-keep, All-of_mem, not,
}
use projectree.Base.Sorting.{All-sort_by}
use projectree.Base.Table.{
  UniqueBy, update_where, when, UniqueBy-take, UniqueBy-keep, UniqueBy-sort_by,
}
use projectree.Outbox.{
  OutboxEvent, Claim, Environment, Progress, owns, succeed, fail, claim_row, claim_each,
  claim_batch, select_claimable, is_claimable, claim_order, count_failure, publish_one,
  publish_each, record_success, record_failure, publish_pending_events, OutboxStatus, PublishResult,
  OutboxMessage, no_versions, idle,
}
use projectree.Outbox.Batch.{claim_each-UniqueBy, length-claim_each}

abbrev pub IsOwned : List OutboxEvent → Claim → Type 0
IsOwned rows c = any (owns c.event_id c.claim_token) rows ≡ true

-- A claim of one row leaves the owners of the others as they were.
owns-claim_row :
    (now stall token event_id t : ℕ) (s r : OutboxEvent)
    → s.id ≢ event_id
    → owns event_id t (when (λ r. r.id == s.id) (claim_row now stall token) r) ≡ owns event_id t r
owns-claim_row now stall token event_id t s r d = ground arith

owns-claim_each :
    (now stall token event_id t : ℕ) (selected rows : List OutboxEvent)
    → All (λ s. event_id ≢ s.id) selected
    → any (owns event_id t) (claim_each now stall token selected rows).0
      ≡ any (owns event_id t) rows
unfolding claim_each
owns-claim_each now stall token event_id t [] rows d = refl
owns-claim_each now stall token event_id t (s ∷ selected) rows d =
    rw
      (owns-claim_each now stall (suc token) event_id t selected
        (update_where (λ r. r.id == s.id) (claim_row now stall token) rows) d.1)
      (any-map (owns event_id t) (when (λ r. r.id == s.id) (claim_row now stall token)) rows
        (λ r. owns-claim_row now stall token event_id t s r (λ e. d.0 (sym e))))

-- After the claim loop each claim owns its row.
claim_each-IsOwned :
    (now stall token : ℕ) (selected rows : List OutboxEvent)
    → UniqueBy (λ s. s.id) selected
    → All (λ s. any (λ r. r.id == s.id) rows ≡ true) selected
    → All
        (IsOwned (claim_each now stall token selected rows).0)
        (claim_each now stall token selected rows).1
unfolding claim_each
claim_each-IsOwned now stall token [] rows u m = tt
claim_each-IsOwned now stall token (s ∷ selected) rows u m =
    let rows' = update_where (λ r. r.id == s.id) (claim_row now stall token) rows in
    (
      rw (owns-claim_each now stall (suc token) s.id token selected rows' u.0) (
          any-map_of (owns s.id token) (λ r. r.id == s.id)
            (when (λ r. r.id == s.id) (claim_row now stall token)) (λ r e. ground arith) rows m.0),
      claim_each-IsOwned now stall (suc token) selected rows' u.1 (
          All-imp (λ z. any (λ r. r.id == z.id) rows ≡ true)
            (λ z. any (λ r. r.id == z.id) rows' ≡ true)
            (λ z h.
              any-map_of (λ r. r.id == z.id) (λ r. r.id == z.id)
                (when (λ r. r.id == s.id) (claim_row now stall token)) (λ r e. ground arith) rows h)
            selected m.1),
    )

module _ (now : ℕ) (versions : Option (List String)) (locked : ℕ → Bool) (limit : ℕ) where
  select_claimable-UniqueBy :
      (rows : List OutboxEvent)
      → UniqueBy (λ r. r.id) rows
      → UniqueBy (λ r. r.id) (select_claimable now versions locked limit rows)
  unfolding select_claimable
  select_claimable-UniqueBy rows u =
      UniqueBy-take (λ r. r.id) limit _
        (UniqueBy-keep (λ r. r.id) (λ r. not (locked r.id)) _
          (UniqueBy-sort_by (λ r. r.id) claim_order _
            (UniqueBy-keep (λ r. r.id) (is_claimable now versions) rows u)))

  -- Selected rows satisfy what all rows of the table do.
  pub select_claimable-All {κ} :
      (P : OutboxEvent → Type κ) (rows : List OutboxEvent)
      → All P rows
      → All
          (λ r. P r × (is_claimable now versions r ≡ true))
          (select_claimable now versions locked limit rows)
  unfolding select_claimable
  select_claimable-All P rows h =
      let Q = λ (r : OutboxEvent). P r × (is_claimable now versions r ≡ true) in
      All-take Q limit _ (
        All-keep Q Q (λ r. not (locked r.id)) (λ r e q. q) _
          (All-sort_by claim_order Q _
            (All-keep P Q (is_claimable now versions) (λ r e q. (q, e)) rows h)))

-- A write by the owner of one token leaves the owners of other tokens.
owns-write :
    (c : Claim) (event_id t : ℕ) (f : OutboxEvent → OutboxEvent) (r : OutboxEvent)
    → (owns event_id t (f r) ≡ false)
    → c.claim_token ≢ t
    → owns event_id t (when (owns c.event_id c.claim_token) f r) ≡ owns event_id t r
owns-write c event_id t f r cleared d = ground arith

fail_clears :
    (now event_id t : ℕ) (error : String) (r : OutboxEvent)
    → owns event_id t (fail now error r) ≡ false
fail_clears now event_id t error r = ground arith

abbrev total : Progress → ℕ
total p = p.published + p.failed + p.dead

failed_total :
    (now : ℕ) (error : String) (r : OutboxEvent) (p : Progress) (rows : List OutboxEvent)
    → total (count_failure (some (fail now error r).status) (record p { rows = rows }))
      ≡ suc (total p)
failed_total now error r p rows = ground arith

-- One claimed event whose claim still stands: it is counted once, and the other claims still stand.
publish_one_total :
    (env : Environment) (c : Claim) (p : Progress)
    → IsOwned p.rows c
    → total (publish_one env c p) ≡ suc (total p)
unfolding publish_one record_success record_failure
publish_one_total env c p o = elim (Option-cases (env.publish c.message)) [
  | inl e ↦ rw (e, o) (omega arith)
  | inr (error, e) ↦
      let (r, f, t) = find_of_any (owns c.event_id c.claim_token) p.rows o in
      rw (e, f) (failed_total (env.clock c) error r p _)
]

-- Counting touches no row.
rows-count_failure : (o : Option OutboxStatus) (p : Progress) → (count_failure o p).rows ≡ p.rows
rows-count_failure o p = ground arith

IsOwned-write :
    (c d : Claim) (f : OutboxEvent → OutboxEvent) (rows : List OutboxEvent)
    → ((r : OutboxEvent) → owns d.event_id d.claim_token (f r) ≡ false)
    → c.claim_token ≢ d.claim_token
    → IsOwned rows d
    → IsOwned (update_where (owns c.event_id c.claim_token) f rows) d
IsOwned-write c d f rows cleared n o =
    rw
      (any-map (owns d.event_id d.claim_token) (when (owns c.event_id c.claim_token) f) rows
        (λ r. owns-write c d.event_id d.claim_token f r (cleared r) n))
      o

publish_one-IsOwned :
    (env : Environment) (c d : Claim) (p : Progress)
    → IsOwned p.rows c
    → c.claim_token ≢ d.claim_token
    → IsOwned p.rows d
    → IsOwned (publish_one env c p).rows d
unfolding publish_one record_success record_failure
publish_one-IsOwned env c d p h n o = elim (Option-cases (env.publish c.message)) [
  | inl e ↦ rw (e, h) (IsOwned-write c d (succeed (env.clock c)) p.rows (λ r. ground arith) n o)
  | inr (error, e) ↦
      rw (e, rows-count_failure)
        (IsOwned-write c d (fail (env.clock c) error) p.rows
          (fail_clears (env.clock c) d.event_id d.claim_token error) n o)
]

publish_each_total :
    (env : Environment) (claims : List Claim) (p : Progress)
    → UniqueBy (λ c. c.claim_token) claims
    → All (IsOwned p.rows) claims
    → total (publish_each env claims p) ≡ total p + length claims
unfolding publish_each
publish_each_total env [] p u o = omega arith
publish_each_total env (c ∷ claims) p u o = omega (
  arith,
  publish_one_total env c p o.0,
  publish_each_total env claims (publish_one env c p) u.1 (
      All-imp (λ d. (c.claim_token ≢ d.claim_token) × IsOwned p.rows d)
        (IsOwned (publish_one env c p).rows) (λ d q. publish_one-IsOwned env c d p o.0 q.0 q.1)
        claims (All-and (λ d. c.claim_token ≢ d.claim_token) (IsOwned p.rows) claims u.0 o.1)),
)

-- On a table with unique identifiers, a relay round that is given some schema versions, or none to
-- filter by, and that no other worker interrupts returns a result. It claims as many events as its
-- statement selects, and counts each of them exactly once, as published, failed or dead, whatever the
-- transport answers.
pub publish_pending_events_total :
    (env : Environment) (now stall : ℕ) (versions : Option (List String)) (locked : ℕ → Bool)
    (batch_size token : ℕ) (rows : List OutboxEvent)
    → UniqueBy (λ r. r.id) rows
    → no_versions versions ≡ false
    → (rows' : List OutboxEvent) × (sent : List OutboxMessage) × (result : PublishResult)
      × (publish_pending_events env now stall versions locked batch_size token rows
          ≡ some (rows', sent, result))
      × (result.published + result.failed + result.dead ≡ result.claimed)
      × (result.claimed ≡ length (select_claimable now versions locked batch_size rows))
unfolding publish_pending_events claim_batch
publish_pending_events_total env now stall versions locked batch_size token rows u v =
    let selected = select_claimable now versions locked batch_size rows in
    let batch = claim_each now stall token selected rows in
    let owned =
      claim_each-IsOwned now stall token selected rows
        (select_claimable-UniqueBy now versions locked batch_size rows u)
        (All-imp (λ s. Memᴰ s rows × (is_claimable now versions s ≡ true))
          (λ s. any (λ r. r.id == s.id) rows ≡ true)
          (λ s m. any_of_mem (λ r. r.id == s.id) rows (==_refl s.id) m.0) selected
          (select_claimable-All now versions locked batch_size (λ s. Memᴰ s rows) rows
            (All-of_mem (λ s. Memᴰ s rows) rows (λ s m. m)))) in
    let done = publish_each env batch.1 (idle batch.0) in
    (
      done.rows,
      done.sent,
      record {
        claimed = length batch.1;
        published = done.published;
        failed = done.failed;
        dead = done.dead;
      },
      rw v,
      omega (
        arith,
        publish_each_total env batch.1 (idle batch.0)
            (claim_each-UniqueBy now stall token selected rows) owned,
      ),
      length-claim_each now stall token selected rows,
    )
