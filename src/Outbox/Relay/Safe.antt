-- ===== src/Outbox/Relay/Safe.antt =====
-- The relay's invariant, kept by every step of every worker.
use projectree.Base.{
  ℕ, ◌+◌, ◌≡◌, ◌≢◌, ◌≤◌, ◌<◌, refl, List, [], ◌∷◌, ◌++◌, Memᴰ, arith, length, All, All-imp,
  All-append, guarded-eq-some, inl, inr, any, Bool-cases, Option, String, Bool, some,
}
use mathlib.Core.Path.{sym, subst}
use projectree.Base.Table.{All-update_where, UniqueBy, UniqueBy-map, UniqueBy-append, when}
use projectree.Base.Json.{Json}
use projectree.Outbox
use projectree.Outbox.{
  OutboxEvent, Claim, published, is_publishing, is_open, claim_batch, record_success,
  record_failure, owns, is_pipeline_event_type, new_event, pending, emit_outbox_event,
  select_claimable,
}
use projectree.Outbox.Rows.{RowFits, RowFits-mono, claim_row-RowFits, succeed-RowFits, fail-RowFits}
use projectree.Outbox.Batch.{
  claim_each-tokens, length-claim_each, claim_each-UniqueBy, claim_each-All, claim_each-ids,
  select_claimable-OpenAt,
}
use projectree.Outbox.Relay.{
  World, Step, emit, claim, deliver, succeed, fail, Reach, here, next, start,
}

-- A published row's event was delivered.
abbrev pub WasSent : List Claim → OutboxEvent → Type 0
WasSent sent r = r.status ≡ published → (c : Claim) × Memᴰ c sent × (c.event_id ≡ r.id)

pub record IsSafe (w : World) : Type 0 where
  pub ids_unique : UniqueBy (λ r. r.id) w.rows
  pub rows_fit : All (RowFits w.next_token) w.rows
  pub published_sent : All (WasSent w.sent) w.rows
  pub tokens_drawn : All (λ c. c.claim_token < w.next_token) w.held
  pub tokens_unique : UniqueBy (λ c. c.claim_token) w.held

module _ (now stall : ℕ) (versions : Option (List String)) (locked : ℕ → Bool) (limit : ℕ) where
  claim_batch-IsSafe :
      (w : World)
      → IsSafe w
      → let (rows', claims) = claim_batch now stall versions locked limit w.next_token w.rows in
        IsSafe (record w {
          rows = rows';
          next_token = w.next_token + length claims;
          held = claims ++ w.held;
        })
  unfolding claim_batch
  claim_batch-IsSafe w s =
      let selected = select_claimable now versions locked limit w.rows in
      let open_at = select_claimable-OpenAt now versions locked limit w.rows s.ids_unique in
      let claims = (Outbox.claim_each now stall w.next_token selected w.rows).1 in
      let bound = w.next_token + length claims in
      record {
        ids_unique = claim_each-ids now stall w.next_token selected w.rows s.ids_unique;
        rows_fit =
            claim_each-All now stall (RowFits bound) bound
              (λ t r b o f. claim_row-RowFits now stall t bound r b o f) w.next_token selected
              w.rows (omega (arith, length-claim_each now stall w.next_token selected w.rows))
              open_at
              (All-imp (RowFits w.next_token) (RowFits bound)
                (λ r f. RowFits-mono w.next_token bound r (omega arith) f) w.rows s.rows_fit);
        published_sent =
            claim_each-All now stall (WasSent w.sent) bound (λ t r b o q p. ground arith)
              w.next_token selected w.rows
              (omega (arith, length-claim_each now stall w.next_token selected w.rows)) open_at
              s.published_sent;
        tokens_drawn =
            All-append (λ c. c.claim_token < bound) claims w.held
              (All-imp (λ c. (w.next_token ≤ c.claim_token) × (c.claim_token < bound))
                (λ c. c.claim_token < bound) (λ c h. h.1) claims
                (claim_each-tokens now stall w.next_token selected w.rows))
              (All-imp (λ c. c.claim_token < w.next_token) (λ c. c.claim_token < bound)
                (λ c h. omega arith) w.held s.tokens_drawn);
        tokens_unique =
            UniqueBy-append (λ c. c.claim_token) claims w.held
              (claim_each-UniqueBy now stall w.next_token selected w.rows) s.tokens_unique
              (All-imp (λ c. (w.next_token ≤ c.claim_token) × (c.claim_token < bound))
                (λ c. All (λ d. c.claim_token ≢ d.claim_token) w.held)
                (λ c h.
                  All-imp (λ d. d.claim_token < w.next_token) (λ d. c.claim_token ≢ d.claim_token)
                    (λ d k. omega arith) w.held s.tokens_drawn)
                claims (claim_each-tokens now stall w.next_token selected w.rows));
      }

module _ (now : ℕ) (c : Claim) where
  record_success-IsSafe :
      (w : World)
      → Memᴰ c w.sent
      → IsSafe w
      → IsSafe (record w { rows = (record_success now c.event_id c.claim_token w.rows).0 })
  unfolding record_success
  record_success-IsSafe w m s = elim (Bool-cases (any (owns c.event_id c.claim_token) w.rows)) [
    | inr e ↦ rw e (record {
      ids_unique = s.ids_unique;
      rows_fit = s.rows_fit;
      published_sent = s.published_sent;
      tokens_drawn = s.tokens_drawn;
      tokens_unique = s.tokens_unique;
    })
    | inl e ↦ rw e (record {
      ids_unique =
          UniqueBy-map (λ r. r.id) (when (owns c.event_id c.claim_token) (Outbox.succeed now))
            (λ r. ground arith) w.rows s.ids_unique;
      rows_fit =
          All-update_where (RowFits w.next_token) (RowFits w.next_token)
            (owns c.event_id c.claim_token) (Outbox.succeed now)
            (λ r o f. succeed-RowFits now w.next_token r (ground arith) f) (λ r o f. f) w.rows
            s.rows_fit;
      published_sent =
          All-update_where (WasSent w.sent) (WasSent w.sent) (owns c.event_id c.claim_token)
            (Outbox.succeed now) (λ r o f p. (c, m, ground arith)) (λ r o f. f) w.rows
            s.published_sent;
      tokens_drawn = s.tokens_drawn;
      tokens_unique = s.tokens_unique;
    })
  ]

  record_failure-IsSafe :
      (error : String) (w : World)
      → IsSafe w
      → IsSafe (record w { rows = (record_failure now c.event_id c.claim_token error w.rows).0 })
  unfolding record_failure
  record_failure-IsSafe error w s = record {
    ids_unique =
        UniqueBy-map (λ r. r.id) (when (owns c.event_id c.claim_token) (Outbox.fail now error))
          (λ r. ground arith) w.rows s.ids_unique;
    rows_fit =
        All-update_where (RowFits w.next_token) (RowFits w.next_token)
          (owns c.event_id c.claim_token) (Outbox.fail now error)
          (λ r o f. fail-RowFits now w.next_token error r (ground arith) f) (λ r o f. f) w.rows
          s.rows_fit;
    published_sent =
        All-update_where (WasSent w.sent) (WasSent w.sent) (owns c.event_id c.claim_token)
          (Outbox.fail now error) (λ r o f p. ground arith) (λ r o f. f) w.rows s.published_sent;
    tokens_drawn = s.tokens_drawn;
    tokens_unique = s.tokens_unique;
  }

pub emit-eq-some :
    (now fresh : ℕ) (event_type aggregate_type aggregate_id project_id : String) (payload : Json)
    (rows rows' : List OutboxEvent)
    → emit_outbox_event now fresh event_type aggregate_type aggregate_id project_id payload rows
      ≡ some rows'
    → rows ++ new_event now fresh event_type aggregate_type aggregate_id project_id payload ∷ []
      ≡ rows'
unfolding emit_outbox_event
emit-eq-some now fresh event_type aggregate_type aggregate_id project_id payload rows rows' h =
    (guarded-eq-some (is_pipeline_event_type event_type) _ rows' h).1

new_event-IsSafe :
    (w : World) (r : OutboxEvent)
    → All (λ s. r.id ≢ s.id) w.rows
    → RowFits w.next_token r
    → r.status ≡ pending
    → IsSafe w
    → IsSafe (record w { rows = w.rows ++ r ∷ [] })
new_event-IsSafe w r d f p s = record {
  ids_unique =
      UniqueBy-append (λ r. r.id) w.rows (r ∷ []) s.ids_unique (tt, tt)
        (All-imp (λ t. r.id ≢ t.id) (λ t. All (λ u. t.id ≢ u.id) (r ∷ []))
          (λ t n. ((λ e. n (sym e)), tt)) w.rows d);
  rows_fit = All-append (RowFits w.next_token) w.rows (r ∷ []) s.rows_fit (f, tt);
  published_sent =
      All-append (WasSent w.sent) w.rows (r ∷ []) s.published_sent ((λ q. ground arith), tt);
  tokens_drawn = s.tokens_drawn;
  tokens_unique = s.tokens_unique;
}

-- Every step of every worker keeps the invariant.
pub Step-IsSafe : {w v : World} → Step w v → IsSafe w → IsSafe v
Step-IsSafe (emit w now fresh event_type aggregate_type aggregate_id project_id payload rows' d e)
      s =
    subst (λ rows. IsSafe (record w { rows = rows }))
      (emit-eq-some now fresh event_type aggregate_type aggregate_id project_id payload w.rows rows'
        e)
      (new_event-IsSafe w
        (new_event now fresh event_type aggregate_type aggregate_id project_id payload) d
        (record {
          token_fits = tt;
          open_has_budget = λ o. omega arith;
          attempts_capped = omega arith;
          dead_is_spent = λ o. cc;
        })
        refl s)
Step-IsSafe (claim w now stall versions locked batch_size) s =
    claim_batch-IsSafe now stall versions locked batch_size w s
Step-IsSafe (deliver w c m) s = record {
  ids_unique = s.ids_unique;
  rows_fit = s.rows_fit;
  published_sent =
      All-imp (WasSent w.sent) (WasSent (c ∷ w.sent))
        (λ r h p. let (d, n, e) = h p in (d, Memᴰ.tail n, e)) w.rows s.published_sent;
  tokens_drawn = s.tokens_drawn;
  tokens_unique = s.tokens_unique;
}
Step-IsSafe (succeed w c now m) s = record_success-IsSafe now c w m s
Step-IsSafe (fail w c now error m) s = record_failure-IsSafe now c error w s

-- From the empty table on, whatever the workers do and in whatever order.
pub Reach-IsSafe : {w : World} → Reach start w → IsSafe w
Reach-IsSafe here = record {
  ids_unique = tt;
  rows_fit = tt;
  published_sent = tt;
  tokens_drawn = tt;
  tokens_unique = tt;
}
Reach-IsSafe (next r st) = Step-IsSafe st (Reach-IsSafe r)
