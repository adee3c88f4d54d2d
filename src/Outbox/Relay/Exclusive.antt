-- ===== src/Outbox/Relay/Exclusive.antt =====
-- Which rows no step touches any more.
use projectree.Base.{
  ◌≡◌, ◌⊎◌, inl, inr, true, Memᴰ, List, ◌∷◌, [], All, All-mem, All-imp, suc, any, ◌==◌, arith, ℕ,
  Bool-cases,
}
use mathlib.Core.List.Memᴰ
use mathlib.Core.Path.{subst}
use projectree.Base.Table.{mem-map_fixed, when, update_where}
use projectree.Outbox.Batch.{OpenAt, OpenAt-claim_row, select_claimable-OpenAt}
use projectree.Outbox
use projectree.Outbox.{
  OutboxEvent, OutboxStatus, published, dead, owns, Claim, is_open, claim_each, claim_row,
  claim_batch, select_claimable, record_success, record_failure,
}
use projectree.Outbox.Relay.{World, Step, emit, claim, deliver, succeed, fail}
use projectree.Outbox.Relay.Safe.{IsSafe, emit-eq-some}

-- PUBLISHED and DEAD
abbrev pub IsFinal : OutboxEvent → Type 0
IsFinal r = (r.status ≡ published) ⊎ (r.status ≡ dead)

-- A write by the owner leaves a final row alone.
owned_write_fixed :
    (event_id token : ℕ) (f : OutboxEvent → OutboxEvent) (r : OutboxEvent)
    → IsFinal r
    → when (owns event_id token) f r ≡ r
owned_write_fixed event_id token f r final = ground arith

claim_write_fixed :
    (now stall token : ℕ) (s r : OutboxEvent)
    → IsFinal r
    → (r.id ≡ s.id → is_open r.status ≡ true)
    → when (λ r. r.id == s.id) (claim_row now stall token) r ≡ r
claim_write_fixed now stall token s r final o = ground arith

mem-claim_each :
    (now stall token : ℕ) {r : OutboxEvent} (selected rows : List OutboxEvent)
    → IsFinal r
    → All (λ s. OpenAt s rows) selected
    → Memᴰ r rows
    → Memᴰ r (claim_each now stall token selected rows).0
unfolding claim_each
mem-claim_each now stall token [] rows final o m = m
mem-claim_each now stall token {r} (s ∷ selected) rows final o m =
    mem-claim_each now stall (suc token) selected
      (update_where (λ r. r.id == s.id) (claim_row now stall token) rows) final
      (All-imp (λ z. OpenAt z rows)
        (λ z. OpenAt z (update_where (λ r. r.id == s.id) (claim_row now stall token) rows))
        (λ z. OpenAt-claim_row now stall token s z rows) selected o.1)
      (mem-map_fixed (when (λ r. r.id == s.id) (claim_row now stall token))
        (claim_write_fixed now stall token s r final
          (All-mem (λ r. r.id ≡ s.id → is_open r.status ≡ true) rows o.0 m))
        m)

-- A published or dead row is never written again, by whatever worker and however late.
pub final_frozen :
    {w v : World} {r : OutboxEvent}
    → IsSafe w
    → Step w v
    → IsFinal r
    → Memᴰ r w.rows
    → Memᴰ r v.rows
unfolding claim_batch record_success record_failure
final_frozen s
      (emit w now fresh event_type aggregate_type aggregate_id project_id payload rows' d e) final
      m =
    subst (Memᴰ _)
      (emit-eq-some now fresh event_type aggregate_type aggregate_id project_id payload w.rows rows'
        e)
      (Memᴰ.append_left _ m)
final_frozen s (claim w now stall versions locked batch_size) final m =
    mem-claim_each now stall w.next_token (select_claimable now versions locked batch_size w.rows)
      w.rows final (select_claimable-OpenAt now versions locked batch_size w.rows s.ids_unique) m
final_frozen s (deliver w c h) final m = m
final_frozen {r = r} s (succeed w c now h) final m =
    elim (Bool-cases (any (owns c.event_id c.claim_token) w.rows)) [
      | inl e ↦ rw e (
          mem-map_fixed _ (owned_write_fixed c.event_id c.claim_token (Outbox.succeed now) r final)
            m)
      | inr e ↦ rw e m
    ]
final_frozen {r = r} s (fail w c now error h) final m =
    mem-map_fixed _ (owned_write_fixed c.event_id c.claim_token (Outbox.fail now error) r final) m
