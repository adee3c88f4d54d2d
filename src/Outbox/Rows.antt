-- ===== src/Outbox/Rows.antt =====
-- What holds of one outbox row between two transactions, and that every write keeps it.
use projectree.Base.{ℕ, ◌≤◌, ◌<◌, ◌≡◌, true, Option, none, some, String, arith}
use projectree.Outbox.{
  OutboxStatus, OutboxEvent, publishing, dead, is_publishing, is_open, claim_row, succeed, fail,
}

-- A claimed row carries a token that was drawn, any other row none (ck_outbox_event_claim_owner).
abbrev pub TokenFits : ℕ → OutboxStatus → Option ℕ → Type 0
TokenFits bound publishing (some t) = t < bound
TokenFits bound publishing none = ⊥
TokenFits bound _ none = Unit
TokenFits bound _ (some _) = ⊥

-- `bound` is the next token to be drawn.
pub record RowFits (bound : ℕ) (r : OutboxEvent) : Type 0 where
  pub token_fits : TokenFits bound r.status r.claim_token
  pub open_has_budget : is_open r.status ≡ true → r.attempt_count < r.max_attempts
  pub attempts_capped : r.attempt_count ≤ r.max_attempts
  pub dead_is_spent : r.status ≡ dead → r.attempt_count ≡ r.max_attempts

pub claim_row-RowFits :
    (now stall token bound : ℕ) (r : OutboxEvent)
    → token < bound
    → is_open r.status ≡ true
    → RowFits bound r
    → RowFits bound (claim_row now stall token r)
claim_row-RowFits now stall token bound r h o f = ground arith

pub succeed-RowFits :
    (now bound : ℕ) (r : OutboxEvent)
    → is_publishing r.status ≡ true
    → RowFits bound r
    → RowFits bound (succeed now r)
succeed-RowFits now bound r h f = ground arith

pub fail-RowFits :
    (now bound : ℕ) (error : String) (r : OutboxEvent)
    → is_publishing r.status ≡ true
    → RowFits bound r
    → RowFits bound (fail now error r)
fail-RowFits now bound error r h f = ground arith

pub RowFits-mono : (b c : ℕ) (r : OutboxEvent) → b ≤ c → RowFits b r → RowFits c r
RowFits-mono b c r h f = ground arith
