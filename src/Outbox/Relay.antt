-- ===== src/Outbox/Relay.antt =====
-- Any number of relay workers over one outbox table: every order in which their transactions and
-- deliveries can come, with workers that crash, stall, or answer late.
pub mod Safe
pub mod Exclusive
use projectree.Base.{
  ℕ, ◌+◌, ◌≡◌, Bool, Option, some, List, [], ◌++◌, Memᴰ, String, length, All, ◌≢◌, ◌∷◌,
}
use projectree.Base.Json.{Json}
use projectree.Outbox.{
  OutboxEvent, Claim, emit_outbox_event, claim_batch, record_success, record_failure,
}

-- The table, the tokens drawn, the claims handed to workers, and those whose event was delivered.
pub record World : Type 0 where
  pub rows : List OutboxEvent
  pub next_token : ℕ
  pub held : List Claim
  pub sent : List Claim

abbrev pub start : World
start = record { rows = []; next_token = 0; held = []; sent = [] }

-- A crash is a worker that takes no further step. A delivery whose outcome is never recorded, and an
-- outcome that is recorded late or twice, are such sequences too.
pub data Step : World → World → Type 0 where
  emit :
      (w : World) (now fresh : ℕ) (event_type aggregate_type aggregate_id project_id : String)
      (payload : Json) (rows' : List OutboxEvent)
      → All (λ r. fresh ≢ r.id) w.rows
      → emit_outbox_event now fresh event_type aggregate_type aggregate_id project_id payload w.rows
        ≡ some rows'
      → Step w (record w { rows = rows' })
  claim :
      (w : World) (now stall : ℕ) (versions : Option (List String)) (locked : ℕ → Bool)
      (batch_size : ℕ)
      → Step w (record w {
        rows = (claim_batch now stall versions locked batch_size w.next_token w.rows).0;
        next_token =
            w.next_token
            + length (claim_batch now stall versions locked batch_size w.next_token w.rows).1;
        held = (claim_batch now stall versions locked batch_size w.next_token w.rows).1 ++ w.held;
      })
  deliver : (w : World) (c : Claim) → Memᴰ c w.held → Step w (record w { sent = c ∷ w.sent })
  succeed :
      (w : World) (c : Claim) (now : ℕ)
      → Memᴰ c w.sent
      → Step w (record w { rows = (record_success now c.event_id c.claim_token w.rows).0 })
  fail :
      (w : World) (c : Claim) (now : ℕ) (error : String)
      → Memᴰ c w.held
      → Step w (record w { rows = (record_failure now c.event_id c.claim_token error w.rows).0 })

pub data Reach (w : World) : World → Type 0 where
  here : Reach w w
  next : {u v : World} → Reach w u → Step u v → Reach w v
