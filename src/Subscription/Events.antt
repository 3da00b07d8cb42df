-- ===== src/Subscription/Events.antt =====
-- packages/webhook-api/src/domain/subscription/events: the domain events; and the domain's port
-- packages/webhook-api/src/domain/ports/clock.port.ts.
use webhook_idp.Common.Text.{Text}
use webhook_idp.Common.{ℕ, ◌+◌}

-- A `Date`, as its milliseconds.
abbrev pub Date : Type 0
Date = ℕ

pub data EventClass : Type 0 where
  subscription_created subscription_paused subscription_resumed subscription_deleted : EventClass

pub record DomainEvent : Type 0 where
  pub class : EventClass
  pub aggregate_id : Text
  pub occurred_at : Date

-- The clock: what it will read, and how often it has been read.
pub record Clock : Type 0 where
  pub readings : ℕ → Date
  pub reads : ℕ

-- `clock.now()`: the reading, and the clock after it.
abbrev pub now : Clock → Date
now c = c.readings c.reads

abbrev pub tick : Clock → Clock
tick c = record c { reads = c.reads + 1 }
