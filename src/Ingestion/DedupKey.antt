-- ===== src/Ingestion/DedupKey.antt =====
-- Where the dedup key of an event comes from.
use webhook_idp.Common.{◌≡◌, ap, ◌∙◌, inl, inr, Option, none, some, arith, Option-cases}
use webhook_idp.Common.Text.{Text}
use webhook_idp.Common.Exec.{ok, err, map_err}
use webhook_idp.Ingestion.Inbox.{DedupKey, dedup_key_from_string}
use webhook_idp.Ingestion.Store.{domain, unresolvable_dedup_key}
use webhook_idp.Ingestion.Ingest.{truthy, resolve_dedup_key}

-- `key` is the event's own id, or, where the event has none, the broker's id of the message.
pub data IsKeyOf (event_id broker_message_id : Option Text) (key : Text) : Type 0 where
  own : event_id ≡ some key → IsKeyOf event_id broker_message_id key
  native :
      (truthy event_id ≡ none)
      → broker_message_id ≡ some key
      → IsKeyOf event_id broker_message_id key

truthy-some : (t : Option Text) (x : Text) → truthy t ≡ some x → t ≡ some x
unfolding truthy
truthy-some none x h = absurd (ground arith)
truthy-some (some t) x h = ground arith

dedup_key-value :
    (t : Text) (k : DedupKey) → map_err domain (dedup_key_from_string t) ≡ ok k → t ≡ k.value
unfolding dedup_key_from_string
dedup_key-value t k h = ground arith

-- A dedup key is never made up: one that is resolved is the event's own id or the broker's, and
-- where neither is there, or both are empty, there is none.
pub resolve_dedup_key_lem :
    (event_id broker_message_id : Option Text)
    → ((k : DedupKey)
        → resolve_dedup_key event_id broker_message_id ≡ ok k
        → IsKeyOf event_id broker_message_id k.value)
      × (truthy event_id ≡ none
          → truthy broker_message_id ≡ none
          → resolve_dedup_key event_id broker_message_id ≡ err unresolvable_dedup_key)
unfolding resolve_dedup_key
resolve_dedup_key_lem event_id broker_message_id = elim (Option-cases (truthy event_id)) [
  | inr (t, e) ↦ (
    (λ k h. own (truthy-some event_id t e ∙ ap some (dedup_key-value t k (ground arith)))),
    (λ a b. absurd (ground arith)),
  )
  | inl e ↦ elim (Option-cases (truthy broker_message_id)) [
    | inr (t, f) ↦ (
      (λ k h.
          native e
            (truthy-some broker_message_id t f ∙ ap some (dedup_key-value t k (ground arith)))),
      (λ a b. absurd (ground arith)),
    )
    | inl f ↦ ((λ k h. absurd (ground arith)), (λ a b. ground arith))
  ]
]
