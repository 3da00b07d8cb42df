-- ===== src/Ingestion/Interleaving/Answered.antt =====
-- What the broker is told, however the handlers' steps interleave.
use webhook_idp.Common.{
  ℕ, ◌+◌, ◌≡◌, refl, ap, ◌∙◌, ◌⊎◌, inl, inr, Bool, false, Option, none, some, List, [], ◌∷◌, arith,
  if◌then◌else◌, ◌==◌, All, All-append,
}
use webhook_idp.Common.Text.{Text}
use webhook_idp.Common.Exec.{Result, ok, err}
use webhook_idp.Ingestion.Inbox.{Json, InboxRecord}
use webhook_idp.Ingestion.Store.{Exception, InboxRepository}
use webhook_idp.Ingestion.Ingest.{World}
use webhook_idp.Ingestion.Runtime.{Validators, Settlement, ack, nack, settlement}
use webhook_idp.Ingestion.Interleaving.{
  replied, storing, Task, Answer, System, result_of, received, refused, stored, answered, Reach,
  here, next, sum,
}
use webhook_idp.Ingestion.Interleaving.Calls.{sum-append}

unfoldable pub is_tag : ℕ → ℕ → ℕ
is_tag tag other = if tag == other then 1 else 0

abbrev tag_of : Settlement → ℕ
tag_of (ack tag) = tag
tag_of (nack tag all_up_to requeue) = tag

-- The handlers under way, and the answers given, for a message.
abbrev pub tasks_for : ℕ → List Task → ℕ
tasks_for tag = sum (λ task. is_tag tag task.tag)

abbrev pub answers_for : ℕ → List Answer → ℕ
answers_for tag = sum (λ answer. is_tag tag (tag_of answer.settlement))

-- The answer fits the handler's reply: an acknowledgement of its message if the database replied
-- with a result, else a refusal that does not requeue.
abbrev pub IsFitting : Answer → Type 0
IsFitting answer =
    ((tag : ℕ) × (r : InboxRecord) × (inserted : Bool) × (answer.settlement ≡ ack tag)
      × (answer.call ≡ some (r, ok inserted)))
    ⊎ ((tag : ℕ) × (answer.settlement ≡ nack tag false false)
        × ((answer.call ≡ none)
            ⊎ ((r : InboxRecord) × (e : Exception) × (answer.call ≡ some (r, err e)))))

module _ (repo : InboxRepository) (v : Validators) (json_parse : Text → Option Json) where
  -- How often a message was delivered on the way.
  unfoldable pub deliveries : {s t : System repo.Db} → ℕ → Reach v json_parse repo s t → ℕ
  deliveries tag here = 0
  deliveries tag (next way (received msg r ready)) = deliveries tag way + is_tag tag msg.tag
  deliveries tag (next way (refused msg e thrown)) = deliveries tag way + is_tag tag msg.tag
  deliveries tag (next way (stored before after t r same)) = deliveries tag way
  deliveries tag (next way (answered before after t r reply same)) = deliveries tag way

  settled_tag :
      (tag : ℕ) (r : InboxRecord) (reply : Result Exception Bool)
      → tag_of (settlement v json_parse repo tag (result_of r reply)) ≡ tag
  unfolding result_of
  settled_tag tag r (ok inserted) = refl
  settled_tag tag r (err e) = refl

  reply-IsFitting :
      (tag : ℕ) (r : InboxRecord) (reply : Result Exception Bool)
      → IsFitting (record {
        settlement = settlement v json_parse repo tag (result_of r reply);
        call = some (r, reply);
      })
  unfolding result_of
  reply-IsFitting tag r (ok inserted) = inl (tag, r, inserted, refl, refl)
  reply-IsFitting tag r (err e) = inr (tag, refl, inr (r, e, refl))

  Reach-IsFitting :
      {s t : System repo.Db}
      → Reach v json_parse repo s t
      → All IsFitting s.answers
      → All IsFitting t.answers
  Reach-IsFitting here h = h
  Reach-IsFitting (next {t} way (received msg r ready)) h = Reach-IsFitting way h
  Reach-IsFitting (next {t} way (refused msg e thrown)) h =
      All-append IsFitting t.answers _ (Reach-IsFitting way h) (inr (msg.tag, refl, inl refl), tt)
  Reach-IsFitting (next {t} way (stored before after tag r same)) h = Reach-IsFitting way h
  Reach-IsFitting (next {t} way (answered before after tag r reply same)) h =
      All-append IsFitting t.answers _ (Reach-IsFitting way h) (reply-IsFitting tag r reply, tt)

  Reach-counted :
      (tag : ℕ) (w : World repo.Db) {t : System repo.Db}
      (way : Reach v json_parse repo (record { world = w; under_way = []; answers = [] }) t)
      → deliveries tag way ≡ tasks_for tag t.under_way + answers_for tag t.answers
  unfolding deliveries sum
  Reach-counted tag w here = refl
  Reach-counted tag w (next {t} way (received msg r ready)) = omega (
    arith,
    Reach-counted tag w way,
    sum-append (λ task. is_tag tag task.tag) t.under_way
        (record { tag = msg.tag; phase = storing r } ∷ []),
  )
  Reach-counted tag w (next {t} way (refused msg e thrown)) = omega (
    arith,
    Reach-counted tag w way,
    sum-append (λ answer. is_tag tag (tag_of answer.settlement)) t.answers
        (record { settlement = nack msg.tag false false; call = none } ∷ []),
  )
  Reach-counted tag w (next {t} way (stored before after u r same)) =
      let one = λ (task : Task). is_tag tag task.tag in
      let old : Task = record { tag = u; phase = storing r } in
      let new : Task = record {
        tag = u;
        phase = replied r (repo.upsert_by_dedup_key r t.world.db).0;
      } in
      let was = ap (sum one) same ∙ sum-append one before (old ∷ after) in
      omega (arith, Reach-counted tag w way, was, sum-append one before (new ∷ after))
  Reach-counted tag w (next {t} way (answered before after u r reply same)) =
      let one = λ (task : Task). is_tag tag task.tag in
      let old : Task = record { tag = u; phase = replied r reply } in
      let answer : Answer = record {
        settlement = settlement v json_parse repo u (result_of r reply);
        call = some (r, reply);
      } in
      let was = ap (sum one) same ∙ sum-append one before (old ∷ after) in
      let said = ap (is_tag tag) (settled_tag u r reply) in
      omega (
        arith,
        Reach-counted tag w way,
        was,
        said,
        sum-append one before after,
        sum-append (λ a. is_tag tag (tag_of a.settlement)) t.answers (answer ∷ []),
      )

  -- However the handlers' steps interleave, from a worker with no handler under way and no answer
  -- given: the deliveries of a tag are as many as the handlers under way for it and the answers given
  -- for it together, so that each delivery has one answer when no handler is under way. An answer is
  -- an acknowledgement if the database replied to its handler with a result, and a refusal without
  -- requeueing if it threw or the handler did before its call.
  pub Reach-answers :
      (w : World repo.Db) (t : System repo.Db)
      (way : Reach v json_parse repo (record { world = w; under_way = []; answers = [] }) t)
      → ((tag : ℕ) → deliveries tag way ≡ tasks_for tag t.under_way + answers_for tag t.answers)
        × All IsFitting t.answers
  Reach-answers w t way = ((λ tag. Reach-counted tag w way), Reach-IsFitting way tt)
