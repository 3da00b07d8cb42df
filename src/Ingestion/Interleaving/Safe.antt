-- ===== src/Ingestion/Interleaving/Safe.antt =====
-- What holds however the handlers' steps interleave.
use webhook_idp.Common.{
  ℕ, ◌+◌, ◌≤◌, ◌≡◌, refl, sym, ap, ◌∙◌, subst, Bool, false, Option, none, some, List, [], ◌∷◌, ◌++◌,
  arith, All, All-append, All-map, All-split,
}
use webhook_idp.Common.Text.{Text}
use webhook_idp.Common.Exec.{Result, ok, err}
use webhook_idp.Ingestion.Inbox.{Json, InboxRecord}
use webhook_idp.Ingestion.Store.{Exception, InboxRepository}
use webhook_idp.Ingestion.Ingest.{World, upsert}
use webhook_idp.Ingestion.Runtime.{Validators, ConsumeMessage, ack, nack, settlement}
use webhook_idp.Ingestion.Guarantees.{upsert-there}
use webhook_idp.Ingestion.Interleaving.{
  storing, replied, Task, Answer, System, result_of, prepare, Step, received, refused, stored,
  answered, Reach, here, next, inserts_task, inserts_answer, sum, insertions,
}
use webhook_idp.Ingestion.Interleaving.Calls.{sum-append, IsStored, held, fills, prepare-db}

module _ (repo : InboxRepository) (v : Validators) (json_parse : Text → Option Json) where
  -- What the database holds of a task whose call has returned, and of what was acknowledged.
  abbrev pub IsTaskStored : repo.Db → Task → Type 0
  IsTaskStored db task =
      (r : InboxRecord) (inserted : Bool)
      → task.phase ≡ replied r (ok inserted)
      → IsStored repo db r.dedup_key.value

  abbrev pub IsAnswerStored : repo.Db → Answer → Type 0
  IsAnswerStored db answer =
      (tag : ℕ)
      → answer.settlement ≡ ack tag
      → (r : InboxRecord) × (inserted : Bool) × (answer.call ≡ some (r, ok inserted))
        × IsStored repo db r.dedup_key.value

  pub record IsSafe (s : System repo.Db) : Type 0 where
    pub waiting : All (IsTaskStored s.world.db) s.under_way
    pub acknowledged : All (IsAnswerStored s.world.db) s.answers
    pub once : (key : Text) → insertions key s ≤ held (repo.stored s.world.db key)

  tasks-kept :
      (db db' : repo.Db) (tasks : List Task)
      → ((key : Text) → IsStored repo db key → IsStored repo db' key)
      → All (IsTaskStored db) tasks
      → All (IsTaskStored db') tasks
  tasks-kept db db' tasks k h =
      All-map (IsTaskStored db) (IsTaskStored db') tasks
        (λ t there r inserted e. k r.dedup_key.value (there r inserted e)) h

  answers-kept :
      (db db' : repo.Db) (answers : List Answer)
      → ((key : Text) → IsStored repo db key → IsStored repo db' key)
      → All (IsAnswerStored db) answers
      → All (IsAnswerStored db') answers
  answers-kept db db' answers k h =
      All-map (IsAnswerStored db) (IsAnswerStored db') answers
        (λ a there tag e.
          let (r, inserted, call, held_) = there tag e in
          (r, inserted, call, k r.dedup_key.value held_))
        h

  replied-stored :
      (db : repo.Db) (tag : ℕ) (r : InboxRecord)
      → IsTaskStored
          (repo.upsert_by_dedup_key r db).1
          (record { tag = tag; phase = replied r (repo.upsert_by_dedup_key r db).0 })
  replied-stored db tag r q inserted e =
      let same : r ≡ q = cc e in
      let done : (repo.upsert_by_dedup_key r db).0 ≡ ok inserted = cc e in
      let (doc, there, _) = upsert-there repo r db inserted done in
      subst (λ x. IsStored repo (repo.upsert_by_dedup_key r db).1 x.dedup_key.value) same
        (doc, there)

  answer-stored :
      (db : repo.Db) (tag : ℕ) (r : InboxRecord) (reply : Result Exception Bool)
      → IsTaskStored db (record { tag = tag; phase = replied r reply })
      → IsAnswerStored db (record {
        settlement = settlement v json_parse repo tag (result_of r reply);
        call = some (r, reply);
      })
  unfolding result_of
  answer-stored db tag r (ok inserted) there t e = (r, inserted, refl, there r inserted refl)
  answer-stored db tag r (err thrown) there t e = absurd (ground arith)

  received-IsSafe :
      (s : System repo.Db) (msg : ConsumeMessage) (r : InboxRecord)
      → IsSafe s
      → IsSafe
          (record s { under_way = s.under_way ++ record { tag = msg.tag; phase = storing r } ∷ [] })
  unfolding insertions inserts_task sum
  received-IsSafe s msg r safe =
      let task : Task = record { tag = msg.tag; phase = storing r } in
      record {
        waiting =
            All-append (IsTaskStored s.world.db) s.under_way (task ∷ []) safe.waiting
              ((λ q inserted e. absurd (ground arith)), tt);
        acknowledged = safe.acknowledged;
        once = λ key.
            omega (arith, sum-append (inserts_task key) s.under_way (task ∷ []), safe.once key);
      }

  refused-IsSafe :
      (s : System repo.Db) (msg : ConsumeMessage)
      → IsSafe s
      → IsSafe (record s {
        answers = s.answers ++ record { settlement = nack msg.tag false false; call = none } ∷ [];
      })
  unfolding insertions inserts_answer sum
  refused-IsSafe s msg safe =
      let answer : Answer = record { settlement = nack msg.tag false false; call = none } in
      record {
        waiting = safe.waiting;
        acknowledged =
            All-append (IsAnswerStored s.world.db) s.answers (answer ∷ []) safe.acknowledged
              ((λ tag e. absurd (ground arith)), tt);
        once = λ key.
            omega (arith, sum-append (inserts_answer key) s.answers (answer ∷ []), safe.once key);
      }

  stored-IsSafe :
      (s : System repo.Db) (before after : List Task) (tag : ℕ) (r : InboxRecord)
      → s.under_way ≡ before ++ record { tag = tag; phase = storing r } ∷ after
      → IsSafe s
      → IsSafe (record s {
        world = (upsert repo r s.world).1;
        under_way =
            before ++ record { tag = tag; phase = replied r (upsert repo r s.world).0 } ∷ after;
      })
  unfolding insertions inserts_task sum
  stored-IsSafe s before after tag r same safe =
      let db = s.world.db in
      let db' = (repo.upsert_by_dedup_key r db).1 in
      let old : Task = record { tag = tag; phase = storing r } in
      let new : Task = record { tag = tag; phase = replied r (repo.upsert_by_dedup_key r db).0 } in
      let kept : (key : Text) → IsStored repo db key → IsStored repo db' key =
        λ key (doc, there). (doc, repo.upsert-keeps r db key doc there) in
      let (b, (_, a)) =
        All-split (IsTaskStored db) before (old ∷ after)
          (subst (All (IsTaskStored db)) same safe.waiting) in
      record {
        waiting =
            All-append (IsTaskStored db') before (new ∷ after) (tasks-kept db db' before kept b)
              (replied-stored db tag r, tasks-kept db db' after kept a);
        acknowledged = answers-kept db db' s.answers kept safe.acknowledged;
        once = λ key.
            let was =
              ap (sum (inserts_task key)) same
              ∙ sum-append (inserts_task key) before (old ∷ after) in
            omega (
              arith,
              was,
              sum-append (inserts_task key) before (new ∷ after),
              safe.once key,
              fills repo key r db,
            );
      }

  answered-IsSafe :
      (s : System repo.Db) (before after : List Task) (tag : ℕ) (r : InboxRecord)
      (reply : Result Exception Bool)
      → s.under_way ≡ before ++ record { tag = tag; phase = replied r reply } ∷ after
      → IsSafe s
      → IsSafe (record s {
        under_way = before ++ after;
        answers =
            s.answers
            ++ record {
              settlement = settlement v json_parse repo tag (result_of r reply);
              call = some (r, reply);
            }
              ∷ [];
      })
  unfolding insertions inserts_task inserts_answer sum
  answered-IsSafe s before after tag r reply same safe =
      let db = s.world.db in
      let old : Task = record { tag = tag; phase = replied r reply } in
      let answer : Answer = record {
        settlement = settlement v json_parse repo tag (result_of r reply);
        call = some (r, reply);
      } in
      let (b, (x, a)) =
        All-split (IsTaskStored db) before (old ∷ after)
          (subst (All (IsTaskStored db)) same safe.waiting) in
      record {
        waiting = All-append (IsTaskStored db) before after b a;
        acknowledged =
            All-append (IsAnswerStored db) s.answers (answer ∷ []) safe.acknowledged
              (answer-stored db tag r reply x, tt);
        once = λ key.
            let was =
              ap (sum (inserts_task key)) same
              ∙ sum-append (inserts_task key) before (old ∷ after) in
            omega (
              arith,
              was,
              sum-append (inserts_task key) before after,
              sum-append (inserts_answer key) s.answers (answer ∷ []),
              safe.once key,
            );
      }

  at_world :
      (s : System repo.Db) (w : World repo.Db)
      → w.db ≡ s.world.db
      → IsSafe s
      → IsSafe (record s { world = w })
  unfolding insertions
  at_world s w same safe = record {
    waiting = subst (λ db. All (IsTaskStored db) s.under_way) (sym same) safe.waiting;
    acknowledged = subst (λ db. All (IsAnswerStored db) s.answers) (sym same) safe.acknowledged;
    once = λ key.
        subst
          (λ db.
            sum (inserts_task key) s.under_way + sum (inserts_answer key) s.answers
            ≤ held (repo.stored db key))
          (sym same) (safe.once key);
  }

  Step-IsSafe : {s t : System repo.Db} → Step v json_parse repo s t → IsSafe s → IsSafe t
  Step-IsSafe {s} (received msg r ready) safe =
      at_world _ (prepare v json_parse repo msg s.world).1
        (prepare-db repo v json_parse msg s.world) (received-IsSafe s msg r safe)
  Step-IsSafe {s} (refused msg e thrown) safe =
      at_world _ (prepare v json_parse repo msg s.world).1
        (prepare-db repo v json_parse msg s.world) (refused-IsSafe s msg safe)
  Step-IsSafe {s} (stored before after tag r same) safe =
      stored-IsSafe s before after tag r same safe
  Step-IsSafe {s} (answered before after tag r reply same) safe =
      answered-IsSafe s before after tag r reply same safe

  -- However the handlers of the messages interleave, from a worker with no handler under way and
  -- nothing answered: an event whose message was acknowledged is stored, one whose call of the
  -- database has returned is stored, and under each dedup key at most one insertion is reported, and
  -- none if nothing is stored there.
  pub Reach-IsSafe :
      (w : World repo.Db) (s : System repo.Db)
      → Reach v json_parse repo (record { world = w; under_way = []; answers = [] }) s
      → IsSafe s
  unfolding insertions sum
  Reach-IsSafe w s here = record { waiting = tt; acknowledged = tt; once = λ key. omega arith }
  Reach-IsSafe w s (next {t} before step) = Step-IsSafe step (Reach-IsSafe w t before)
