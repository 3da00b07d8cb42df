-- ===== src/Ingestion/Memory.antt =====
-- packages/event-ingestion-worker/src/application/use-cases/support/fakes.ts: the inbox in memory that
-- the tests of the use case run on, and that it fills the port.
use webhook_idp.Common.{
  ◌≡◌, ◌≢◌, refl, sym, ap, ◌∙◌, subst, Bool, true, false, ◌&&◌, Option, none, some, inl, inr, arith,
  Option-cases, Bool-cases, if◌then◌else◌,
}
use webhook_idp.Common.Text.{Text, ◌===◌, ===_iff, ===_comm}
use webhook_idp.Common.Stores.{Store, set, get, get-set}
use webhook_idp.Common.Exec.{ok}
use webhook_idp.Common.State.{Exec}
use webhook_idp.Ingestion.Inbox.{InboxRecord}
use webhook_idp.Ingestion.Store.{Exception, InboxRepository, InboxRecordDoc, to_document}

-- `if (this.store.has(key)) …`
unfoldable pub upsert_found :
    Option InboxRecord → InboxRecord → Exec (Store InboxRecord) Exception Bool
upsert_found none r store = (ok true, set r.dedup_key.value r store)
upsert_found (some old) r store = (ok false, store)

-- `InMemoryInboxRepository.upsertByDedupKey`
unfoldable pub memory_upsert : InboxRecord → Exec (Store InboxRecord) Exception Bool
memory_upsert r store = upsert_found (get r.dedup_key.value store) r store

-- The document of a record, where there is one.
unfoldable pub document_of : Option InboxRecord → Option InboxRecordDoc
document_of none = none
document_of (some r) = some (to_document r)

-- `get`, as the port's law sees it.
abbrev pub memory_stored : Store InboxRecord → Text → Option InboxRecordDoc
memory_stored store key = document_of (get key store)

and_true : {A : Type 0} (b : Bool) (x y : A) → (if b && true then x else y) ≡ (if b then x else y)
and_true true x y = refl
and_true false x y = refl

and_false : {A : Type 0} (b : Bool) (x y : A) → (if b && false then x else y) ≡ y
and_false true x y = refl
and_false false x y = refl

set-stored :
    (r : InboxRecord) (store : Store InboxRecord) (key : Text)
    → memory_stored (set r.dedup_key.value r store) key
      ≡ (if key === r.dedup_key.value then some (to_document r) else memory_stored store key)
unfolding document_of
set-stored r store key =
    let got = get-set r.dedup_key.value r store key in
    elim (Bool-cases (key === r.dedup_key.value)) [
      | inl here ↦ rw (got, ===_comm r.dedup_key.value key, here) refl
      | inr elsewhere ↦ rw (got, ===_comm r.dedup_key.value key, elsewhere) refl
    ]

-- The inbox in memory fills the port as the collection does: an upsert always returns; it inserts the
-- record if there was none under its key, says so, and has else changed nothing.
pub memory_upsert_lem :
    (r : InboxRecord) (store : Store InboxRecord)
    → (inserted : Bool) × ((memory_upsert r store).0 ≡ ok inserted)
      × ((key : Text)
          → memory_stored (memory_upsert r store).1 key ≡ (
              if (key === r.dedup_key.value) && inserted
              then some (to_document r)
              else memory_stored store key))
      × (inserted ≡ true → memory_stored store r.dedup_key.value ≡ none)
      × (inserted ≡ false → memory_stored store r.dedup_key.value ≢ none)
unfolding memory_upsert upsert_found document_of
memory_upsert_lem r store = elim (Option-cases (get r.dedup_key.value store)) [
  | inl nothing ↦ (
    true,
    rw nothing refl,
    (λ key. rw nothing (set-stored r store key ∙ sym (and_true (key === r.dedup_key.value) _ _))),
    (λ h. rw nothing refl),
    (λ h. absurd (ground arith)),
  )
  | inr (old, there) ↦ (
    false,
    rw there refl,
    (λ key. rw there (sym (and_false (key === r.dedup_key.value) _ _))),
    (λ h. absurd (ground arith)),
    (λ h e. cc (e, ap document_of there)),
  )
]

memory_upsert-reply :
    (r : InboxRecord) (store : Store InboxRecord) (inserted : Bool)
    → (memory_upsert r store).0 ≡ ok inserted
    → (memory_upsert_lem r store).0 ≡ inserted
memory_upsert-reply r store inserted h = cc (sym ((memory_upsert_lem r store).1) ∙ h)

pub memory_upsert-stored :
    (r : InboxRecord) (store : Store InboxRecord) (inserted : Bool) (key : Text)
    → (memory_upsert r store).0 ≡ ok inserted
    → memory_stored (memory_upsert r store).1 key ≡ (
        if (key === r.dedup_key.value) && inserted
        then some (to_document r)
        else memory_stored store key)
memory_upsert-stored r store inserted key h =
    subst
      (λ i. memory_stored (memory_upsert r store).1 key ≡ (
        if (key === r.dedup_key.value) && i then some (to_document r) else memory_stored store key))
      (memory_upsert-reply r store inserted h) ((memory_upsert_lem r store).2 key)

pub memory_upsert-inserted :
    (r : InboxRecord) (store : Store InboxRecord) (inserted : Bool)
    → (memory_upsert r store).0 ≡ ok inserted
    → (inserted ≡ true → memory_stored store r.dedup_key.value ≡ none)
      × (inserted ≡ false → memory_stored store r.dedup_key.value ≢ none)
memory_upsert-inserted r store inserted h =
    subst
      (λ i.
        (i ≡ true → memory_stored store r.dedup_key.value ≡ none)
        × (i ≡ false → memory_stored store r.dedup_key.value ≢ none))
      (memory_upsert-reply r store inserted h)
      ((memory_upsert_lem r store).3, (memory_upsert_lem r store).4)

pub memory_upsert-keeps :
    (r : InboxRecord) (store : Store InboxRecord) (key : Text) (doc : InboxRecordDoc)
    → memory_stored store key ≡ some doc
    → memory_stored (memory_upsert r store).1 key ≡ some doc
memory_upsert-keeps r store key doc held =
    let (inserted, _, stores, is_new, _) = memory_upsert_lem r store in
    elim (Bool-cases inserted) [
      | inr old ↦
          stores key
          ∙ (ap
                (λ i.
                  if (key === r.dedup_key.value) && i
                  then some (to_document r)
                  else memory_stored store key)
                old
              ∙ (and_false (key === r.dedup_key.value) _ _ ∙ held))
      | inl new ↦ elim (Bool-cases (key === r.dedup_key.value)) [
        | inl here ↦ absurd (
            cc
              (held, ap (memory_stored store) ((===_iff key r.dedup_key.value).0 here), is_new new))
        | inr elsewhere ↦
            stores key
            ∙ (ap (λ b. if b && inserted then some (to_document r) else memory_stored store key)
                  elsewhere
                ∙ held)
      ]
    ]

-- The inbox of the tests as the worker sees it.
abbrev pub memory_repository : InboxRepository
memory_repository = record {
  Db = Store InboxRecord;
  stored = memory_stored;
  upsert_by_dedup_key = memory_upsert;
  upsert-stored = memory_upsert-stored;
  upsert-inserted = memory_upsert-inserted;
  upsert-keeps = memory_upsert-keeps;
}
