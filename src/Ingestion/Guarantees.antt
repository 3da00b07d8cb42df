-- ===== src/Ingestion/Guarantees.antt =====
-- What the ingestion of an event guarantees, whatever the repository that keeps its laws.
use webhook_idp.Common.{
  ◌≡◌, refl, sym, ap, ◌∙◌, ◌≢◌, subst, inl, inr, Bool, true, false, Option, none, some, arith,
  if◌then◌else◌, Option-cases, Bool-cases, ◌&&◌,
}
use webhook_idp.Common.Text.{Text, ◌===◌, ===_refl}
use webhook_idp.Common.Exec.{Result, ok, >>=-eq-ok}
use webhook_idp.Ingestion.Inbox.{
  TenantId, EventType, InboxRecord, DedupKey, tenant_id_from_string, event_type_from_string,
}
use webhook_idp.Ingestion.Store.{Exception, InboxRepository, InboxRecordDoc, to_document}
use webhook_idp.Ingestion.Ingest.{
  IngestEventInput, IngestEventResult, World, resolve_dedup_key, execute,
}
use webhook_idp.Ingestion.DedupKey.{IsKeyOf, resolve_dedup_key_lem}
use webhook_idp.Ingestion.Ending.{IsRecordOf, stops, upserts, execute-Ending}

tenant_id-value : (t : Text) (k : TenantId) → tenant_id_from_string t ≡ ok k → t ≡ k.value
unfolding tenant_id_from_string
tenant_id-value t k h = ground arith

event_type-value : (t : Text) (k : EventType) → event_type_from_string t ≡ ok k → t ≡ k.value
unfolding event_type_from_string
event_type-value t k h = ground arith

ok_injective : {a b : DedupKey} → ◌≡◌ {A = Result Exception DedupKey} (ok a) (ok b) → a ≡ b
ok_injective h = ground arith

pick_second : (x y : Option InboxRecordDoc) (a b : Bool) → b ≡ false → (if a && b then x else y) ≡ y
pick_second x y true b h = ground arith
pick_second x y false b h = ground arith

module _ (repo : InboxRepository) where
  none_ne-some : {o : Option InboxRecordDoc} → o ≢ none → (doc : InboxRecordDoc) × (o ≡ some doc)
  none_ne-some {o} h = elim (Option-cases o) [ inl e ↦ absurd (h e) | inr found ↦ found ]

  -- What an upsert that returns leaves under the record's key.
  pub upsert-there :
      (r : InboxRecord) (db : repo.Db) (inserted : Bool)
      → (repo.upsert_by_dedup_key r db).0 ≡ ok inserted
      → (doc : InboxRecordDoc) × (repo.stored (repo.upsert_by_dedup_key r db).1 r.dedup_key.value
          ≡ some doc)
        × (inserted ≡ true → doc ≡ to_document r)
  upsert-there r db inserted h =
      let at : repo.stored (repo.upsert_by_dedup_key r db).1 r.dedup_key.value ≡ (
          if (r.dedup_key.value === r.dedup_key.value) && inserted
          then some (to_document r)
          else repo.stored db r.dedup_key.value) =
        repo.upsert-stored r db inserted r.dedup_key.value h in
      let (new, old) = repo.upsert-inserted r db inserted h in
      elim (Bool-cases inserted) [
        | inl i ↦ (to_document r, ground (arith, ===_refl r.dedup_key.value), λ _. refl)
        | inr i ↦
            let (doc, held) = none_ne-some (old i) in
            (doc, repo.upsert-keeps r db r.dedup_key.value doc held, λ yes. absurd (ground arith))
      ]

  result_eq :
      (r : InboxRecord) (inserted : Bool) (result : IngestEventResult)
      → ◌≡◌ {A = Result Exception IngestEventResult}
          (ok (record { dedup_key = r.dedup_key.value; inserted = inserted }))
          (ok result)
      → (inserted ≡ result.inserted) × (r.dedup_key.value ≡ result.dedup_key)
  result_eq r inserted result h = (ground arith, ground arith)

  -- The one call of an ingestion that returns.
  execute-Upsert :
      (input : IngestEventInput) (w : World repo.Db) (result : IngestEventResult)
      → (execute repo input w).0 ≡ ok result
      → (r : InboxRecord) × IsRecordOf input r
        × ((repo.upsert_by_dedup_key r w.db).0 ≡ ok result.inserted)
        × (r.dedup_key.value ≡ result.dedup_key)
        × ((execute repo input w).1.db ≡ (repo.upsert_by_dedup_key r w.db).1)
  execute-Upsert input w result h = elim (execute-Ending repo input w) [
    | stops e thrown same ↦ absurd (ground arith)
    | upserts r p reply after ↦
        let (inserted, done, said) = >>=-eq-ok _ _ (sym reply ∙ h) in
        let (same, key) = result_eq r inserted result said in (r, p, done ∙ ap ok same, key, after)
  ]

  not_inserted :
      {o : Option InboxRecordDoc} {doc : InboxRecordDoc} (inserted : Bool)
      → o ≡ some doc
      → (inserted ≡ true → o ≡ none)
      → inserted ≡ false
  not_inserted true held new = absurd (cc (sym held ∙ new refl))
  not_inserted false held new = refl

  unchanged :
      (r : InboxRecord) (db : repo.Db) (inserted : Bool) (key : Text)
      → inserted ≡ false
      → (repo.upsert_by_dedup_key r db).0 ≡ ok inserted
      → repo.stored (repo.upsert_by_dedup_key r db).1 key ≡ repo.stored db key
  unchanged r db inserted key i h =
      repo.upsert-stored r db inserted key h
      ∙ pick_second _ _ (key === r.dedup_key.value) inserted i

  -- An ingestion that returns has left a document under the event's dedup key; the key is the
  -- event's own id or the broker's. If it says that it inserted, the document holds the event's
  -- tenant, type and payload.
  pub execute-stored :
      (input : IngestEventInput) (w : World repo.Db) (result : IngestEventResult)
      → (execute repo input w).0 ≡ ok result
      → IsKeyOf input.event_id input.broker_message_id result.dedup_key
        × (doc : InboxRecordDoc) × (repo.stored (execute repo input w).1.db result.dedup_key
            ≡ some doc)
        × (result.inserted ≡ true
            → (doc.dedup_key ≡ result.dedup_key)
              × (doc.tenant_id ≡ input.tenant_id)
              × (doc.event_type ≡ input.event_type)
              × (doc.payload ≡ input.payload))
  unfolding to_document
  execute-stored input w result h =
      let (r, p, done, key, after) = execute-Upsert input w result h in
      let (doc, held, new) = upsert-there r w.db result.inserted done in
      let there : repo.stored (execute repo input w).1.db r.dedup_key.value ≡ some doc =
        ap (λ db. repo.stored db r.dedup_key.value) after ∙ held in
      (
        subst (IsKeyOf input.event_id input.broker_message_id) key
            ((resolve_dedup_key_lem input.event_id input.broker_message_id).0 r.dedup_key p.key),
        doc,
        subst (λ k. repo.stored (execute repo input w).1.db k ≡ some doc) key there,
        λ i. (
          ap (λ d. d.dedup_key) (new i) ∙ key,
          ap (λ d. d.tenant_id) (new i)
              ∙ sym (tenant_id-value input.tenant_id r.tenant_id p.tenant),
          ap (λ d. d.event_type) (new i)
              ∙ sym (event_type-value input.event_type r.event_type p.type),
          ap (λ d. d.payload) (new i) ∙ p.payload,
        ),
      )

  -- An ingestion that returns has inserted the event, if nothing was stored under its key.
  pub execute-inserted :
      (input : IngestEventInput) (w : World repo.Db) (result : IngestEventResult)
      → (execute repo input w).0 ≡ ok result
      → repo.stored w.db result.dedup_key ≡ none
      → result.inserted ≡ true
  execute-inserted input w result h new =
      let (r, p, done, key, after) = execute-Upsert input w result h in
      elim (Bool-cases result.inserted) [
        | inl was ↦ was
        | inr was ↦ absurd (
            (repo.upsert-inserted r w.db result.inserted done).1 was
              (ap (repo.stored w.db) key ∙ new))
      ]

  -- No ingestion, whether it returns or throws, changes a document that the inbox holds.
  pub execute-keeps :
      (input : IngestEventInput) (w : World repo.Db) (key : Text) (doc : InboxRecordDoc)
      → repo.stored w.db key ≡ some doc
      → repo.stored (execute repo input w).1.db key ≡ some doc
  execute-keeps input w key doc held = elim (execute-Ending repo input w) [
    | stops e thrown same ↦ ap (λ db. repo.stored db key) same ∙ held
    | upserts r p reply after ↦
        ap (λ db. repo.stored db key) after ∙ repo.upsert-keeps r w.db key doc held
  ]

  -- An event that is delivered again is ingested once: an ingestion that returns, after one with the
  -- same dedup key that returned, reports no insertion and leaves every key as it was.
  pub execute-again :
      (first again : IngestEventInput) (w : World repo.Db) (one two : IngestEventResult)
      → resolve_dedup_key again.event_id again.broker_message_id
        ≡ resolve_dedup_key first.event_id first.broker_message_id
      → (execute repo first w).0 ≡ ok one
      → (execute repo again (execute repo first w).1).0 ≡ ok two
      → (two.inserted ≡ false)
        × (two.dedup_key ≡ one.dedup_key)
        × ((key : Text)
            → repo.stored (execute repo again (execute repo first w).1).1.db key
              ≡ repo.stored (execute repo first w).1.db key)
  execute-again first again w one two same_key h₁ h₂ =
      let (a, pa, done_a, key_a, after_a) = execute-Upsert first w one h₁ in
      let (b, pb, done_b, key_b, after_b) = execute-Upsert again (execute repo first w).1 two h₂ in
      let same : b.dedup_key ≡ a.dedup_key = ok_injective (sym pb.key ∙ (same_key ∙ pa.key)) in
      let key : two.dedup_key ≡ one.dedup_key = sym key_b ∙ (ap (λ k. k.value) same ∙ key_a) in
      let (doc, held, _) = upsert-there a w.db one.inserted done_a in
      let there : repo.stored (execute repo first w).1.db b.dedup_key.value ≡ some doc =
        ap (repo.stored (execute repo first w).1.db) (ap (λ k. k.value) same)
        ∙ (ap (λ db. repo.stored db a.dedup_key.value) after_a ∙ held) in
      let (new, _) = repo.upsert-inserted b (execute repo first w).1.db two.inserted done_b in
      let old : two.inserted ≡ false = not_inserted two.inserted there new in
      (
        old,
        key,
        λ k.
            ap (λ db. repo.stored db k) after_b
            ∙ unchanged b (execute repo first w).1.db two.inserted k old done_b,
      )
