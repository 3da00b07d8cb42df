-- ===== src/Ingestion/Interleaving/Calls.antt =====
-- What the steps of a handler do to the database, and what they report of it.
use webhook_idp.Common.{
  ℕ, ◌+◌, ◌≤◌, ◌≡◌, refl, ap, ◌∙◌, true, false, Option, none, some, List, [], ◌∷◌, ◌++◌, inl, inr,
  arith, Bool-cases, Option-cases,
}
use webhook_idp.Common.Text.{Text, ◌===◌, ===_iff}
use webhook_idp.Common.Exec.{ok, map_err, Result-cases}
use webhook_idp.Common.State.{Exec, lift, ◌>>=◌}
use webhook_idp.Ingestion.Inbox.{Json, InboxRecord, tenant_id_from_string, event_type_from_string}
use webhook_idp.Ingestion.Store.{Exception, domain, InboxRepository, InboxRecordDoc}
use webhook_idp.Ingestion.Ingest.{
  IngestEventInput, World, resolve_dedup_key, resolve_correlation_id,
}
use webhook_idp.Ingestion.Runtime.{Validators, ConsumeMessage, parse_envelope}
use webhook_idp.Ingestion.Ending.{correlation-db}
use webhook_idp.Ingestion.Guarantees.{upsert-there}
use webhook_idp.Ingestion.Interleaving.{prepare_record, prepare, inserts, sum}

module _ {ℓ} {A : Type ℓ} where
  pub sum-append : (f : A → ℕ) (xs ys : List A) → sum f (xs ++ ys) ≡ sum f xs + sum f ys
  unfolding sum
  sum-append f [] ys = omega arith
  sum-append f (x ∷ xs) ys = omega (arith, sum-append f xs ys)

module _ {Db A B : Type 0} where
  -- A chain of runs that do not touch the database does not.
  bind-db :
      (m : Exec (World Db) Exception A) (f : A → Exec (World Db) Exception B)
      → ((w : World Db) → (m w).1.db ≡ w.db)
      → ((a : A) (w : World Db) → (f a w).1.db ≡ w.db)
      → (w : World Db) → ((m >>= f) w).1.db ≡ w.db
  bind-db m f h k w = elim (Result-cases (m w).0) [
    | inl (a, returned) ↦ rw returned (k a (m w).1 ∙ h w)
    | inr (e, thrown) ↦ rw thrown (h w)
  ]

-- The number of documents in a place.
abbrev pub held : Option InboxRecordDoc → ℕ
held none = 0
held (some doc) = 1

module _ (repo : InboxRepository) where
  prepare_record-db :
      (input : IngestEventInput) (w : World repo.Db) → (prepare_record input w).1.db ≡ w.db
  unfolding prepare_record
  prepare_record-db input =
      bind-db (lift (resolve_dedup_key input.event_id input.broker_message_id)) _ (λ w. refl)
        λ key.
          bind-db (resolve_correlation_id input.correlation_id) _
            (correlation-db repo input.correlation_id)
            λ correlation.
              bind-db (lift (map_err domain (tenant_id_from_string input.tenant_id))) _ (λ w. refl)
                λ tenant.
                  bind-db (lift (map_err domain (event_type_from_string input.event_type))) _
                    (λ w. refl) λ type w. refl

  -- A document is stored under the key.
  abbrev pub IsStored : repo.Db → Text → Type 0
  IsStored db key = (doc : InboxRecordDoc) × (repo.stored db key ≡ some doc)

  held-kept :
      (key : Text) (r : InboxRecord) (db : repo.Db)
      → held (repo.stored db key) ≤ held (repo.stored (repo.upsert_by_dedup_key r db).1 key)
  held-kept key r db = elim (Option-cases (repo.stored db key)) [
    | inl nothing ↦ rw nothing (omega arith)
    | inr (doc, there) ↦ rw (there, repo.upsert-keeps r db key doc there) (omega arith)
  ]

  held_of_inserted :
      (key : Text) (r : InboxRecord) (db : repo.Db)
      → (repo.upsert_by_dedup_key r db).0 ≡ ok true
      → key ≡ r.dedup_key.value
      → (held (repo.stored db key) ≡ 0)
        × (held (repo.stored (repo.upsert_by_dedup_key r db).1 key) ≡ 1)
  held_of_inserted key r db done same =
      let (doc, there, _) = upsert-there repo r db true done in
      let before = (repo.upsert-inserted r db true done).0 refl in
      (
        ap held (ap (repo.stored db) same ∙ before),
        ap held (ap (repo.stored (repo.upsert_by_dedup_key r db).1) same ∙ there),
      )

  -- A call of the database reports an insertion only where it fills an empty place.
  pub fills :
      (key : Text) (r : InboxRecord) (db : repo.Db)
      → inserts key r (repo.upsert_by_dedup_key r db).0 + held (repo.stored db key)
        ≤ held (repo.stored (repo.upsert_by_dedup_key r db).1 key)
  unfolding inserts
  fills key r db =
      let kept = held-kept key r db in
      elim (Result-cases (repo.upsert_by_dedup_key r db).0) [
        | inr (e, thrown) ↦ rw thrown (omega (arith, kept))
        | inl (false, done) ↦ rw done (omega (arith, kept))
        | inl (true, done) ↦ elim (Bool-cases (key === r.dedup_key.value)) [
          | inl same ↦
              let (before, after) =
                held_of_inserted key r db done ((===_iff key r.dedup_key.value).0 same) in
              rw (done, same) (omega (arith, before, after))
          | inr other ↦ rw (done, other) (omega (arith, kept))
        ]
      ]

  module _ (v : Validators) (json_parse : Text → Option Json) where
    pub prepare-db :
        (msg : ConsumeMessage) (w : World repo.Db) → (prepare v json_parse repo msg w).1.db ≡ w.db
    unfolding prepare
    prepare-db msg w = elim (Option-cases (json_parse msg.content)) [
      | inl nothing ↦ rw (prepare, nothing) refl
      | inr (body, parsed) ↦ elim (Result-cases (parse_envelope v body)) [
        | inl (envelope, valid) ↦ rw (prepare, parsed, valid) (prepare_record-db _ w)
        | inr (e, invalid) ↦ rw (prepare, parsed, invalid) refl
      ]
    ]
