-- ===== src/Sandbox/Posted.antt =====
-- What a request to publish an event that returns has put onto the queue.
use webhook_idp.Common.{
  ℕ, ◌+◌, ◌≡◌, refl, sym, ap, subst, ◌∙◌, inl, inr, Bool, true, false, none, [], ◌∷◌, ◌++◌,
}
use webhook_idp.Common.Text.{Text, txt, ◌===◌}
use webhook_idp.Common.Exec.{ok, err, Result-cases}
use webhook_idp.Common.State.{continue, pure}
use webhook_idp.Ingestion.Inbox.{Json, object, Fields, is_missing}
use webhook_idp.Ingestion.Runtime.{Validators, property}
use webhook_idp.Sandbox.{
  EventEnvelope, is_truthy, Sent, Exception, Channel, World, create_event_dto, envelope_fields,
  publish, service_publish, event_id_of, create,
}
use webhook_idp.Sandbox.Intercepted.{IsIntercepted, IsCompleted, intercept-IsIntercepted}
use webhook_idp.Sandbox.Validated.{
  IsChecking, IsEnvelope, IsTaken, create_event_dto-IsEnvelope, create_event_dto-IsTaken,
}

-- The message that carries an envelope.
abbrev pub message_of : (Json → Text) → EventEnvelope → Text → Sent
message_of json_stringify e event_id = record {
  body = json_stringify (object (envelope_fields e event_id));
  content_type = txt "application/json";
  correlation_id = e.correlation_id;
}

module _ (v : Validators) (json_stringify : Json → Text) (channel : Channel)
    (queue application_name : Text) where
  -- What was posted: one more message is on the queue, the last, with an envelope under an id of the
  -- application's name and a random id.
  pub record IsPosted (raw : Json) (w : World channel.State) : Type 0 where
    pub dto : EventEnvelope
    pub envelope : IsEnvelope v dto
    pub posted : Fields
    pub is_posted : raw ≡ object posted
    pub taken : IsTaken posted dto
    pub drawn : ℕ
    pub sent :
        channel.messages
          (create json_stringify channel queue application_name v raw w).1.channel
          queue
        ≡ channel.messages w.channel queue
          ++ message_of json_stringify dto (application_name ++ (txt "-" ++ w.randoms drawn)) ∷ []

  -- What the envelope holds of the body that was handed on, it holds of the one that was posted.
  completed-IsTaken :
      (raw : Json) (fields : Fields) (dto : EventEnvelope) (c : IsCompleted raw fields)
      → IsTaken fields dto
      → IsTaken c.posted dto
  unfolding txt ◌===◌
  completed-IsTaken raw fs dto c t = record {
    tenant_id = sym (c.others (txt "tenantId") refl) ∙ t.tenant_id;
    event_type = sym (c.others (txt "eventType") refl) ∙ t.event_type;
    payload = sym (c.others (txt "payload") refl) ∙ t.payload;
    correlation = λ there.
        let same = c.correlation there in
        let (id, is_id, at) =
          t.correlation
            (subst (λ fs. is_truthy (property (txt "correlationId") fs) ≡ true) (sym same) there) in
        (id, is_id, ap (property (txt "correlationId")) (sym same) ∙ at);
  }

  create-refused :
      (raw : Json) (w : World channel.State) (i : IsIntercepted raw w) (e : Exception)
      → create_event_dto v i.body ≡ err e
      → (create json_stringify channel queue application_name v raw w).0 ≡ err e
  unfolding create
  create-refused raw w i e refused = rw (i.runs, refused) refl

  create-sends :
      (raw : Json) (w : World channel.State) (i : IsIntercepted raw w) (dto : EventEnvelope)
      → create_event_dto v i.body ≡ ok dto
      → dto.event_id ≡ none
      → let sent =
          message_of json_stringify dto (application_name ++ (txt "-" ++ w.randoms i.drawn)) in
        let reply = channel.send_to_queue queue sent w.channel in
        create json_stringify channel queue application_name v raw w
        ≡ continue reply.0 (λ _. pure true) (record w { channel = reply.1; drawn = i.drawn + 1 })
  unfolding create service_publish publish event_id_of envelope_fields txt
  create-sends raw w i dto made fresh =
      let sent =
        message_of json_stringify dto (application_name ++ (txt "-" ++ w.randoms i.drawn)) in
      elim (Result-cases (channel.send_to_queue queue sent w.channel).0) [
        | inl (done, accepted) ↦ rw (i.runs, made, fresh, accepted) refl
        | inr (e, rejected) ↦ rw (i.runs, made, fresh, rejected) refl
      ]

  -- A POST that returns has put one message onto the queue, behind those that were there. It carries
  -- the tenant's id, the event type and the payload of the body that was posted, and its correlation
  -- id if it has one that is truthy; the payload is an object. The event has an id made of the
  -- application's name and a random id, never under one that was posted. It has a correlation id that
  -- passes as a UUID, also where none was posted; provided that the random ids are not blank and the
  -- decorators check what they are documented to check.
  pub create-IsPosted :
      (raw : Json) (w : World channel.State) (result : Bool)
      → IsChecking v
      → ((n : ℕ) → is_missing (w.randoms n) ≡ false)
      → (create json_stringify channel queue application_name v raw w).0 ≡ ok result
      → IsPosted raw w
  create-IsPosted raw w result k ids h =
      let i = intercept-IsIntercepted raw w ids in
      elim (Result-cases (create_event_dto v i.body)) [
        | inr (e, refused) ↦ absurd (cc (h, create-refused raw w i e refused))
        | inl (dto, made) ↦
            let (fields, is_body, taken) = create_event_dto-IsTaken v i.body dto k made in
            let completed = i.completed fields is_body in
            let envelope = create_event_dto-IsEnvelope v i.body dto k made i.correlated in
            let sent =
              message_of json_stringify dto (application_name ++ (txt "-" ++ w.randoms i.drawn)) in
            let runs = create-sends raw w i dto made envelope.no_event_id in
            elim (Result-cases (channel.send_to_queue queue sent w.channel).0) [
              | inr (e, rejected) ↦
                  let thrown : (create json_stringify channel queue application_name v raw w).0
                      ≡ err e =
                    ap (λ r. r.0) runs ∙ rw rejected refl in
                  absurd (cc (h, thrown))
              | inl (done, accepted) ↦
                  let stored : (create json_stringify channel queue application_name v raw
                        w).1.channel
                      ≡ (channel.send_to_queue queue sent w.channel).1 =
                    ap (λ r. r.1.channel) runs ∙ rw accepted refl in
                  record {
                    dto = dto;
                    envelope = envelope;
                    posted = completed.posted;
                    is_posted = completed.is_posted;
                    taken = completed-IsTaken raw fields dto completed taken;
                    drawn = i.drawn;
                    sent =
                        ap (λ c. channel.messages c queue) stored
                        ∙ channel.accepts queue sent w.channel accepted;
                  }
            ]
      ]
