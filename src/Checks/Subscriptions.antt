-- ===== src/Checks/Subscriptions.antt =====
-- The theorems on subscriptions, at concrete inputs.
use webhook_idp.Common.{
  ℕ, ◌+◌, ◌*◌, ◌≤◌, ◌<◌, ◌≡◌, refl, ap, ◌∙◌, ◌↔◌, true, some, List, [], ◌∷◌, arith, length, ltb,
}
use mathlib.Core.List.{replicate}
use webhook_idp.Common.Text.{Text, txt, is_blank}
use webhook_idp.Common.Exec.{ok, err}
use webhook_idp.Subscription.Errors.{invalid_target_url, url_too_long}
use webhook_idp.Subscription.ValueObjects.{
  deleted, tenant_id_from_string, client_id_from_string, event_type_from_string,
}
use webhook_idp.Subscription.PrivateHost.{
  is_private_or_reserved_host, hex_value, private_host_functions,
}
use webhook_idp.Subscription.PrivateHost.Ranges.{
  dotted, is_reserved, is_private_or_reserved_host-dotted,
}
use webhook_idp.Subscription.PrivateHost.Ipv6.{
  bracketed, mapped, is_private_or_reserved_host-mapped,
}
use webhook_idp.Subscription.TargetUrl.{Url, UrlParser, TargetUrl, target_url_from_string}
use webhook_idp.Subscription.TargetUrl.Accepts.{IsAllowed, target_url_from_string-ok_iff}
use webhook_idp.Subscription.Aggregate.{WebhookSubscription, Held, create, pull_domain_events}
use webhook_idp.Subscription.Aggregate.Methods.{Command}
use webhook_idp.Subscription.Aggregate.Lifecycle.{run, after, status-run}
use webhook_idp.Subscription.Aggregate.History.{
  IsRecorded, Call, perform_call, pull, with_pulled, call_all, create-run-IsRecorded,
}
use webhook_idp.Persistence.{to_document, to_aggregate}
use webhook_idp.Persistence.RoundTrip.{to_aggregate-to_document, to_aggregate-too_long}
use webhook_idp.Subscription.ValueObjects.{subscription_id_generate, subscription_id_from_string}
use webhook_idp.Persistence.{optional_user_id}
use webhook_idp.Subscription.Events.{subscription_created}
use webhook_idp.Subscription.Aggregate.History.{IsMonotone}
use webhook_idp.Subscription.TargetUrl.{Reparses}
use webhook_idp.Checks.Samples.{sample_parser, any_uuid, sample, sample_params, sample_clock}

lt_256 : {n : ℕ} → ltb n 256 ≡ true → n < 256
lt_256 h = ground arith

is_private_or_reserved_host-dotted_example : is_private_or_reserved_host (dotted 127 0 0 1) ≡ true
is_private_or_reserved_host-dotted_example =
    is_private_or_reserved_host-dotted 127 0 0 1 (lt_256 refl) (lt_256 refl) (lt_256 refl)
      (lt_256 refl)

is_private_or_reserved_host-mapped_example :
    is_private_or_reserved_host (bracketed (mapped (txt "a00") (txt "1")))
    ≡ is_reserved (65536 * hex_value 0 (txt "a00") + hex_value 0 (txt "1"))
unfolding private_host_functions
is_private_or_reserved_host-mapped_example =
    is_private_or_reserved_host-mapped (txt "a00") (txt "1") refl refl

abbrev target : TargetUrl
target = record { value = txt "https://example.com/" }

accepted : target_url_from_string sample_parser (txt "https://example.com/") ≡ ok target
unfolding target_url_from_string private_host_functions txt
accepted = refl

target_url_from_string-ok_iff_example :
    (target_url_from_string sample_parser (txt "https://example.com/") ≡ ok target) ↔ (
      (length (txt "https://example.com/") ≤ 2048)
      × ((u : Url) × (sample_parser (txt "https://example.com/") ≡ some u)
          × IsAllowed u
          × (u.href ≡ target.value)))
target_url_from_string-ok_iff_example =
    target_url_from_string-ok_iff sample_parser (txt "https://example.com/") target

pub sample_parser-Reparses : Reparses sample_parser
sample_parser-Reparses value u h = ap sample_parser (href_lem value u h) ∙ h
  where
    href_lem : (value : Text) (u : Url) → sample_parser value ≡ some u → u.href ≡ value
    href_lem value u h = ground arith

abbrev held : Held
held = record { self = sample; clock = sample_clock }

abbrev commands : List Command
commands = Command.pause ∷ Command.pause ∷ Command.resume ∷ Command.delete ∷ []

status-run_example : (run commands held).self.status ≡ deleted
unfolding after
status-run_example = status-run commands held

monotone : IsMonotone sample_clock
monotone i j h = h

created_sample : WebhookSubscription
created_sample = record sample {
  domain_events =
      record { class = subscription_created; aggregate_id = txt "i"; occurred_at = 0 } ∷ [];
}

abbrev calls : List Call
calls =
    perform_call Command.pause
    ∷ pull
    ∷ perform_call Command.resume
    ∷ perform_call Command.resume
    ∷ perform_call Command.delete
    ∷ []

create-run-IsRecorded_example : IsRecorded (
    with_pulled (
      call_all calls (record {
        held = record {
          self = created_sample;
          clock = (create (txt "i") sample_params sample_clock).1;
        };
        events = [];
      })))
unfolding create created_sample subscription_id_generate txt
create-run-IsRecorded_example =
    create-run-IsRecorded (txt "i") sample_params sample_clock created_sample calls monotone refl

to_aggregate-to_document_example :
    to_aggregate any_uuid sample_parser (to_document sample) ≡ ok (pull_domain_events sample).1
unfolding target_url_from_string private_host_functions subscription_id_from_string
    tenant_id_from_string client_id_from_string event_type_from_string optional_user_id txt is_blank
to_aggregate-to_document_example = to_aggregate-to_document any_uuid sample_parser sample (record {
  id = refl;
  tenant_id = refl;
  client_id = refl;
  user_id = refl;
  target_url = refl;
  event_types = (refl, tt);
})

-- A parser that prints a longer text than it was given.
abbrev long_text : Text
long_text = replicate 2049 97

abbrev long_parser : UrlParser
long_parser _ = some (record {
  href = long_text;
  protocol = txt "https:";
  username = [];
  password = [];
  hostname = txt "example.com";
  port = [];
  pathname = [];
  search = [];
  hash = [];
})

abbrev long_sample : WebhookSubscription
long_sample = record sample { target_url = record { value = long_text } }

long : 2048 < length long_text
long = omega arith

to_aggregate-too_long_example :
    to_aggregate any_uuid long_parser (to_document long_sample)
    ≡ err (invalid_target_url url_too_long (txt "targetUrl must be at most 2048 characters"))
unfolding target_url_from_string private_host_functions subscription_id_from_string
    tenant_id_from_string client_id_from_string optional_user_id txt is_blank
to_aggregate-too_long_example =
    to_aggregate-too_long any_uuid long_parser long_sample (txt "https://example.com/")
      (λ value u h. h) refl long refl refl refl refl
