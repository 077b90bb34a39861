-- ===== src/Tests/Connections.antt =====
-- The connection protocol between an inviter and an invitee.
use aries_framework_javascri.Prelude.{
  String, true, Option, none, some, List, [], ◌∷◌, ◌≡◌, ◌≢◌, refl,
}
use aries_framework_javascri.Exec.{ok, Fresh, ◌>>=◌}
use aries_framework_javascri.Storage.{no_tags}
use aries_framework_javascri.Message.{new_message}
use aries_framework_javascri.Agent.Config.{AgentConfig}
use aries_framework_javascri.Agent.Context.{InboundMessageContext}
use aries_framework_javascri.Signature.{WalletKeys, Encoder, unpack_and_verify}
use aries_framework_javascri.Connections.Did.{DidDoc, indy_agent}
use aries_framework_javascri.Connections.Messages.{
  Connection, ConnectionRequestMessage, ConnectionResponseMessage,
}
use aries_framework_javascri.Connections.Record.{
  ConnectionRecord, ConnectionState, invited, requested, responded, inviter, invitee,
}
use aries_framework_javascri.Connections.Service.{
  ConnectionDeps, Connecting, process_request, process_response, create_request, update_state,
}
use aries_framework_javascri.Connections.Calls.{
  Call, create_request_call, process_response_call, create_trust_ping_call, perform_all,
  connection_calls-IsTraced,
}
use aries_framework_javascri.Connections.Protocol.{IsTraced}
use aries_framework_javascri.Connections.Outcomes.{process_response_authentic}
use aries_framework_javascri.Tests.Tables.{table}

abbrev pub doc : String → String → DidDoc
doc did key = record {
  id = did;
  public_key = [];
  service =
      indy_agent (record {
        id = did;
        service_endpoint = "https://alice";
        recipient_keys = key ∷ [];
        routing_keys = none;
        priority = 0;
      })
      ∷ [];
  authentication = [];
}

abbrev pub alice : Connection
alice = record { did = "alice"; did_doc = some (doc "alice" "alice_key") }

abbrev keys : WalletKeys (List ConnectionRecord)
keys = record {
  create_did = λ s. (ok ("bob", "bob_key"), s);
  sign = λ bytes key s. (ok (1 ∷ []), s);
  verify = λ key bytes signature s. (ok true, s);
}

abbrev encoder : Encoder Connection
encoder = record {
  to_buffer = λ j. [];
  from_buffer = λ bytes. ok alice;
  to_base64_url = λ bytes. "";
  from_base64 = λ t. [];
}

abbrev pub deps : ConnectionDeps (List ConnectionRecord) Connection
deps = record {
  repo = table (λ c. c.id) (λ c. c.tags);
  keys = keys;
  encoder = encoder;
  to_json = λ c. c;
  from_json = λ c. c;
  is_valid = λ c. true;
}

abbrev pub config : AgentConfig
config = record {
  label = "bob";
  host = none;
  port = none;
  endpoint = some "https://bob";
  auto_accept = none;
  inbound_connection = none;
}

-- A record of a connection in a state, with the invitation's key.
abbrev pub connection : String → ConnectionState → ConnectionRecord
connection id state = record {
  id = id;
  created_at = 0;
  did = "bob";
  did_doc = doc "bob" "bob_key";
  verkey = "bob_key";
  their_did = some "alice";
  their_did_doc = some (doc "alice" "alice_key");
  invitation = none;
  state = state;
  role = invitee;
  endpoint = none;
  alias = none;
  auto_accept_connection = none;
  tags = record no_tags { invitation_key = some "invitation_key" };
}

abbrev pub fresh : Fresh
fresh = record { record_id = "r1"; message_id = "m1"; now = 7 }

abbrev pub context_of : {M : Type 0} → M → Option ConnectionRecord → InboundMessageContext M
context_of m c = record {
  message = m;
  connection = c;
  sender_verkey = none;
  recipient_verkey = none;
}

abbrev pub start : ConnectionRecord → Connecting (List ConnectionRecord)
start c = record { store = c ∷ []; events = [] }

abbrev response : ConnectionResponseMessage
response = record {
  base = new_message "m2";
  connection_sig = record {
    signature_type = "";
    signature_data = "";
    signer = "invitation_key";
    signature = "";
  };
}

abbrev calls : List Call
calls =
    create_request_call fresh "c1"
    ∷ process_response_call (context_of response (some (connection "c1" requested)))
    ∷ create_trust_ping_call "c1"
    ∷ []

connection_calls-IsTraced_example :
    IsTraced (perform_all deps config calls (start (connection "c1" invited)))
connection_calls-IsTraced_example =
    connection_calls-IsTraced deps config calls (start (connection "c1" invited)) tt

abbrev responded_record : ConnectionRecord
responded_record = record (connection "c1" responded) {
  tags = record no_tags {
    invitation_key = some "invitation_key";
    their_key = some "alice_key";
    thread_id = some "m2";
  };
}

authentic_run :
    (process_response deps config
      (context_of response (some (connection "c1" requested)))
      (start (connection "c1" requested))).0
    ≡ ok responded_record
unfolding process_response unpack_and_verify update_state ◌>>=◌
authentic_run = refl

process_response_authentic_example : responded_record.tags.their_key ≢ none
process_response_authentic_example =
    (process_response_authentic deps config (context_of response (some (connection "c1" requested)))
      (start (connection "c1" requested)) authentic_run).8

abbrev request_message : ConnectionRequestMessage
request_message = record { base = new_message "m3"; label = "alice"; connection = some alice }

abbrev offered : ConnectionRecord
offered = record (connection "c1" invited) { role = inviter }

abbrev requested_record : ConnectionRecord
requested_record = record (connection "c1" requested) {
  role = inviter;
  tags = record no_tags {
    invitation_key = some "invitation_key";
    their_key = some "alice_key";
    thread_id = some "m3";
  };
}

abbrev after_request : Connecting (List ConnectionRecord)
after_request = record {
  store = requested_record ∷ [];
  events = record { changed = requested_record; previous_state = some invited } ∷ [];
}

request_run :
    process_request deps config (context_of request_message (some offered)) (start offered)
    ≡ (ok requested_record, after_request)
unfolding process_request update_state ◌>>=◌
request_run = refl

abbrev sent_record : ConnectionRecord
sent_record = connection "c1" requested

abbrev sent_message : ConnectionRequestMessage
sent_message = record {
  base = new_message "m1";
  label = "bob";
  connection = some (record { did = "bob"; did_doc = some (doc "bob" "bob_key") });
}

abbrev after_sending : Connecting (List ConnectionRecord)
after_sending = record {
  store = sent_record ∷ [];
  events = record { changed = sent_record; previous_state = some invited } ∷ [];
}

sending_run :
    create_request deps config fresh "c1" (start (connection "c1" invited))
    ≡ (ok (sent_message, sent_record), after_sending)
unfolding create_request update_state ◌>>=◌
sending_run = refl
