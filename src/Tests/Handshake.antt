-- ===== src/Tests/Handshake.antt =====
-- Two agents that connect: the inviter's record is "c1", the invitee's is "c2".
use aries_framework_javascri.Prelude.{ℕ, true, some, none, List, [], ◌∷◌, ◌++◌, ◌≡◌, refl}
use aries_framework_javascri.Exec.{ok, ◌>>=◌}
use aries_framework_javascri.Storage.{no_tags}
use aries_framework_javascri.Message.{new_message, set_thread}
use aries_framework_javascri.Signature.{sign_data, timestamp}
use aries_framework_javascri.Connections.Messages.{
  ConnectionRequestMessage, ConnectionResponseMessage,
}
use aries_framework_javascri.Connections.Record.{
  ConnectionRecord, invited, requested, responded, inviter, my_key, their_key,
}
use aries_framework_javascri.Connections.Service.{
  ConnectionDeps, Connecting, create_request, process_request, create_response, process_response,
  update_state,
}
use aries_framework_javascri.Connections.Requesting.{told, create_request-process_request}
use aries_framework_javascri.Connections.Handshake.{IsPeer, create_response-process_response}
use aries_framework_javascri.Tests.Tables.{table, table-IsRepository}
use aries_framework_javascri.Tests.Connections.{connection, fresh, context_of, config, start}
use aries_framework_javascri.Tests.Signature.{encoder, text_of, bytes-text}

abbrev inviting : ConnectionRecord
inviting = record (connection "c1" requested) { role = inviter; tags = no_tags }

abbrev asking : ConnectionRecord
asking = record (connection "c2" requested) {
  tags = record no_tags { invitation_key = some "bob_key" };
}

abbrev agent : ConnectionDeps (List ConnectionRecord) (List ℕ)
agent = record {
  repo = table (λ c. c.id) (λ c. c.tags);
  keys = record {
    create_did = λ s. (ok ("bob", "bob_key"), s);
    sign = λ bytes key s. (ok (1 ∷ []), s);
    verify = λ key bytes signature s. (ok true, s);
  };
  encoder = encoder;
  to_json = λ c. 3 ∷ 4 ∷ [];
  from_json = λ j. told inviting;
  is_valid = λ c. true;
}

agent-IsPeer : IsPeer agent agent
agent-IsPeer = record {
  base64_lem = bytes-text;
  buffer_lem = λ j. refl;
  verify_lem = λ bytes signature key v v' w e. refl;
}

abbrev response : ConnectionResponseMessage
response = record {
  base = set_thread none (new_message "m1");
  connection_sig = record {
    signature_type = "https://didcomm.org/signature/1.0/ed25519Sha512_single";
    signature_data = text_of (timestamp 7 ++ 3 ∷ 4 ∷ []);
    signer = "bob_key";
    signature = text_of (1 ∷ []);
  };
}

abbrev answered : ConnectionRecord
answered = record inviting { state = responded }

abbrev after_response : Connecting (List ConnectionRecord)
after_response = record {
  store = answered ∷ [];
  events = record { changed = answered; previous_state = some requested } ∷ [];
}

response_run :
    create_response agent config fresh "c1" (start inviting)
    ≡ (ok (response, answered), after_response)
unfolding create_response update_state sign_data ◌>>=◌
response_run = refl

create_response-process_response_example :
    (c : ConnectionRecord) × ((process_response agent config
        (context_of response (some asking))
        (start asking)).0
      ≡ ok c)
    × (answered.state ≡ responded)
    × (c.state ≡ responded)
    × (c.their_did ≡ some answered.did)
    × (their_key c ≡ my_key answered)
    × (c.tags.their_key ≡ some "bob_key")
create_response-process_response_example =
    create_response-process_response agent agent agent-IsPeer (λ s. s)
      (table-IsRepository (λ c. c.id) (λ c. c.tags)) config config fresh "c1" "bob_key"
      (start inviting) (context_of response (some asking)) (start asking) response_run refl refl
      refl refl refl refl refl refl

abbrev unasked : ConnectionRecord
unasked = record asking { state = invited }

abbrev request : ConnectionRequestMessage
request = record { base = new_message "m1"; label = "bob"; connection = some (told asking) }

abbrev after_request : Connecting (List ConnectionRecord)
after_request = record {
  store = asking ∷ [];
  events = record { changed = asking; previous_state = some invited } ∷ [];
}

request_run :
    create_request agent config fresh "c2" (start unasked) ≡ (ok (request, asking), after_request)
unfolding create_request update_state ◌>>=◌
request_run = refl

abbrev uninvited : ConnectionRecord
uninvited = record inviting { state = invited }

create_request-process_request_example :
    (c : ConnectionRecord) × ((process_request agent config
        (context_of request (some uninvited))
        (start uninvited)).0
      ≡ ok c)
    × (asking.state ≡ requested)
    × (c.state ≡ requested)
    × (c.their_did ≡ some asking.did)
    × (their_key c ≡ my_key asking)
    × (c.tags.their_key ≡ some "bob_key")
    × (c.tags.thread_id ≡ some "m1")
create_request-process_request_example =
    create_request-process_request agent agent (λ s. s)
      (table-IsRepository (λ c. c.id) (λ c. c.tags)) config config fresh "c2" "bob_key"
      (start unasked) (context_of request (some uninvited)) (start uninvited) request_run refl refl
      refl refl refl
