-- ===== src/Tests/Agent.antt =====
-- An agent that receives one message.
use Prim.Native.String.{◌++◌ as append}
use aries_framework_javascri.Prelude.{
  ℕ, String, none, some, List, [], ◌∷◌, ◌==◌, ◌≡◌, ◌⊎◌, refl, truthy, if◌then◌else◌,
}
use aries_framework_javascri.Exec.{ok, ◌>>=◌}
use aries_framework_javascri.Message.{new_message}
use aries_framework_javascri.Connections.Record.{ConnectionRecord, complete, their_key}
use aries_framework_javascri.Agent.Context.{InboundMessageContext}
use aries_framework_javascri.Agent.Envelope.{Envelopes, UnpackedMessage}
use aries_framework_javascri.Agent.Receiver.{
  Receiving, Handler, no_answer, receive, dispatch, unpack_message, known_connection, check_sender,
  matches_sender, transform_message, get_handler_for_type, replace_legacy_did_sov_prefix,
}
use aries_framework_javascri.Agent.Authenticity.{receive-authentic}
use aries_framework_javascri.Tests.Connections.{connection}

abbrev seal : String → List String → String → String
seal j keys sender = append "sealed " j

abbrev envelopes : Envelopes Unit String
envelopes = record {
  pack = λ j keys sender s. (ok (seal j keys sender), s);
  unpack = λ j s. (
    ok (record {
      message = "m";
      sender_verkey = some "alice_key";
      recipient_verkey = some "bob_key";
    }),
    s,
  );
  forward_json = λ f. append "forward " f.message;
}

abbrev uuid : ℕ → String
uuid n = "u"

abbrev handler : Handler Unit String
handler = record { supported_messages = "t" ∷ []; handle = λ context s. (ok none, s) }

abbrev pub deps : Receiving Unit String String
deps = record {
  envelopes = envelopes;
  find_by_verkey = λ key s. (ok (some (connection "c1" complete)), s);
  handlers = handler ∷ [];
  send = λ p s. (ok tt, s);
  type_of = λ j. if j == "m" then some "t" else none;
  forwarded = λ j. j;
  from_json = λ t j. j;
  to_json = λ m. m;
  message_type = λ m. "t";
  base_of = λ m. new_message "m1";
  uuid = uuid;
}

receive_run : receive deps (dispatch deps) "packed" tt ≡ (ok no_answer, tt)
unfolding receive dispatch unpack_message replace_legacy_did_sov_prefix known_connection
    check_sender matches_sender transform_message get_handler_for_type ◌>>=◌
receive_run = refl

receive-authentic_example :
    (unpacked : UnpackedMessage String) × (context : InboundMessageContext String) × (before : Unit)
    × ((unpack_message deps "packed" tt).0 ≡ ok unpacked)
    × (dispatch deps context before ≡ (ok no_answer, tt))
    × ((context.connection ≡ none)
        ⊎ ((c : ConnectionRecord) × (context.connection ≡ some c)
            × ((their_key c ≡ none) ⊎ (truthy unpacked.sender_verkey ≡ their_key c))))
receive-authentic_example = receive-authentic deps (dispatch deps) "packed" tt receive_run
