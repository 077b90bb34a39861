-- ===== src/Tests/Samples.antt =====
-- The mediator sample: a message that waits for "alice_key", and the link of a new invitation.
use aries_framework_javascri.Prelude.{
  String, none, some, List, [], ◌∷◌, ◌++◌, map, codes, ◌≡◌, refl, ap,
}
use aries_framework_javascri.Exec.{Result, ok, err, Fresh, no_their_key, ok-run, ◌>>=◌}
use aries_framework_javascri.Storage.InMemory.{Dict, find_by_verkey}
use aries_framework_javascri.Message.{matches_message_id}
use aries_framework_javascri.Agent.Context.{OutboundMessage}
use aries_framework_javascri.Agent.Envelope.{OutboundPackage}
use aries_framework_javascri.Agent.Config.{get_endpoint}
use aries_framework_javascri.Connections.Record.{
  ConnectionRecord, ConnectionInvitationMessage, complete,
}
use aries_framework_javascri.Connections.Service.{Connecting, create_invitation, create_connection}
use aries_framework_javascri.Connections.Did.{authentication_type}
use aries_framework_javascri.Connections.Module.{ConnectionSending}
use aries_framework_javascri.Connections.Module
use aries_framework_javascri.Connections.Invitation.{
  InvitationCodec, PlainInvitation, plain_of, base64_to_base64_url, replace_all, remove_all,
  encode_invitation_to_url, decode_invitation_from_url,
}
use aries_framework_javascri.Connections.Invitation.RoundTrip.{IsReadable}
use aries_framework_javascri.Routing.Messages.{BatchMessage, BatchMessageMessage}
use aries_framework_javascri.Routing.Pickup.{batch}
use aries_framework_javascri.Samples.Mediator.{send_message, store_message, get_invitation}
use aries_framework_javascri.Samples.Delivery.{batch-send_message}
use aries_framework_javascri.Samples.Links.{decode_invitation-get_invitation}
use aries_framework_javascri.Tests.Connections.{connection, config, deps}

abbrev outbound : OutboundPackage String
outbound = record {
  connection = connection "c1" complete;
  payload = "second";
  endpoint = some "didcomm:transport/queue";
}

abbrev queues : Dict (List String)
queues = ("alice_key", "first" ∷ []) ∷ ("carol_key", "other" ∷ []) ∷ []

batch-send_message_example :
    (stored : Dict (List String)) × (m : OutboundMessage (BatchMessage String)) × (later : Dict
      (List String))
    × (send_message outbound queues ≡ (ok tt, stored))
    × (batch "b1" (λ n. "u") (connection "c1" complete) (some stored) ≡ (ok m, some later))
    × (map (λ (x : BatchMessageMessage String). x.message) m.payload.messages
        ≡ find_by_verkey "alice_key" queues ++ "second" ∷ [])
    × (find_by_verkey "carol_key" later ≡ find_by_verkey "carol_key" queues)
batch-send_message_example =
    batch-send_message outbound queues "b1" (λ n. "u") "alice_key" "carol_key" refl

without_key :
    send_message
      (record outbound { connection = record (connection "c1" complete) { their_did_doc = none } })
      queues
    ≡ (err no_their_key, queues)
unfolding send_message store_message ◌>>=◌
without_key = refl

abbrev fresh : Fresh
fresh = record { record_id = "r1"; message_id = "3fa85f64-5717"; now = 7 }

abbrev empty : Connecting (List ConnectionRecord)
empty = record { store = []; events = [] }

abbrev created : Result (ConnectionInvitationMessage × ConnectionRecord)
created =
    (create_invitation deps config fresh (record { auto_accept = none; alias = none }) empty).0

abbrev blank : PlainInvitation
blank = record {
  type = none;
  id = none;
  label = none;
  did = none;
  recipient_keys = none;
  service_endpoint = none;
  routing_keys = none;
}

abbrev plain_from : Result (ConnectionInvitationMessage × ConnectionRecord) → PlainInvitation
plain_from (ok (invitation, _)) = plain_of invitation
plain_from (err e) = blank

-- The JSON of the one invitation that is created.
abbrev codec : InvitationCodec PlainInvitation
codec = record {
  to_base64 = λ j. codes "ab+c/d==";
  from_base64 = λ t. ok (plain_from created);
  fields_of = λ j. j;
  json_of = λ plain. plain;
}

codec-IsReadable :
    (i : ConnectionInvitationMessage) (r : ConnectionRecord)
    → created ≡ ok (i, r)
    → IsReadable codec (plain_of i)
codec-IsReadable i r e = record {
  base64_lem = λ u h. ap (λ x. ok (plain_from x)) e;
  fields_lem = refl;
}

abbrev sending : ConnectionSending (List ConnectionRecord)
sending = record {
  sender = record { send = λ m s. (ok tt, s) };
  route_sender = record { send = λ m s. (ok tt, s) };
}

get_invitation_run :
    (get_invitation deps config sending codec fresh "m2" empty).0
    ≡ ok (codes "https://example.com/ssi?c_i=ab-c_d")
unfolding get_invitation Module.create_connection create_invitation create_connection get_endpoint
    authentication_type encode_invitation_to_url base64_to_base64_url remove_all replace_all ◌>>=◌
get_invitation_run = refl

decode_invitation-get_invitation_example :
    (invitation : ConnectionInvitationMessage) × (inviting : ConnectionRecord) × (created
      ≡ ok (invitation, inviting))
    × (inviting.invitation ≡ some invitation)
    × (decode_invitation_from_url codec (codes "https://example.com/ssi?c_i=ab-c_d")
        ≡ ok (plain_of invitation))
unfolding matches_message_id
decode_invitation-get_invitation_example =
    decode_invitation-get_invitation deps config sending codec fresh "m2" empty codec-IsReadable
      refl (ok-run (get_invitation deps config sending codec fresh "m2") empty get_invitation_run)
