-- ===== src/Agent/Helpers.antt =====
-- agent/helpers.ts: where an answer goes.
use aries_framework_javascri.Prelude.{
  Option, none, some, [], or_else, first, String, truthy, ◌≡◌, refl, arith,
}
use aries_framework_javascri.Exec.{Result, ok, err, type_error, no_did_doc}
use aries_framework_javascri.Connections.Did.{DidDoc, IndyAgentService, indy_agent_services}
use aries_framework_javascri.Connections.Record.{
  ConnectionRecord, ConnectionInvitationMessage, their_key, key_of_doc, first_key,
}
use aries_framework_javascri.Agent.Context.{OutboundMessage}

module _ {M : Type 0} (connection : ConnectionRecord) (payload : M) where
  to_invitation : ConnectionInvitationMessage → OutboundMessage M
  to_invitation invitation = record {
    connection = connection;
    endpoint = invitation.service_endpoint;
    payload = payload;
    recipient_keys = or_else invitation.recipient_keys [];
    routing_keys = or_else invitation.routing_keys [];
    sender_vk = connection.verkey;
  }

  -- A document without an indy service: `service.serviceEndpoint` is read of `undefined`.
  to_service : Option IndyAgentService → Result (OutboundMessage M)
  to_service none = err type_error
  to_service (some service) = ok (record {
    connection = connection;
    endpoint = some service.service_endpoint;
    payload = payload;
    recipient_keys = service.recipient_keys;
    routing_keys = or_else service.routing_keys [];
    sender_vk = connection.verkey;
  })

  to_doc : Option DidDoc → Result (OutboundMessage M)
  unfolding to_service
  to_doc none = err no_did_doc
  to_doc (some doc) = to_service (first (indy_agent_services doc))

  unfoldable pub create_outbound_message :
      Option ConnectionInvitationMessage → Result (OutboundMessage M)
  unfolding to_invitation to_doc
  create_outbound_message none = to_doc connection.their_did_doc
  create_outbound_message (some invitation) = ok (to_invitation invitation)

truthy-some : (o : Option String) {k : String} → truthy o ≡ some k → o ≡ some k
truthy-some none e = absurd (cc e)
truthy-some (some s) e = ground arith

module _ {M : Type 0} (connection : ConnectionRecord) (payload : M) (key : String) where
  Reaches : Result (OutboundMessage M) → Type 0
  Reaches r =
      (m : OutboundMessage M) × (r ≡ ok m)
      × (m.payload ≡ payload)
      × (first m.recipient_keys ≡ some key)

  to_service-Reaches :
      (s : Option IndyAgentService)
      → truthy (first_key s) ≡ some key
      → Reaches (to_service connection payload s)
  unfolding to_service Reaches
  to_service-Reaches none e = absurd (cc e)
  to_service-Reaches (some s) e = (_, refl, refl, truthy-some _ e)

  to_doc-Reaches :
      (d : Option DidDoc) → truthy (key_of_doc d) ≡ some key → Reaches (to_doc connection payload d)
  unfolding to_doc Reaches
  to_doc-Reaches none e = absurd (cc e)
  to_doc-Reaches (some d) e = to_service-Reaches (first (indy_agent_services d)) e

  -- An answer to a connection whose key is known is addressed to that key.
  pub create_outbound_message-Reaches :
      truthy (their_key connection) ≡ some key
      → (m : OutboundMessage M) × (create_outbound_message connection payload none ≡ ok m)
        × (m.payload ≡ payload)
        × (first m.recipient_keys ≡ some key)
  unfolding create_outbound_message Reaches
  create_outbound_message-Reaches e = to_doc-Reaches connection.their_did_doc e
