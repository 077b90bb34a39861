-- ===== src/Agent/Registration.antt =====
-- agent/Agent.ts (registerModules), Dispatcher.registerHandler and registerHandlers of the modules:
-- which handler gets a message of which type. The methods of the handlers are the models of the
-- services; here they are the fields of a record.
use aries_framework_javascri.Prelude.{
  String, ◌≡◌, Option, some, List, [], ◌∷◌, ◌++◌, refl, length, map_option, All, ◌⊎◌, inl, inr,
}
use aries_framework_javascri.Exec.{Exec, err, no_handler, ◌>>=◌}
use aries_framework_javascri.Connections.Invitation.{invitation_type}
use aries_framework_javascri.Agent.Context.{InboundMessageContext, OutboundMessage}
use aries_framework_javascri.Agent.Receiver.{Handler, Receiving, get_handler_for_type, dispatch}

-- The types of the messages that have a handler, from the enumerations beside the messages.
abbrev pub connection_request_type : String
connection_request_type = "https://didcomm.org/connections/1.0/request"

abbrev pub connection_response_type : String
connection_response_type = "https://didcomm.org/connections/1.0/response"

abbrev pub ack_type : String
ack_type = "https://didcomm.org/notification/1.0/ack"

abbrev pub trust_ping_type : String
trust_ping_type = "https://didcomm.org/trust_ping/1.0/ping"

abbrev pub trust_ping_response_type : String
trust_ping_response_type = "https://didcomm.org/trust_ping/1.0/ping_response"

abbrev pub propose_credential_type : String
propose_credential_type = "https://didcomm.org/issue-credential/1.0/propose-credential"

abbrev pub offer_credential_type : String
offer_credential_type = "https://didcomm.org/issue-credential/1.0/offer-credential"

abbrev pub request_credential_type : String
request_credential_type = "https://didcomm.org/issue-credential/1.0/request-credential"

abbrev pub issue_credential_type : String
issue_credential_type = "https://didcomm.org/issue-credential/1.0/issue-credential"

abbrev pub credential_ack_type : String
credential_ack_type = "https://didcomm.org/issue-credential/1.0/ack"

abbrev pub propose_presentation_type : String
propose_presentation_type = "https://didcomm.org/present-proof/1.0/propose-presentation"

abbrev pub request_presentation_type : String
request_presentation_type = "https://didcomm.org/present-proof/1.0/request-presentation"

abbrev pub presentation_type : String
presentation_type = "https://didcomm.org/present-proof/1.0/presentation"

abbrev pub presentation_ack_type : String
presentation_ack_type = "https://didcomm.org/present-proof/1.0/ack"

abbrev pub keylist_update_type : String
keylist_update_type = "https://didcomm.org/coordinatemediation/1.0/keylist_update"

abbrev pub forward_type : String
forward_type = "https://didcomm.org/routing/1.0/forward"

abbrev pub batch_pickup_type : String
batch_pickup_type = "https://didcomm.org/messagepickup/1.0/batch-pickup"

abbrev pub basic_message_type : String
basic_message_type = "https://didcomm.org/basicmessage/1.0/message"

-- A message that an agent sends and, like an invitation, has no handler for.
abbrev pub batch_type : String
batch_type = "https://didcomm.org/messagepickup/1.0/batch"

abbrev pub Handle : Type 0 → Type 0 → Type 0
Handle S M = InboundMessageContext M → Exec S (Option (OutboundMessage M))

-- `handle` of each handler class.
pub record Handles (S M : Type 0) : Type 0 where
  pub connection_request : Handle S M
  pub connection_response : Handle S M
  pub ack : Handle S M
  pub trust_ping : Handle S M
  pub trust_ping_response : Handle S M
  pub propose_credential : Handle S M
  pub offer_credential : Handle S M
  pub request_credential : Handle S M
  pub issue_credential : Handle S M
  pub credential_ack : Handle S M
  pub propose_presentation : Handle S M
  pub request_presentation : Handle S M
  pub presentation : Handle S M
  pub presentation_ack : Handle S M
  pub keylist_update : Handle S M
  pub forward : Handle S M
  pub message_pickup : Handle S M
  pub basic_message : Handle S M

-- `new …Handler(service)`
abbrev handler_of : {S M : Type 0} → String → Handle S M → Handler S M
handler_of t handle = record { supported_messages = t ∷ []; handle = handle }

module _ {S M : Type 0} where
  -- `registerHandler`, on the handlers of the dispatcher.
  unfoldable pub register_handler : Handler S M → List (Handler S M) → List (Handler S M)
  register_handler handler handlers = handlers ++ handler ∷ []

  -- `dispatcher.registerHandler(…)`, one call after the other.
  register_all : List (Handler S M) → List (Handler S M) → List (Handler S M)
  unfolding register_handler
  register_all [] handlers = handlers
  register_all (h ∷ rest) handlers = register_all rest (register_handler h handlers)

module _ {S M : Type 0} (handles : Handles S M) where
  unfoldable pub register_connections : List (Handler S M) → List (Handler S M)
  unfolding register_all
  register_connections = register_all (
      handler_of connection_request_type handles.connection_request
      ∷ handler_of connection_response_type handles.connection_response
      ∷ handler_of ack_type handles.ack
      ∷ handler_of trust_ping_type handles.trust_ping
      ∷ handler_of trust_ping_response_type handles.trust_ping_response
      ∷ [])

  unfoldable pub register_credentials : List (Handler S M) → List (Handler S M)
  unfolding register_all
  register_credentials = register_all (
      handler_of propose_credential_type handles.propose_credential
      ∷ handler_of offer_credential_type handles.offer_credential
      ∷ handler_of request_credential_type handles.request_credential
      ∷ handler_of issue_credential_type handles.issue_credential
      ∷ handler_of credential_ack_type handles.credential_ack
      ∷ [])

  unfoldable pub register_proofs : List (Handler S M) → List (Handler S M)
  unfolding register_all
  register_proofs = register_all (
      handler_of propose_presentation_type handles.propose_presentation
      ∷ handler_of request_presentation_type handles.request_presentation
      ∷ handler_of presentation_type handles.presentation
      ∷ handler_of presentation_ack_type handles.presentation_ack
      ∷ [])

  unfoldable pub register_routing : List (Handler S M) → List (Handler S M)
  unfolding register_all
  register_routing = register_all (
      handler_of keylist_update_type handles.keylist_update
      ∷ handler_of forward_type handles.forward
      ∷ handler_of batch_pickup_type handles.message_pickup
      ∷ [])

  unfoldable pub register_basic_messages : List (Handler S M) → List (Handler S M)
  unfolding register_all
  register_basic_messages = register_all (handler_of basic_message_type handles.basic_message ∷ [])

  -- `registerModules`, from the empty list of a new dispatcher. LedgerModule registers none.
  unfoldable pub register_modules : List (Handler S M)
  unfolding register_connections register_credentials register_proofs register_routing
      register_basic_messages
  register_modules =
      register_basic_messages
        (register_routing (register_proofs (register_credentials (register_connections []))))

-- An agent whose dispatcher has the handlers that its modules registered.
abbrev pub assembled : {S M J : Type 0} → Receiving S M J → Handles S M → Receiving S M J
assembled deps handles = record deps { handlers = register_modules handles }

module _ {S M J : Type 0} (deps : Receiving S M J) (handles : Handles S M) where
  -- Which handler is meant for which type of message.
  abbrev pub handled : List (String × Handle S M)
  handled =
      (connection_request_type, handles.connection_request)
      ∷ (connection_response_type, handles.connection_response)
      ∷ (ack_type, handles.ack)
      ∷ (trust_ping_type, handles.trust_ping)
      ∷ (trust_ping_response_type, handles.trust_ping_response)
      ∷ (propose_credential_type, handles.propose_credential)
      ∷ (offer_credential_type, handles.offer_credential)
      ∷ (request_credential_type, handles.request_credential)
      ∷ (issue_credential_type, handles.issue_credential)
      ∷ (credential_ack_type, handles.credential_ack)
      ∷ (propose_presentation_type, handles.propose_presentation)
      ∷ (request_presentation_type, handles.request_presentation)
      ∷ (presentation_type, handles.presentation)
      ∷ (presentation_ack_type, handles.presentation_ack)
      ∷ (keylist_update_type, handles.keylist_update)
      ∷ (forward_type, handles.forward)
      ∷ (batch_pickup_type, handles.message_pickup)
      ∷ (basic_message_type, handles.basic_message)
      ∷ []

  -- The modules register 18 handlers, and for each of the 18 types of message in the list above the
  -- dispatcher finds the handler that is meant for it.
  pub get_handler_for_type-register_modules :
      (length (register_modules handles) ≡ 18)
      × (length handled ≡ 18)
      × All
          (λ p.
            map_option (λ h. h.handle) (get_handler_for_type (assembled deps handles) p.0)
            ≡ some p.1)
          handled
  unfolding get_handler_for_type register_modules
  get_handler_for_type-register_modules = (refl, refl, search)

  -- An invitation or a batch of messages that comes in as a message: no module has registered a
  -- handler for it, so dispatch throws, and nothing changes.
  dispatch_unhandled :
      (context : InboundMessageContext M) (s : S)
      → (deps.message_type context.message ≡ invitation_type)
        ⊎ (deps.message_type context.message ≡ batch_type)
      → dispatch (assembled deps handles) context s ≡ (err no_handler, s)
  unfolding dispatch get_handler_for_type register_modules ◌>>=◌
  dispatch_unhandled context s (inl e) = rw e
  dispatch_unhandled context s (inr e) = rw e
