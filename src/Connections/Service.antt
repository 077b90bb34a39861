-- ===== src/Connections/Service.antt =====
-- modules/connections/services/ConnectionService.ts, method by method, and TrustPingService.ts. A
-- method takes the record that the source reads or is handed, and returns the record as it leaves
-- it; a record is changed in place, so on a throw the caller's copy is not used further.
mod Creation
use Prim.Native.String.{◌++◌ as append}
use aries_framework_javascri.Prelude.{
  ◌&&◌, String, Bool, true, false, Option, none, some, List, [], ◌∷◌, ◌==◌, first, bind_option,
  truthy, if◌then◌else◌,
}
use aries_framework_javascri.Exec.{
  Exec, pure, throw, lift, or_throw, require, ◌>>=◌, ◌>>◌, try_catch, Emitting, on_store, emit,
  StateChanged, Fresh, type_error, connection_not_found, invalid_message, no_recipient_keys,
  signer_mismatch, validation_failed, multiple_connections,
}
use aries_framework_javascri.Storage.{no_tags, Repository, by_verkey, by_their_key}
use aries_framework_javascri.Message.{new_message, bare_message, set_thread, thread_id}
use aries_framework_javascri.Agent.Config.{AgentConfig, get_endpoint, get_routing_keys}
use aries_framework_javascri.Agent.Context.{InboundMessageContext}
use aries_framework_javascri.Signature.{WalletKeys, Encoder, sign_data, unpack_and_verify}
use aries_framework_javascri.Connections.Did.{
  DidDoc, ed25519_sig_2018, authentication_type, referenced, indy_agent, indy_agent_services,
  IndyAgentService,
}
use aries_framework_javascri.Connections.Messages.{
  Connection, ConnectionRequestMessage, ConnectionResponseMessage, TrustPingMessage,
}
use aries_framework_javascri.Connections.Record.{
  ConnectionState, invited, requested, responded, complete, ConnectionRole, inviter, invitee,
  ConnectionInvitationMessage, ConnectionRecord, their_key, assert_state, assert_role, same_state,
  same_role,
}
unfoldable pub use Creation.*

-- `invitation.recipientKeys && invitation.recipientKeys[0]`
abbrev invitation_key_of : ConnectionInvitationMessage → Option String
invitation_key_of invitation = bind_option invitation.recipient_keys first

new_invitation : String → AgentConfig → IndyAgentService → ConnectionInvitationMessage
new_invitation id config service = record {
  base = new_message id;
  label = config.label;
  did = none;
  recipient_keys = some service.recipient_keys;
  service_endpoint = some service.service_endpoint;
  routing_keys = service.routing_keys;
}

-- `a !== b`, where `b` may be `undefined`.
abbrev is_signer : String → Option String → Bool
is_signer signer none = false
is_signer signer (some key) = signer == key

abbrev only_one :
    {W : Type 0} → List ConnectionRecord → Exec (Connecting W) (Option ConnectionRecord)
only_one [] = pure none
only_one (connection ∷ []) = pure (some connection)
only_one (_ ∷ _ ∷ _) = throw multiple_connections

module _ {W J : Type 0} (deps : ConnectionDeps W J) (config : AgentConfig) where
  unfoldable pub create_invitation :
      Fresh
      → InvitationConfig
      → Exec (Connecting W) (ConnectionInvitationMessage × ConnectionRecord)
  unfolding new_invitation
  create_invitation fresh options = do
    connection ← create_connection deps config fresh (record {
      role = inviter;
      state = invited;
      invitation = none;
      config = options;
      invitation_key = none;
    })
    service ← or_throw (first (indy_agent_services connection.did_doc)) type_error
    let invitation = new_invitation fresh.message_id config service
    let changed = record connection { invitation = some invitation }
    on_store (deps.repo.update changed)
    emit (record { changed = changed; previous_state = none })
    pure (invitation, changed)

  unfoldable pub process_invitation :
      Fresh → ConnectionInvitationMessage → InvitationConfig → Exec (Connecting W) ConnectionRecord
  process_invitation fresh invitation options = do
    connection ← create_connection deps config fresh (record {
      role = invitee;
      state = invited;
      invitation = some invitation;
      config = options;
      invitation_key = invitation_key_of invitation;
    })
    on_store (deps.repo.update connection)
    emit (record { changed = connection; previous_state = none })
    pure connection

  unfoldable pub create_request :
      Fresh → String → Exec (Connecting W) (ConnectionRequestMessage × ConnectionRecord)
  create_request fresh connection_id = do
    connection ← on_store (deps.repo.find connection_id)
    assert_state connection (invited ∷ [])
    assert_role connection invitee
    changed ← update_state deps config connection requested
    pure (
      record {
        base = new_message fresh.message_id;
        label = config.label;
        connection = some (record { did = connection.did; did_doc = some connection.did_doc });
      },
      changed,
    )

  unfoldable pub process_request :
      InboundMessageContext ConnectionRequestMessage → Exec (Connecting W) ConnectionRecord
  process_request context = do
    connection ← or_throw context.connection connection_not_found
    assert_state connection (invited ∷ [])
    assert_role connection inviter
    theirs ← or_throw context.message.connection invalid_message
    let known = record connection { their_did = some theirs.did; their_did_doc = theirs.did_doc }
    key ← or_throw (truthy (their_key known)) no_recipient_keys
    let tags = record known.tags { their_key = some key; thread_id = context.message.base.id }
    update_state deps config (record known { tags = tags }) requested

  unfoldable pub create_response :
      Fresh → String → Exec (Connecting W) (ConnectionResponseMessage × ConnectionRecord)
  create_response fresh connection_id = do
    connection ← on_store (deps.repo.find connection_id)
    assert_state connection (requested ∷ [])
    assert_role connection inviter
    let json = deps.to_json (record { did = connection.did; did_doc = some connection.did_doc })
    signature ← on_store (sign_data deps.keys deps.encoder fresh.now json connection.verkey)
    changed ← update_state deps config connection responded
    pure (
      record {
        base = set_thread connection.tags.thread_id (new_message fresh.message_id);
        connection_sig = signature;
      },
      changed,
    )

  unfoldable pub process_response :
      InboundMessageContext ConnectionResponseMessage → Exec (Connecting W) ConnectionRecord
  process_response context = do
    connection ← or_throw context.connection connection_not_found
    assert_state connection (requested ∷ [])
    assert_role connection invitee
    let decorator = context.message.connection_sig
    json ← on_store (unpack_and_verify deps.keys deps.encoder decorator)
    let theirs = deps.from_json json
    require (deps.is_valid theirs) validation_failed
    require (is_signer decorator.signer connection.tags.invitation_key) signer_mismatch
    let known = record connection { their_did = some theirs.did; their_did_doc = theirs.did_doc }
    key ← or_throw (truthy (their_key known)) no_recipient_keys
    let tags = record known.tags {
      their_key = some key;
      thread_id = thread_id context.message.base;
    }
    update_state deps config (record known { tags = tags }) responded

  -- `new TrustPingMessage()` has no options, so the constructor sets no id.
  unfoldable pub create_trust_ping :
      String → Exec (Connecting W) (TrustPingMessage × ConnectionRecord)
  create_trust_ping connection_id = do
    connection ← on_store (deps.repo.find connection_id)
    assert_state connection (responded ∷ complete ∷ [])
    changed ← update_state deps config connection complete
    pure (record { base = bare_message; response_requested = true }, changed)

  unfoldable pub process_ack :
      {M : Type 0} → InboundMessageContext M → Exec (Connecting W) ConnectionRecord
  process_ack context = do
    connection ← or_throw context.connection connection_not_found
    if same_state connection.state responded && same_role connection.role inviter
        then update_state deps config connection complete
        else pure connection

  unfoldable pub get_connections : Exec (Connecting W) (List ConnectionRecord)
  get_connections = on_store deps.repo.find_all

  unfoldable pub get_by_id : String → Exec (Connecting W) ConnectionRecord
  get_by_id connection_id = on_store (deps.repo.find connection_id)

  unfoldable pub find : String → Exec (Connecting W) (Option ConnectionRecord)
  find connection_id =
      try_catch (do connection ← on_store (deps.repo.find connection_id); pure (some connection))
        (pure none)

  unfoldable pub find_by_verkey : String → Exec (Connecting W) (Option ConnectionRecord)
  find_by_verkey verkey = do
    found ← on_store (deps.repo.find_by_query (by_verkey verkey))
    only_one found

  unfoldable pub find_by_their_key : String → Exec (Connecting W) (Option ConnectionRecord)
  find_by_their_key verkey = do
    found ← on_store (deps.repo.find_by_query (by_their_key verkey))
    only_one found
