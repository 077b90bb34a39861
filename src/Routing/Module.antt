-- ===== src/Routing/Module.antt =====
-- modules/routing/RoutingModule.ts: the agent's mediator, and the messages that wait there. The
-- module's getters and `getRoutingTable` only return a field.
use aries_framework_javascri.Prelude.{String, Option, none, some, List, [], ◌∷◌, map, or_else}
use aries_framework_javascri.Exec.{
  Exec, Result, pure, lift, or_throw, ◌>>=◌, ◌>>◌, on_store, Fresh, connection_not_found,
}
use aries_framework_javascri.Storage.{Repository}
use aries_framework_javascri.Agent.Config.{AgentConfig, InboundConnection, establish_inbound}
use aries_framework_javascri.Agent.Context.{InboundMessageContext, OutboundMessage}
use aries_framework_javascri.Agent.Helpers.{create_outbound_message}
use aries_framework_javascri.Agent.Sending.{Sender, send_to}
use aries_framework_javascri.Connections.Messages.{ConnectionResponseMessage}
use aries_framework_javascri.Connections.Record.{
  ConnectionRecord, ConnectionInvitationMessage, complete, assert_state,
}
use aries_framework_javascri.Connections.Service.{
  ConnectionDeps, Connecting, process_invitation, create_request, process_response,
  create_trust_ping, find,
}
use aries_framework_javascri.Connections.Module.{ConnectionMessage, request_message, ping_message}
use aries_framework_javascri.Routing.Messages.{
  BatchPickupMessage, BatchMessage, BatchMessageMessage,
}
use aries_framework_javascri.Routing.Pickup.{batch_pickup}
use aries_framework_javascri.Routing.Provisioning.{
  ProvisioningRecord, find_provisioning, create_provisioning,
}

pub record MediatorConfiguration : Type 0 where
  pub verkey : String
  pub invitation_url : String
  pub alias : Option String

-- What the module sends with, and `ConnectionInvitationMessage.fromUrl`. The answer to a request is
-- in the context of the connection that the request was sent on (`send_and_receive_message` of
-- Agent/Envelope.antt).
pub record Mediation (W : Type 0) : Type 0 where
  pub provisioning : Repository ProvisioningRecord W
  pub from_url : String → Result ConnectionInvitationMessage
  pub sender : Sender W ConnectionMessage
  pub send_and_receive :
      OutboundMessage ConnectionMessage → Exec W (InboundMessageContext ConnectionResponseMessage)

-- What the calls of `provision` take from `uuid()` and `Date.now()`, one for each call.
pub record FreshProvisioning : Type 0 where
  pub invitation : Fresh
  pub request : Fresh
  pub provisioning : Fresh

module _ {W J : Type 0} (deps : ConnectionDeps W J) (config : AgentConfig) (mediation : Mediation W)
    (fresh : FreshProvisioning) (mediator : MediatorConfiguration) where
  -- The record that `createRequest` returned is the one that `processResponse` changes; the trust
  -- ping is sent on it.
  unfoldable pub connect_to_mediator : Exec (Connecting W) ProvisioningRecord
  connect_to_mediator = do
    invitation ← lift (mediation.from_url mediator.invitation_url)
    connection ←
        process_invitation deps config fresh.invitation invitation
          (record { auto_accept = none; alias = some (or_else mediator.alias "Mediator") })
    (request, requested) ← create_request deps config fresh.request connection.id
    outbound ←
        lift (create_outbound_message requested (request_message request) requested.invitation)
    response ← on_store (mediation.send_and_receive outbound)
    responded ← process_response deps config response
    (ping, _) ← create_trust_ping deps config requested.id
    on_store (send_to mediation.sender responded (ping_message ping))
    on_store
        (create_provisioning mediation.provisioning fresh.provisioning requested.id mediator.verkey)

  unfoldable pub known_or_connected :
      Option ProvisioningRecord → Exec (Connecting W) ProvisioningRecord
  known_or_connected none = connect_to_mediator
  known_or_connected (some r) = pure r

  -- The mediator's connection, and the configuration with it.
  unfoldable pub provision : Exec (Connecting W) (ConnectionRecord × AgentConfig)
  unfolding known_or_connected
  provision = do
    found ← on_store (find_provisioning mediation.provisioning)
    r ← known_or_connected found
    known ← find deps config r.mediator_connection_id
    connection ← or_throw known connection_not_found
    assert_state connection (complete ∷ [])
    pure (
      connection,
      establish_inbound (record { verkey = r.mediator_public_verkey; connection = connection })
          config,
    )

module _ {W M : Type 0}
    (send_and_receive : OutboundMessage BatchPickupMessage
      → Exec W (InboundMessageContext (BatchMessage M)))
    (id : String) where
  download : Option InboundConnection → Exec W (List M)
  download none = pure []
  download (some inbound) = do
    outbound ← lift (batch_pickup id inbound)
    response ← send_and_receive outbound
    pure (map (λ (m : BatchMessageMessage M). m.message) response.message.messages)

  unfoldable pub download_messages : AgentConfig → Exec W (List M)
  unfolding download
  download_messages config = download config.inbound_connection
