-- ===== src/Connections/Service/Creation.antt =====
-- modules/connections/services/ConnectionService.ts: what its methods share, with `updateState` and
-- `createConnection`.
use Prim.Native.String.{◌++◌ as append}
use aries_framework_javascri.Prelude.{String, Bool, Option, none, some, List, [], ◌∷◌}
use aries_framework_javascri.Exec.{
  Exec, pure, lift, or_throw, ◌>>=◌, ◌>>◌, Emitting, on_store, emit, StateChanged, Fresh,
  type_error,
}
use aries_framework_javascri.Storage.{no_tags, Repository}
use aries_framework_javascri.Agent.Config.{AgentConfig, get_endpoint, get_routing_keys}
use aries_framework_javascri.Signature.{WalletKeys, Encoder}
use aries_framework_javascri.Connections.Did.{
  DidDoc, ed25519_sig_2018, authentication_type, referenced, indy_agent,
}
use aries_framework_javascri.Connections.Messages.{Connection}
use aries_framework_javascri.Connections.Record.{
  ConnectionState, ConnectionRole, ConnectionInvitationMessage, ConnectionRecord,
}

abbrev pub ConnectionEvent : Type 0
ConnectionEvent = StateChanged ConnectionRecord ConnectionState

-- The service's dependencies. `to_json`, `from_json` and `is_valid` are class-transformer and
-- class-validator at the class Connection.
pub record ConnectionDeps (W J : Type 0) : Type 0 where
  pub repo : Repository ConnectionRecord W
  pub keys : WalletKeys W
  pub encoder : Encoder J
  pub to_json : Connection → J
  pub from_json : J → Connection
  pub is_valid : Connection → Bool

-- The options of `createInvitation` and `processInvitation`.
pub record InvitationConfig : Type 0 where
  pub auto_accept : Option Bool
  pub alias : Option String

-- The options of `createConnection`.
pub record CreateOptions : Type 0 where
  pub role : ConnectionRole
  pub state : ConnectionState
  pub invitation : Option ConnectionInvitationMessage
  pub config : InvitationConfig
  pub invitation_key : Option String

-- The document that `createConnection` writes for a new did.
new_did_doc : String → String → String → List String → String → DidDoc
unfolding ed25519_sig_2018
new_did_doc did verkey endpoint routing_keys auth_type =
    let public_key = ed25519_sig_2018 (append did "#1") did verkey in
    record {
      id = did;
      public_key = public_key ∷ [];
      service =
          indy_agent (record {
            id = append did ";indy";
            service_endpoint = endpoint;
            recipient_keys = verkey ∷ [];
            routing_keys = some routing_keys;
            priority = 0;
          })
          ∷ [];
      authentication = referenced public_key auth_type ∷ [];
    }

new_connection_record : Fresh → CreateOptions → String → String → DidDoc → ConnectionRecord
new_connection_record fresh options did verkey doc = record {
  id = fresh.record_id;
  created_at = fresh.now;
  did = did;
  did_doc = doc;
  verkey = verkey;
  their_did = none;
  their_did_doc = none;
  invitation = options.invitation;
  state = options.state;
  role = options.role;
  endpoint = none;
  alias = options.config.alias;
  auto_accept_connection = options.config.auto_accept;
  tags = record no_tags { invitation_key = options.invitation_key; verkey = some verkey };
}

-- The service over a wallet with state `W`.
abbrev pub Connecting : Type 0 → Type 0
Connecting W = Emitting W ConnectionEvent

module _ {W J : Type 0} (deps : ConnectionDeps W J) (config : AgentConfig) where
  unfoldable pub update_state :
      ConnectionRecord → ConnectionState → Exec (Connecting W) ConnectionRecord
  update_state connection new_state = do
    let previous_state = connection.state
    let changed = record connection { state = new_state }
    on_store (deps.repo.update changed)
    emit (record { changed = changed; previous_state = some previous_state })
    pure changed

  unfoldable pub create_connection : Fresh → CreateOptions → Exec (Connecting W) ConnectionRecord
  unfolding new_did_doc new_connection_record
  create_connection fresh options = do
    (did, verkey) ← on_store deps.keys.create_did
    endpoint ← lift (get_endpoint config)
    auth_type ← or_throw (authentication_type "Ed25519VerificationKey2018") type_error
    let doc = new_did_doc did verkey endpoint (get_routing_keys config) auth_type
    let connection = new_connection_record fresh options did verkey doc
    on_store (deps.repo.save connection)
    pure connection
