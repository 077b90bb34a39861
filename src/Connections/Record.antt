-- ===== src/Connections/Record.antt =====
-- modules/connections/repository/ConnectionRecord.ts and the enumerations of models/.
use aries_framework_javascri.Prelude.{
  ℕ, String, Option, none, some, List, [], ◌∷◌, Bool, true, false, first, any,
}
use aries_framework_javascri.Exec.{Exec, require, invalid_state, invalid_role, not_ready}
use aries_framework_javascri.Storage.{Tags}
use aries_framework_javascri.Message.{AgentMessage}
use aries_framework_javascri.Connections.Did.{DidDoc, IndyAgentService, indy_agent_services}

pub data ConnectionState : Type 0 where
  init invited requested responded complete : ConnectionState

pub data ConnectionRole : Type 0 where
  inviter invitee : ConnectionRole

-- messages/ConnectionInvitationMessage.ts; a record stores the invitation that it came with.
pub record ConnectionInvitationMessage : Type 0 where
  pub base : AgentMessage
  pub label : String
  pub did : Option String
  pub recipient_keys : Option (List String)
  pub service_endpoint : Option String
  pub routing_keys : Option (List String)

-- The documents and the invitation are kept as the classes that the getters return.
pub record ConnectionRecord : Type 0 where
  pub id : String
  pub created_at : ℕ
  pub did : String
  pub did_doc : DidDoc
  pub verkey : String
  pub their_did : Option String
  pub their_did_doc : Option DidDoc
  pub invitation : Option ConnectionInvitationMessage
  pub state : ConnectionState
  pub role : ConnectionRole
  pub endpoint : Option String
  pub alias : Option String
  pub auto_accept_connection : Option Bool
  pub tags : Tags

abbrev pub first_key : Option IndyAgentService → Option String
first_key none = none
first_key (some s) = first s.recipient_keys

-- `none` where the source has `null` or `undefined`.
abbrev pub key_of_doc : Option DidDoc → Option String
key_of_doc none = none
key_of_doc (some doc) = first_key (first (indy_agent_services doc))

-- The getters `myKey` and `theirKey`.
abbrev pub my_key : ConnectionRecord → Option String
my_key c = key_of_doc (some c.did_doc)

abbrev pub their_key : ConnectionRecord → Option String
their_key c = key_of_doc c.their_did_doc

abbrev pub same_state : ConnectionState → ConnectionState → Bool
same_state init init = true
same_state invited invited = true
same_state requested requested = true
same_state responded responded = true
same_state complete complete = true
same_state _ _ = false

abbrev pub same_role : ConnectionRole → ConnectionRole → Bool
same_role inviter inviter = true
same_role invitee invitee = true
same_role _ _ = false

abbrev pub is_ready : ConnectionRecord → Bool
is_ready c = any (same_state c.state) (responded ∷ complete ∷ [])

module _ {S : Type 0} where
  abbrev pub assert_ready : ConnectionRecord → Exec S Unit
  assert_ready c = require (is_ready c) not_ready

  abbrev pub assert_state : ConnectionRecord → List ConnectionState → Exec S Unit
  assert_state c expected = require (any (same_state c.state) expected) invalid_state

  abbrev pub assert_role : ConnectionRecord → ConnectionRole → Exec S Unit
  assert_role c expected = require (same_role c.role expected) invalid_role
