-- ===== src/Credentials/Record.antt =====
-- modules/credentials/repository/CredentialRecord.ts and CredentialState.ts.
use aries_framework_javascri.Prelude.{ℕ, String, Option, List, Bool, true, false, any, ◌==◌}
use aries_framework_javascri.Exec.{Exec, require, invalid_state, wrong_connection}
use aries_framework_javascri.Storage.{Tags}
use aries_framework_javascri.Credentials.Messages.{
  ProposeCredentialMessage, OfferCredentialMessage, RequestCredentialMessage,
  IssueCredentialMessage,
}

pub data CredentialState : Type 0 where
  proposal_sent proposal_received offer_sent offer_received request_sent request_received
        credential_issued credential_received done :
      CredentialState

-- `J` is the type of plain JSON values, here the metadata of the request.
pub record CredentialRecord (J : Type 0) : Type 0 where
  pub id : String
  pub created_at : ℕ
  pub connection_id : String
  pub credential_id : Option String
  pub request_metadata : Option J
  pub tags : Tags
  pub state : CredentialState
  pub proposal_message : Option ProposeCredentialMessage
  pub offer_message : Option OfferCredentialMessage
  pub request_message : Option RequestCredentialMessage
  pub credential_message : Option IssueCredentialMessage

abbrev pub same_state : CredentialState → CredentialState → Bool
same_state proposal_sent proposal_sent = true
same_state proposal_received proposal_received = true
same_state offer_sent offer_sent = true
same_state offer_received offer_received = true
same_state request_sent request_sent = true
same_state request_received request_received = true
same_state credential_issued credential_issued = true
same_state credential_received credential_received = true
same_state done done = true
same_state _ _ = false

module _ {J S : Type 0} where
  abbrev pub assert_state : CredentialRecord J → List CredentialState → Exec S Unit
  assert_state r expected = require (any (same_state r.state) expected) invalid_state

  abbrev pub assert_connection : CredentialRecord J → String → Exec S Unit
  assert_connection r current = require (r.connection_id == current) wrong_connection
