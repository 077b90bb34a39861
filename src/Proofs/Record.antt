-- ===== src/Proofs/Record.antt =====
-- modules/proofs/repository/ProofRecord.ts and ProofState.ts.
use aries_framework_javascri.Prelude.{ℕ, String, Option, List, Bool, true, false, any, ◌==◌}
use aries_framework_javascri.Exec.{Exec, require, invalid_state, wrong_connection}
use aries_framework_javascri.Storage.{Tags}
use aries_framework_javascri.Proofs.Messages.{
  ProposePresentationMessage, RequestPresentationMessage, PresentationMessage,
}

pub data ProofState : Type 0 where
  proposal_sent proposal_received request_sent request_received presentation_sent
        presentation_received done :
      ProofState

pub record ProofRecord : Type 0 where
  pub id : String
  pub created_at : ℕ
  pub connection_id : String
  pub is_verified : Option Bool
  pub presentation_id : Option String
  pub tags : Tags
  pub state : ProofState
  pub proposal_message : Option ProposePresentationMessage
  pub request_message : Option RequestPresentationMessage
  pub presentation_message : Option PresentationMessage

abbrev pub same_state : ProofState → ProofState → Bool
same_state proposal_sent proposal_sent = true
same_state proposal_received proposal_received = true
same_state request_sent request_sent = true
same_state request_received request_received = true
same_state presentation_sent presentation_sent = true
same_state presentation_received presentation_received = true
same_state done done = true
same_state _ _ = false

module _ {S : Type 0} where
  abbrev pub assert_state : ProofRecord → List ProofState → Exec S Unit
  assert_state r expected = require (any (same_state r.state) expected) invalid_state

  abbrev pub assert_connection : ProofRecord → String → Exec S Unit
  assert_connection r current = require (r.connection_id == current) wrong_connection
