-- ===== src/Credentials/Transitions.antt =====
-- The states of RFC 0036 and the steps between them.
use aries_framework_javascri.Prelude.{true, Option, none, some, [], ◌∷◌, ◌≡◌, any}
use aries_framework_javascri.Exec.{keeps_rules, Traced}
use aries_framework_javascri.Credentials.Record.{
  CredentialState, same_state, proposal_sent, proposal_received, offer_sent, offer_received,
  request_sent, request_received, credential_issued, credential_received, done,
}
use aries_framework_javascri.Credentials.Service.{CredentialEvent, Issuing}

-- The protocol's diagram; `none` is the state before a record exists.
pub data Transition : Option CredentialState → CredentialState → Type 0 where
  start_proposal_sent : Transition none proposal_sent
  start_proposal_received : Transition none proposal_received
  start_offer_sent : Transition none offer_sent
  start_offer_received : Transition none offer_received
  offer_received_to_proposal_sent : Transition (some offer_received) proposal_sent
  offer_sent_to_proposal_received : Transition (some offer_sent) proposal_received
  proposal_received_to_offer_sent : Transition (some proposal_received) offer_sent
  proposal_sent_to_offer_received : Transition (some proposal_sent) offer_received
  offer_received_to_request_sent : Transition (some offer_received) request_sent
  offer_sent_to_request_received : Transition (some offer_sent) request_received
  request_received_to_credential_issued : Transition (some request_received) credential_issued
  request_sent_to_credential_received : Transition (some request_sent) credential_received
  credential_received_to_done : Transition (some credential_received) done
  credential_issued_to_done : Transition (some credential_issued) done

abbrev pub IsTransition : {J : Type 0} → CredentialEvent J → Type 0
IsTransition e = Transition e.previous_state e.changed.state

abbrev pub IsTraced : {W J : Type 0} → Issuing W J → Type 0
IsTraced = Traced IsTransition

-- The steps that a passed test allows.
pub offer_received_proposal_sent_step :
    (s : CredentialState)
    → any (same_state s) (offer_received ∷ []) ≡ true
    → Transition (some s) proposal_sent
offer_received_proposal_sent_step offer_received h = offer_received_to_proposal_sent
offer_received_proposal_sent_step _ h = cc

pub offer_sent_proposal_received_step :
    (s : CredentialState)
    → any (same_state s) (offer_sent ∷ []) ≡ true
    → Transition (some s) proposal_received
offer_sent_proposal_received_step offer_sent h = offer_sent_to_proposal_received
offer_sent_proposal_received_step _ h = cc

pub proposal_received_offer_sent_step :
    (s : CredentialState)
    → any (same_state s) (proposal_received ∷ []) ≡ true
    → Transition (some s) offer_sent
proposal_received_offer_sent_step proposal_received h = proposal_received_to_offer_sent
proposal_received_offer_sent_step _ h = cc

pub proposal_sent_offer_received_step :
    (s : CredentialState)
    → any (same_state s) (proposal_sent ∷ []) ≡ true
    → Transition (some s) offer_received
proposal_sent_offer_received_step proposal_sent h = proposal_sent_to_offer_received
proposal_sent_offer_received_step _ h = cc

pub offer_received_request_sent_step :
    (s : CredentialState)
    → any (same_state s) (offer_received ∷ []) ≡ true
    → Transition (some s) request_sent
offer_received_request_sent_step offer_received h = offer_received_to_request_sent
offer_received_request_sent_step _ h = cc

pub offer_sent_request_received_step :
    (s : CredentialState)
    → any (same_state s) (offer_sent ∷ []) ≡ true
    → Transition (some s) request_received
offer_sent_request_received_step offer_sent h = offer_sent_to_request_received
offer_sent_request_received_step _ h = cc

pub request_received_credential_issued_step :
    (s : CredentialState)
    → any (same_state s) (request_received ∷ []) ≡ true
    → Transition (some s) credential_issued
request_received_credential_issued_step request_received h = request_received_to_credential_issued
request_received_credential_issued_step _ h = cc

pub request_sent_credential_received_step :
    (s : CredentialState)
    → any (same_state s) (request_sent ∷ []) ≡ true
    → Transition (some s) credential_received
request_sent_credential_received_step request_sent h = request_sent_to_credential_received
request_sent_credential_received_step _ h = cc

pub credential_received_done_step :
    (s : CredentialState)
    → any (same_state s) (credential_received ∷ []) ≡ true
    → Transition (some s) done
credential_received_done_step credential_received h = credential_received_to_done
credential_received_done_step _ h = cc

pub credential_issued_done_step :
    (s : CredentialState)
    → any (same_state s) (credential_issued ∷ []) ≡ true
    → Transition (some s) done
credential_issued_done_step credential_issued h = credential_issued_to_done
credential_issued_done_step _ h = cc

pub ruleset steps = (
  keeps_rules, start_proposal_sent, start_proposal_received, start_offer_sent, start_offer_received,
  offer_received_proposal_sent_step, offer_sent_proposal_received_step,
  proposal_received_offer_sent_step, proposal_sent_offer_received_step,
  offer_received_request_sent_step, offer_sent_request_received_step,
  request_received_credential_issued_step, request_sent_credential_received_step,
  credential_received_done_step, credential_issued_done_step,
)
