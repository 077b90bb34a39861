-- ===== src/Proofs/Transitions.antt =====
-- The states of RFC 0037 and the steps between them.
use aries_framework_javascri.Prelude.{true, Option, none, some, [], ◌∷◌, ◌≡◌, any}
use aries_framework_javascri.Exec.{keeps_rules, Traced}
use aries_framework_javascri.Proofs.Record.{
  ProofState, same_state, proposal_sent, proposal_received, request_sent, request_received,
  presentation_sent, presentation_received, done,
}
use aries_framework_javascri.Proofs.Service.{ProofEvent, Proving}

-- The protocol's diagram; `none` is the state before a record exists.
pub data Transition : Option ProofState → ProofState → Type 0 where
  start_proposal_sent : Transition none proposal_sent
  start_proposal_received : Transition none proposal_received
  start_request_sent : Transition none request_sent
  start_request_received : Transition none request_received
  request_received_to_proposal_sent : Transition (some request_received) proposal_sent
  request_sent_to_proposal_received : Transition (some request_sent) proposal_received
  proposal_received_to_request_sent : Transition (some proposal_received) request_sent
  proposal_sent_to_request_received : Transition (some proposal_sent) request_received
  request_received_to_presentation_sent : Transition (some request_received) presentation_sent
  request_sent_to_presentation_received : Transition (some request_sent) presentation_received
  presentation_received_to_done : Transition (some presentation_received) done
  presentation_sent_to_done : Transition (some presentation_sent) done

abbrev pub IsTransition : ProofEvent → Type 0
IsTransition e = Transition e.previous_state e.changed.state

abbrev pub IsTraced : {W : Type 0} → Proving W → Type 0
IsTraced = Traced IsTransition

-- The steps that a passed test allows.
pub request_received_proposal_sent_step :
    (s : ProofState)
    → any (same_state s) (request_received ∷ []) ≡ true
    → Transition (some s) proposal_sent
request_received_proposal_sent_step request_received h = request_received_to_proposal_sent
request_received_proposal_sent_step _ h = cc

pub request_sent_proposal_received_step :
    (s : ProofState)
    → any (same_state s) (request_sent ∷ []) ≡ true
    → Transition (some s) proposal_received
request_sent_proposal_received_step request_sent h = request_sent_to_proposal_received
request_sent_proposal_received_step _ h = cc

pub proposal_received_request_sent_step :
    (s : ProofState)
    → any (same_state s) (proposal_received ∷ []) ≡ true
    → Transition (some s) request_sent
proposal_received_request_sent_step proposal_received h = proposal_received_to_request_sent
proposal_received_request_sent_step _ h = cc

pub proposal_sent_request_received_step :
    (s : ProofState)
    → any (same_state s) (proposal_sent ∷ []) ≡ true
    → Transition (some s) request_received
proposal_sent_request_received_step proposal_sent h = proposal_sent_to_request_received
proposal_sent_request_received_step _ h = cc

pub request_received_presentation_sent_step :
    (s : ProofState)
    → any (same_state s) (request_received ∷ []) ≡ true
    → Transition (some s) presentation_sent
request_received_presentation_sent_step request_received h = request_received_to_presentation_sent
request_received_presentation_sent_step _ h = cc

pub request_sent_presentation_received_step :
    (s : ProofState)
    → any (same_state s) (request_sent ∷ []) ≡ true
    → Transition (some s) presentation_received
request_sent_presentation_received_step request_sent h = request_sent_to_presentation_received
request_sent_presentation_received_step _ h = cc

pub presentation_received_done_step :
    (s : ProofState)
    → any (same_state s) (presentation_received ∷ []) ≡ true
    → Transition (some s) done
presentation_received_done_step presentation_received h = presentation_received_to_done
presentation_received_done_step _ h = cc

pub presentation_sent_done_step :
    (s : ProofState) → any (same_state s) (presentation_sent ∷ []) ≡ true → Transition (some s) done
presentation_sent_done_step presentation_sent h = presentation_sent_to_done
presentation_sent_done_step _ h = cc

pub ruleset steps = (
  keeps_rules, start_proposal_sent, start_proposal_received, start_request_sent,
  start_request_received, request_received_proposal_sent_step, request_sent_proposal_received_step,
  proposal_received_request_sent_step, proposal_sent_request_received_step,
  request_received_presentation_sent_step, request_sent_presentation_received_step,
  presentation_received_done_step, presentation_sent_done_step,
)
