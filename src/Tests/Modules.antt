-- ===== src/Tests/Modules.antt =====
-- The modules of an agent: an acknowledgement over a transport that is down, a proposal that is
-- accepted, and a connection that is waited for.
use aries_framework_javascri.Prelude.{String, some, none, List, [], ◌∷◌, ◌≡◌, refl}
use aries_framework_javascri.Exec.{ok, err, indy, invalid_state}
use aries_framework_javascri.Message.{new_message, set_thread}
use aries_framework_javascri.Agent.Sending.{Sender}
use aries_framework_javascri.Connections.Record.{ConnectionRecord, requested, complete}
use aries_framework_javascri.Connections.Service.{ConnectionEvent}
use aries_framework_javascri.Connections.Module.{return_when_is_connected}
use aries_framework_javascri.Connections.Waiting.{return_when_is_connected-resolves}
use aries_framework_javascri.Credentials.Record.{credential_received, done}
use aries_framework_javascri.Credentials.Service.{CredentialDeps, Issuing, get_by_id}
use aries_framework_javascri.Credentials.Module.{accept_credential}
use aries_framework_javascri.Credentials.Undelivered.{accept_credential-undelivered}
use aries_framework_javascri.Proofs.Messages.{ProposePresentationMessage}
use aries_framework_javascri.Proofs.Record.{ProofRecord, proposal_received, request_sent}
use aries_framework_javascri.Proofs.Service.{Proving, request_message}
use aries_framework_javascri.Proofs.Service.{get_by_id as proof_by_id}
use aries_framework_javascri.Proofs.Request.{request_from}
use aries_framework_javascri.Proofs.Module.{ModuleDeps, AcceptConfig, accept_options}
use aries_framework_javascri.Storage.{Repository}
use aries_framework_javascri.Tests.Tables.{table-IsRepository}
use aries_framework_javascri.Tests.Connections.{
  connection, fresh, start, deps as connection_deps, config,
}
use aries_framework_javascri.Tests.Credentials.{deps as credential_deps, stored, W}
use aries_framework_javascri.Tests.Proofs.{deps as proof_deps, stored as stored_proof, tools_of}

abbrev alice : ConnectionRecord
alice = connection "c1" complete

-- Every connection that is asked for is the one with Alice.
abbrev connections_of : {W : Type 0} → Repository ConnectionRecord W
connections_of = record {
  save = λ c s. (ok tt, s);
  update = λ c s. (ok tt, s);
  delete = λ c s. (ok tt, s);
  find = λ id s. (ok alice, s);
  find_all = λ s. (ok (alice ∷ []), s);
  find_by_query = λ q s. (ok (alice ∷ []), s);
}

abbrev deps : CredentialDeps W String
deps = record credential_deps { connections = connections_of }

abbrev down : {W M : Type 0} → Sender W M
down = record { send = λ out s. (err (indy 114), s) }

abbrev holder : Issuing W String
holder = record { store = stored credential_received ∷ []; events = [] }

accept_credential-undelivered_example :
    let (out, s') = accept_credential deps down fresh "r1" holder in
    (out ≡ err (indy 114))
    × (get_by_id deps "r1" s' ≡ (ok (record (stored credential_received) { state = done }), s'))
    × (accept_credential deps down fresh "r1" s' ≡ (err invalid_state, s'))
accept_credential-undelivered_example =
    accept_credential-undelivered deps (λ s. s) (table-IsRepository (λ r. r.id) (λ r. r.tags)) down
      alice "alice_key" (indy 114) fresh fresh "r1" holder refl refl (λ w. refl) refl
      (λ out w. refl)

abbrev proposed : ProposePresentationMessage
proposed = record {
  base = new_message "m0";
  comment = none;
  presentation_proposal = record { attributes = []; predicates = [] };
}

abbrev proof_module : ModuleDeps (List ProofRecord) String
proof_module = record {
  service = proof_deps;
  connections = connections_of;
  generate_nonce = λ s. (ok "9", s);
  tools = tools_of;
  sender = record { send = λ out s. (ok tt, s) };
}

abbrev verifier : Proving (List ProofRecord)
verifier = record {
  store = record (stored_proof proposal_received) { proposal_message = some proposed } ∷ [];
  events = [];
}

abbrev accept_config : AcceptConfig
accept_config = record { name = none; version = none; nonce = none; comment = none }

-- The record after the proposal was accepted.
abbrev answered : ProofRecord
answered =
    let request =
      request_from (λ n. "a") (λ n. "p") proposed.presentation_proposal
        (accept_options accept_config) "9" in
    record (stored_proof request_sent) {
      proposal_message = some proposed;
      request_message = some (record (request_message proof_deps fresh request none) {
        base = set_thread (some "t1") (new_message "m1");
      });
    }

abbrev answered_state : Proving (List ProofRecord)
answered_state = record {
  store = answered ∷ [];
  events = record { changed = answered; previous_state = some proposal_received } ∷ [];
}

abbrev later : List ConnectionEvent
later =
    record { changed = connection "c2" complete; previous_state = none }
    ∷ record { changed = alice; previous_state = none }
    ∷ []

return_when_is_connected-resolves_example :
    (c : ConnectionRecord) × ((return_when_is_connected connection_deps config "c1" later
        (start (connection "c1" requested))).0
      ≡ ok (some c))
    × (c.id ≡ "c1")
    × (c.state ≡ complete)
return_when_is_connected-resolves_example =
    return_when_is_connected-resolves connection_deps config "c1" later
      (start (connection "c1" requested)) refl
