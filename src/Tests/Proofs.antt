-- ===== src/Tests/Proofs.antt =====
-- A verifier with one proof record, and a proof with one revealed attribute.
use aries_framework_javascri.Prelude.{String, true, some, List, [], ◌∷◌, ◌≡◌, refl, All}
use aries_framework_javascri.Exec.{ok, ◌>>=◌}
use aries_framework_javascri.Message.{new_message}
use aries_framework_javascri.Connections.Messages.{ok_status}
use aries_framework_javascri.Connections.Record.{complete}
use aries_framework_javascri.Credentials.Values.{text, encode, check_valid_encoding}
use aries_framework_javascri.Proofs.Record.{ProofRecord, ProofState, presentation_sent}
use aries_framework_javascri.Proofs.Service.{ProofDeps, Proving, new_record}
use aries_framework_javascri.Proofs.Transitions.{IsTraced}
use aries_framework_javascri.Proofs.Calls.{
  Call, process_ack_call, perform_all, proof_calls-IsTraced,
}
use aries_framework_javascri.Proofs.Verify.{
  ProofTools, PartialProof, verify_proof, check_encodings, fetch_all, IsWellEncoded,
}
use aries_framework_javascri.Tests.Tables.{table}
use aries_framework_javascri.Tests.Connections.{connection, fresh, context_of}
use aries_framework_javascri.Tests.Credentials.{values}

abbrev pub deps : ProofDeps (List ProofRecord) String
deps = record {
  repo = table (λ r. r.id) (λ r. r.tags);
  codec = record { to_base64 = λ j. j; from_base64 = λ t. ok t };
  request_json = λ q. q.name;
  is_valid_request = λ j. true;
}

abbrev pub stored : ProofState → ProofRecord
stored state = new_record fresh "c1" state (some "t1")

abbrev prover : Proving (List ProofRecord)
prover = record { store = stored presentation_sent ∷ []; events = [] }

abbrev calls : List (Call (List ProofRecord) String)
calls =
    process_ack_call (
      context_of (record { base = new_message "t1"; status = ok_status })
        (some (connection "c1" complete)))
    ∷ []

proof_calls-IsTraced_example : IsTraced (perform_all deps calls prover)
proof_calls-IsTraced_example = proof_calls-IsTraced deps calls prover tt

abbrev pub revealed : String → PartialProof
revealed encoded = record {
  identifiers = record { schema_id = "s1"; credential_definition_id = "d1" } ∷ [];
  revealed_attributes = ("name", record { raw = text "Alice"; encoded = encoded }) ∷ [];
}

abbrev pub tools_of : {W : Type 0} → ProofTools W String
tools_of = record {
  values = values;
  partial_proof = revealed;
  credential_info = λ j. record {
    referent = j;
    attributes = [];
    schema_id = "s1";
    credential_definition_id = "d1";
  };
  credentials_json = λ r. "credentials";
  get_schema = λ id s. (ok id, s);
  get_credential_definition = λ id s. (ok id, s);
  get_credential = λ id s. (ok id, s);
  wallet_verify_proof = λ request proof schemas definitions s. (ok true, s);
  wallet_create_proof = λ request credentials schemas definitions s. (ok "proof", s);
}

abbrev tools : ProofTools Unit String
tools = tools_of

forged : ¬ (All (IsWellEncoded tools) (revealed "forged").revealed_attributes)
unfolding encode
forged h = cc (h.0)

verify_run : verify_proof tools "sha256:Alice" "request" tt ≡ (ok true, tt)
unfolding verify_proof check_encodings check_valid_encoding encode fetch_all ◌>>=◌
verify_run = refl
