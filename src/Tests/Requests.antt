-- ===== src/Tests/Requests.antt =====
-- A request for a name and for an age, made from a proposal, and the credentials chosen for it.
use aries_framework_javascri.Prelude.{String, true, none, some, [], ◌∷◌, ◌≡◌, map_option}
use aries_framework_javascri.Exec.{ok}
use aries_framework_javascri.Storage.InMemory.{lookup}
use aries_framework_javascri.Credentials.Values.{pos}
use aries_framework_javascri.Proofs.Messages.{PresentationPreview, ProofRequest, greater_than}
use aries_framework_javascri.Proofs.Verify.{CredentialInfo, RequestedCredentials}
use aries_framework_javascri.Proofs.Request.{RequestOptions, request_from}
use aries_framework_javascri.Proofs.Referents.{
  asked_names, some_names, proposed_names, lookup-request_from,
}
use aries_framework_javascri.Proofs.Selection.{SelectionTools}

abbrev proposal : PresentationPreview
proposal = record {
  attributes =
      record {
        name = "name";
        credential_definition_id = some "d1";
        mime_type = none;
        value = some "Alice";
        referent = some "0";
      }
      ∷ record {
        name = "degree";
        credential_definition_id = some "d1";
        mime_type = none;
        value = none;
        referent = some "0";
      }
      ∷ [];
  predicates =
      record {
        name = "age";
        credential_definition_id = "d1";
        predicate = greater_than;
        threshold = pos 18;
      }
      ∷ [];
}

abbrev options : RequestOptions
options = record { name = "proof-request"; version = "1.0"; nonce = some "7" }

abbrev request : ProofRequest
request = request_from (λ n. "a") (λ n. "p") proposal options "7"

lookup-request_from_example :
    map_option asked_names
      (lookup "0" (request_from (λ n. "a") (λ n. "p") proposal options "7").requested_attributes)
    ≡ some_names (proposed_names (λ n. "a") "0" 0 proposal.attributes)
lookup-request_from_example = lookup-request_from (λ n. "a") (λ n. "p") proposal options "7" "0"

abbrev of_person : String → String → CredentialInfo
of_person referent name = record {
  referent = referent;
  attributes = ("name", name) ∷ ("degree", "law") ∷ ("age", "20") ∷ [];
  schema_id = "s1";
  credential_definition_id = "d1";
}

abbrev tools : SelectionTools Unit String
tools = record {
  request_json = λ q. q.name;
  wallet_get_credentials = λ q referent s. (ok "credentials", s);
  credentials_of = λ j. of_person "c1" "Bob" ∷ of_person "c2" "Alice" ∷ [];
}

-- The second credential has the name that was proposed.
abbrev selected : RequestedCredentials
selected = record {
  requested_attributes = ("0", record { credential_id = "c2"; revealed = true }) ∷ [];
  requested_predicates = ("p", record { credential_id = "c1" }) ∷ [];
  self_attested_attributes = [];
}
