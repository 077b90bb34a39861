-- ===== src/Proofs/Offered.antt =====
-- modules/proofs/services/ProofService.ts: the credentials that a selection names were offered by the
-- wallet.
use aries_framework_javascri.Prelude.{String, Bool, true, List, any, ◌==◌, ◌≡◌, All}
use aries_framework_javascri.Exec.{ok}
use aries_framework_javascri.Proofs.Messages.{ProofRequest}
use aries_framework_javascri.Proofs.Verify.{
  CredentialInfo, RequestedCredentials, RequestedAttribute, RequestedPredicate,
}
use aries_framework_javascri.Proofs.Selection.{SelectionTools, get_credentials}

abbrev names_id : String → List CredentialInfo → Bool
names_id id = any (λ c. c.referent == id)

module _ {W J : Type 0} (tools : SelectionTools W J) (request : ProofRequest) where
  -- The wallet has answered a search for this referent with a credential of this id.
  abbrev pub Offered : String → String → Type 0
  Offered referent id =
      (before : W) × (cs : List CredentialInfo) × ((get_credentials tools request referent before).0
        ≡ ok cs)
      × (any (λ c. c.referent == id) cs ≡ true)

  abbrev pub AllOffered : RequestedCredentials → Type 0
  AllOffered found =
      All (λ (e : String × RequestedAttribute). Offered e.0 e.1.credential_id)
        found.requested_attributes
      × All (λ (e : String × RequestedPredicate). Offered e.0 e.1.credential_id)
          found.requested_predicates
