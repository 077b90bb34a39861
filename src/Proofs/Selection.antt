-- ===== src/Proofs/Selection.antt =====
-- modules/proofs/services/ProofService.ts: `getRequestedCredentialsForProofRequest`. The wallet's
-- search, and the change between classes and JSON, are parameters.
use aries_framework_javascri.Prelude.{
  String, Bool, true, false, Option, none, some, List, [], ◌∷◌, map, find_first, every, any, ◌==◌,
  ◌&&◌, or_else, truthy,
}
use aries_framework_javascri.Exec.{Exec, pure, or_throw, ◌>>=◌, no_matching_credentials}
use aries_framework_javascri.Storage.InMemory.{Dict, lookup, insert}
use aries_framework_javascri.Proofs.Messages.{
  PresentationPreview, PresentationPreviewAttribute, ProofAttributeInfo, ProofPredicateInfo,
  ProofRequest,
}
use aries_framework_javascri.Proofs.Verify.{CredentialInfo, RequestedCredentials}

pub record SelectionTools (W J : Type 0) : Type 0 where
  pub request_json : ProofRequest → J
  pub wallet_get_credentials : J → String → Exec W J
  pub credentials_of : J → List CredentialInfo

-- `a === b`, where each may be `undefined`.
same_text : Option String → Option String → Bool
same_text none none = true
same_text (some a) (some b) = a == b
same_text _ _ = false

-- `!a.value || a.value === attributes[name]`
value_fits : Option String → Option String → Bool
unfolding same_text
value_fits none found = true
value_fits (some value) found = same_text (some value) found

attribute_fits : CredentialInfo → Option String → PresentationPreviewAttribute → Bool
unfolding same_text value_fits
attribute_fits info none a = false
attribute_fits info (some name) a =
    a.name == name
    && same_text a.credential_definition_id (some info.credential_definition_id)
    && value_fits (truthy a.value) (lookup name info.attributes)

-- The credential has all that the proposal says of these names.
unfoldable pub is_match : PresentationPreview → List (Option String) → CredentialInfo → Bool
unfolding attribute_fits
is_match proposal names info =
    every (λ name. any (attribute_fits info name) proposal.attributes) names

-- `requestedAttribute.names ?? [requestedAttribute.name]`
names_of : ProofAttributeInfo → Option (List String) → List (Option String)
names_of info none = info.name ∷ []
names_of info (some names) = map some names

-- The credential for an attribute: the only one, or the first if there is no proposal to choose by.
unfoldable pub choose :
    Option PresentationPreview → List (Option String) → List CredentialInfo → Option CredentialInfo
choose proposal names [] = none
choose proposal names (c ∷ []) = some c
choose none names (c ∷ d ∷ rest) = some c
choose (some proposal) names (c ∷ d ∷ rest) = find_first (is_match proposal names) (c ∷ d ∷ rest)

abbrev pub first_of : List CredentialInfo → Option CredentialInfo
first_of [] = none
first_of (c ∷ _) = some c

-- What a referent without restrictions is answered with: a value that the agent attests itself.
abbrev self_attest :
    String → Option String → CredentialInfo → RequestedCredentials → RequestedCredentials
self_attest referent name c found = record found {
  self_attested_attributes =
      insert referent (lookup (or_else name "undefined") c.attributes)
        found.self_attested_attributes;
}

-- `restrictions` is true also where it is an empty list.
unfoldable pub add_attribute :
    {F : Type 0}
    → String
    → ProofAttributeInfo
    → Option F
    → CredentialInfo
    → RequestedCredentials
    → RequestedCredentials
add_attribute referent info none c found = self_attest referent info.name c found
add_attribute referent info (some _) c found = record found {
  requested_attributes =
      insert referent (record { credential_id = c.referent; revealed = true })
        found.requested_attributes;
}

unfoldable pub add_predicate :
    {F : Type 0}
    → String
    → ProofPredicateInfo
    → Option F
    → CredentialInfo
    → RequestedCredentials
    → RequestedCredentials
add_predicate referent info none c found = self_attest referent (some info.name) c found
add_predicate referent info (some _) c found = record found {
  requested_predicates =
      insert referent (record { credential_id = c.referent }) found.requested_predicates;
}

-- `new RequestedCredentials({})`
abbrev pub no_credentials : RequestedCredentials
no_credentials = record {
  requested_attributes = [];
  requested_predicates = [];
  self_attested_attributes = [];
}

module _ {W J : Type 0} (tools : SelectionTools W J) (request : ProofRequest) where
  unfoldable pub get_credentials : String → Exec W (List CredentialInfo)
  get_credentials referent = do
    json ← tools.wallet_get_credentials (tools.request_json request) referent
    pure (tools.credentials_of json)

  unfoldable pub select_predicates :
      Dict ProofPredicateInfo → RequestedCredentials → Exec W RequestedCredentials
  select_predicates [] found = pure found
  select_predicates ((referent, info) ∷ rest) found = do
    credentials ← get_credentials referent
    c ← or_throw (first_of credentials) no_matching_credentials
    select_predicates rest (add_predicate referent info info.restrictions c found)

  module _ (proposal : Option PresentationPreview) where
    unfoldable pub select_attributes :
        Dict ProofAttributeInfo → RequestedCredentials → Exec W RequestedCredentials
    unfolding names_of
    select_attributes [] found = pure found
    select_attributes ((referent, info) ∷ rest) found = do
      credentials ← get_credentials referent
      c ← or_throw (choose proposal (names_of info info.names) credentials) no_matching_credentials
      select_attributes rest (add_attribute referent info info.restrictions c found)

    unfoldable pub get_requested_credentials : Exec W RequestedCredentials
    get_requested_credentials = do
      found ← select_attributes request.requested_attributes no_credentials
      select_predicates request.requested_predicates found
