-- ===== src/Proofs/Request.antt =====
-- modules/proofs/services/ProofService.ts: `createProofRequestFromProposal`.
use aries_framework_javascri.Prelude.{
  ℕ, suc, String, Option, none, some, List, [], ◌∷◌, ◌++◌, map, or_else, truthy,
}
use aries_framework_javascri.Exec.{Exec, pure, ◌>>=◌}
use aries_framework_javascri.Storage.InMemory.{Dict, lookup, insert}
use aries_framework_javascri.Proofs.Messages.{
  PresentationPreview, PresentationPreviewAttribute, PresentationPreviewPredicate, AttributeFilter,
  ProofAttributeInfo, ProofPredicateInfo, ProofRequest,
}

-- The argument `config`.
pub record RequestOptions : Type 0 where
  pub name : String
  pub version : String
  pub nonce : Option String

abbrev pub Attribute : Type 0
Attribute = PresentationPreviewAttribute

-- The proposal's attributes without a referent get one of their own; `uuid n` is the n-th call of
-- `uuid()`. The change is made in the proposal that was passed.
with_referent : (ℕ → String) → ℕ → Attribute → Option String → Attribute
with_referent uuid n a none = record a { referent = some (uuid n) }
with_referent uuid n a (some referent) = a

unfoldable pub with_referents : (ℕ → String) → ℕ → List Attribute → List Attribute
unfolding with_referent
with_referents uuid n [] = []
with_referents uuid n (a ∷ attributes) =
    with_referent uuid n a (truthy a.referent) ∷ with_referents uuid (suc n) attributes

abbrev pub referent_of : Attribute → String
referent_of a = or_else a.referent ""

-- The loop that fills `attributesByReferent`.
unfoldable pub group_from : Dict (List Attribute) → List Attribute → Dict (List Attribute)
group_from groups [] = groups
group_from groups (a ∷ attributes) =
    group_from
      (insert (referent_of a) (or_else (lookup (referent_of a) groups) [] ++ a ∷ []) groups)
      attributes

abbrev restriction : Option String → Option (List AttributeFilter)
restriction definition = some (record { credential_definition_id = definition } ∷ [])

-- One attribute is asked for by its name, several by their names; the credential definition is that
-- of the first.
unfoldable pub attribute_info : List Attribute → ProofAttributeInfo
attribute_info [] = record { name = none; names = none; restrictions = restriction none }
attribute_info (a ∷ []) = record {
  name = some a.name;
  names = none;
  restrictions = restriction a.credential_definition_id;
}
attribute_info (a ∷ b ∷ rest) = record {
  name = none;
  names = some (map (λ x. x.name) (a ∷ b ∷ rest));
  restrictions = restriction a.credential_definition_id;
}

abbrev pub predicate_info : PresentationPreviewPredicate → ProofPredicateInfo
predicate_info p = record {
  name = p.name;
  predicate_type = p.predicate;
  predicate_value = p.threshold;
  restrictions = restriction (some p.credential_definition_id);
}

add_predicates :
    (ℕ → String)
    → ℕ
    → Dict ProofPredicateInfo
    → List PresentationPreviewPredicate
    → Dict ProofPredicateInfo
add_predicates uuid n found [] = found
add_predicates uuid n found (p ∷ predicates) =
    add_predicates uuid (suc n) (insert (uuid n) (predicate_info p) found) predicates

abbrev pub map_values : {A B : Type 0} → (A → B) → Dict A → Dict B
map_values f = map (λ e. (e.0, f e.1))

-- The request, with its nonce; `uuid` serves the attributes, `predicate_uuid` the predicates.
unfoldable pub request_from :
    (uuid predicate_uuid : ℕ → String)
    → PresentationPreview
    → RequestOptions
    → String
    → ProofRequest
unfolding add_predicates
request_from uuid predicate_uuid proposal options nonce = record {
  name = options.name;
  version = options.version;
  nonce = nonce;
  requested_attributes =
      map_values attribute_info (group_from [] (with_referents uuid 0 proposal.attributes));
  requested_predicates = add_predicates predicate_uuid 0 [] proposal.predicates;
}

unfoldable pub nonce_or : {W : Type 0} → Exec W String → Option String → Exec W String
nonce_or generate none = generate
nonce_or generate (some nonce) = pure nonce

-- The request, and the proposal as the call leaves it. `generate` is the wallet's generateNonce.
unfoldable pub create_proof_request_from_proposal :
    {W : Type 0}
    → Exec W String
    → (uuid predicate_uuid : ℕ → String) → PresentationPreview
    → RequestOptions
    → Exec W (ProofRequest × PresentationPreview)
unfolding nonce_or
create_proof_request_from_proposal generate uuid predicate_uuid proposal options = do
  nonce ← nonce_or generate options.nonce
  let left : PresentationPreview = record {
    attributes = with_referents uuid 0 proposal.attributes;
    predicates = proposal.predicates;
  }
  pure (request_from uuid predicate_uuid proposal options nonce, left)
