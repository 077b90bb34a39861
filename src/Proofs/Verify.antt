-- ===== src/Proofs/Verify.antt =====
-- modules/proofs/services/ProofService.ts: `verifyProof` and `createProof`, with the loops that fetch
-- schemas and credential definitions. The wallet's verdict and the ledger are parameters.
use aries_framework_javascri.Prelude.{
  String, Bool, Option, List, [], ◌∷◌, ◌++◌, map, any, ◌==◌, ◌≡◌, refl, if◌then◌else◌, All, inl,
  inr, Bool-cases, ◌⊎◌, eq_iff, arith,
}
use aries_framework_javascri.Exec.{
  Exec, ok, err, pure, require, ◌>>=◌, ◌>>◌, invalid_encoding, bind-ok,
}
use aries_framework_javascri.Storage.InMemory.{Dict, insert}
use aries_framework_javascri.Credentials.Values.{ValueEncoder, Value, encode, check_valid_encoding}

-- models/ProofAttribute.ts, ProofIdentifier.ts, RequestedProof.ts and PartialProof.ts
pub record ProofAttribute : Type 0 where
  pub raw : Value
  pub encoded : String

pub record ProofIdentifier : Type 0 where
  pub schema_id : String
  pub credential_definition_id : String

pub record PartialProof : Type 0 where
  pub identifiers : List ProofIdentifier
  pub revealed_attributes : List (String × ProofAttribute)

-- models/Credential.ts and CredentialInfo.ts of the credentials module.
pub record CredentialInfo : Type 0 where
  pub referent : String
  pub attributes : Dict String
  pub schema_id : String
  pub credential_definition_id : String

-- models/RequestedCredentials.ts
pub record RequestedAttribute : Type 0 where
  pub credential_id : String
  pub revealed : Bool

pub record RequestedPredicate : Type 0 where
  pub credential_id : String

pub record RequestedCredentials : Type 0 where
  pub requested_attributes : Dict RequestedAttribute
  pub requested_predicates : Dict RequestedPredicate
  pub self_attested_attributes : Dict (Option String)

-- What the proofs are made and checked with.
pub record ProofTools (W J : Type 0) : Type 0 where
  pub values : ValueEncoder
  pub partial_proof : J → PartialProof
  pub credential_info : J → CredentialInfo
  pub credentials_json : RequestedCredentials → J
  pub get_schema : String → Exec W J
  pub get_credential_definition : String → Exec W J
  pub get_credential : String → Exec W J
  pub wallet_verify_proof : J → J → Dict J → Dict J → Exec W Bool
  pub wallet_create_proof : J → J → Dict J → Dict J → Exec W J

-- `new Set(ids)`, in the order of first insertion.
set_from : List String → List String → List String
set_from seen [] = seen
set_from seen (id ∷ ids) = set_from (if any (λ s. s == id) seen then seen else seen ++ id ∷ []) ids

abbrev pub set_of : List String → List String
unfolding set_from
set_of ids = set_from [] ids

module _ {W J : Type 0} where
  -- The loops of `getSchemas` and `getCredentialDefinitions`.
  fetch_from : (String → Exec W J) → Dict J → List String → Exec W (Dict J)
  fetch_from get found [] = pure found
  fetch_from get found (id ∷ ids) = get id >>= λ json. fetch_from get (insert id json found) ids

  unfoldable pub fetch_all : (String → Exec W J) → List String → Exec W (Dict J)
  unfolding set_from fetch_from
  fetch_all get ids = fetch_from get [] (set_from [] ids)

module _ {W J : Type 0} (tools : ProofTools W J) where
  -- The loop over the revealed attributes.
  unfoldable pub check_encodings : List (String × ProofAttribute) → Exec W Unit
  check_encodings [] = pure tt
  check_encodings ((referent, a) ∷ rest) =
      require (check_valid_encoding tools.values a.raw a.encoded) invalid_encoding
      >> check_encodings rest

  unfoldable pub verify_proof : J → J → Exec W Bool
  verify_proof proof_json request_json = do
    let proof = tools.partial_proof proof_json
    check_encodings proof.revealed_attributes
    schemas ← fetch_all tools.get_schema (map (λ i. i.schema_id) proof.identifiers)
    definitions ←
        fetch_all tools.get_credential_definition
          (map (λ i. i.credential_definition_id) proof.identifiers)
    tools.wallet_verify_proof request_json proof_json schemas definitions

  -- RequestedCredentials.getCredentialIdentifiers
  credential_identifiers : RequestedCredentials → List String
  unfolding set_from
  credential_identifiers requested = set_from [] (
      map (λ (a : String × RequestedAttribute). a.1.credential_id) requested.requested_attributes
      ++ map (λ (p : String × RequestedPredicate). p.1.credential_id)
          requested.requested_predicates)

  credential_objects : List String → Exec W (List CredentialInfo)
  credential_objects [] = pure []
  credential_objects (id ∷ ids) = do
    json ← tools.get_credential id
    rest ← credential_objects ids
    pure (tools.credential_info json ∷ rest)

  unfoldable pub create_proof : J → RequestedCredentials → Exec W J
  unfolding credential_identifiers credential_objects
  create_proof request_json requested = do
    objects ← credential_objects (credential_identifiers requested)
    schemas ← fetch_all tools.get_schema (map (λ c. c.schema_id) objects)
    definitions ←
        fetch_all tools.get_credential_definition (map (λ c. c.credential_definition_id) objects)
    tools.wallet_create_proof request_json (tools.credentials_json requested) schemas definitions

  abbrev pub IsWellEncoded : String × ProofAttribute → Type 0
  IsWellEncoded p = p.1.encoded ≡ encode tools.values p.1.raw

  check_encodings_cases :
      (attributes : List (String × ProofAttribute)) (s : W)
      → (All IsWellEncoded attributes × (check_encodings attributes s ≡ (ok tt, s)))
        ⊎ ((¬ (All IsWellEncoded attributes))
            × (check_encodings attributes s ≡ (err invalid_encoding, s)))
  unfolding check_encodings check_valid_encoding ◌>>=◌
  check_encodings_cases [] s = inl (tt, refl)
  check_encodings_cases ((referent, a) ∷ rest) s =
      let same = eq_iff a.encoded (encode tools.values a.raw) in
      elim (Bool-cases (a.encoded == encode tools.values a.raw)) [
        | inl valid ↦ elim (check_encodings_cases rest s) [
          | inl (all, e) ↦ inl ((same.0 valid, all), rw valid e)
          | inr (not_all, e) ↦ inr (λ h. not_all h.1, rw valid e)
        ]
        | inr invalid ↦ inr (λ h. cc (same.1 h.0), rw invalid)
      ]

  pub check_encodings_good :
      (attributes : List (String × ProofAttribute)) (s : W)
      → All IsWellEncoded attributes
      → check_encodings attributes s ≡ (ok tt, s)
  check_encodings_good attributes s good = elim (check_encodings_cases attributes s) [
    | inl (_, e) ↦ e
    | inr (bad, _) ↦ absurd (bad good)
  ]

  -- A proof in which some revealed attribute does not carry the encoding of its raw value is
  -- rejected with this error before the ledger or the wallet is asked anything.
  verify_proof_rejects :
      (proof request : J) (s : W)
      → ¬ (All IsWellEncoded (tools.partial_proof proof).revealed_attributes)
      → verify_proof proof request s ≡ (err invalid_encoding, s)
  unfolding verify_proof ◌>>=◌
  verify_proof_rejects proof request s bad =
      elim (check_encodings_cases (tools.partial_proof proof).revealed_attributes s) [
        | inl (good, _) ↦ absurd (bad good)
        | inr (_, e) ↦ rw e
      ]

  -- A proof gets a verdict only if every revealed attribute carries the encoding of its raw value,
  -- and the verdict is then the wallet's, at the definitions fetched from the ledger.
  pub verify_proof-encoded :
      (proof request : J) (s : W) {verdict : Bool} {s' : W}
      → verify_proof proof request s ≡ (ok verdict, s')
      → All IsWellEncoded (tools.partial_proof proof).revealed_attributes
        × (schemas : Dict J) × (definitions : Dict J) × (s1 : W) × (tools.wallet_verify_proof
              request proof schemas definitions s1
            ≡ (ok verdict, s'))
  unfolding verify_proof
  verify_proof-encoded proof request s e =
      elim (check_encodings_cases (tools.partial_proof proof).revealed_attributes s) [
        | inl (good, _) ↦
            let (_, _, rest) = bind-ok _ _ s e in
            let (schemas, _, rest) = bind-ok _ _ _ rest in
            let (definitions, _, rest) = bind-ok _ _ _ rest in (good, schemas, definitions, _, rest)
        | inr (_, failed) ↦ let (_, passed, _) = bind-ok _ _ s e in absurd (ground arith)
      ]
