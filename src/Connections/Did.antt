-- ===== src/Connections/Did.antt =====
-- modules/connections/models/did: the DID document. Validation and the change between classes and
-- plain JSON are class-validator's and class-transformer's.
use aries_framework_javascri.Prelude.{
  ℕ, String, Option, none, some, List, [], ◌∷◌, ◌==◌, find_first, filter, or_else, if◌then◌else◌,
}

-- publicKey/PublicKey.ts and its classes, which fix `type` and name the key's text.
pub record PublicKey : Type 0 where
  pub id : String
  pub controller : String
  pub type : String
  pub value : Option String

-- publicKey/Ed25519Sig2018.ts
unfoldable pub ed25519_sig_2018 : String → String → String → PublicKey
ed25519_sig_2018 id controller public_key_base58 = record {
  id = id;
  controller = controller;
  type = "Ed25519VerificationKey2018";
  value = some public_key_base58;
}

-- publicKey/RsaSig2018.ts and publicKey/EddsaSaSigSecp256k1.ts
unfoldable pub new_rsa_sig_2018 : String → String → String → PublicKey
new_rsa_sig_2018 id controller public_key_pem = record {
  id = id;
  controller = controller;
  type = "RsaVerificationKey2018";
  value = some public_key_pem;
}

unfoldable pub new_eddsa_sa_sig_secp256k1 : String → String → String → PublicKey
new_eddsa_sa_sig_secp256k1 id controller public_key_hex = record {
  id = id;
  controller = controller;
  type = "Secp256k1VerificationKey2018";
  value = some public_key_hex;
}

pub data Authentication : Type 0 where
  referenced : PublicKey → String → Authentication
  embedded : PublicKey → Authentication

-- `authenticationTypes[type]`
unfoldable pub authentication_type : String → Option String
authentication_type t =
    if t == "RsaVerificationKey2018"
    then some "RsaSignatureAuthentication2018"
    else if t == "Ed25519VerificationKey2018"
    then some "Ed25519SignatureAuthentication2018"
    else if t == "Secp256k1VerificationKey2018"
    then some "Secp256k1SignatureAuthenticationKey2018"
    else none

-- service/IndyAgentService.ts
pub record IndyAgentService : Type 0 where
  pub id : String
  pub service_endpoint : String
  pub recipient_keys : List String
  pub routing_keys : Option (List String)
  pub priority : ℕ

-- The constructor: a priority of 0 is the default.
unfoldable pub new_indy_agent_service :
    String → String → List String → Option (List String) → Option ℕ → IndyAgentService
new_indy_agent_service id service_endpoint recipient_keys routing_keys priority = record {
  id = id;
  service_endpoint = service_endpoint;
  recipient_keys = recipient_keys;
  routing_keys = routing_keys;
  priority = or_else priority 0;
}

-- service/Service.ts: an instance of the class itself.
pub record BaseService : Type 0 where
  pub id : String
  pub service_endpoint : String
  pub type : String

pub data Service : Type 0 where
  base : BaseService → Service
  indy_agent : IndyAgentService → Service

abbrev pub service_type : Service → String
service_type (base s) = s.type
service_type (indy_agent _) = "IndyAgent"

abbrev pub endpoint_of : Service → String
endpoint_of (base s) = s.service_endpoint
endpoint_of (indy_agent s) = s.service_endpoint

pub record DidDoc : Type 0 where
  pub id : String
  pub public_key : List PublicKey
  pub service : List Service
  pub authentication : List Authentication

unfoldable pub get_public_key : DidDoc → String → Option PublicKey
get_public_key doc id = find_first (λ item. item.id == id) doc.public_key

pub get_services_by_type : DidDoc → String → List Service
get_services_by_type doc t = filter (λ s. service_type s == t) doc.service

abbrev indy_agents : List Service → List IndyAgentService
indy_agents [] = []
indy_agents (indy_agent s ∷ rest) = s ∷ indy_agents rest
indy_agents (base _ ∷ rest) = indy_agents rest

-- `getServicesByClassType(IndyAgentService)`, the one class that the framework asks for.
abbrev pub indy_agent_services : DidDoc → List IndyAgentService
indy_agent_services doc = indy_agents doc.service
