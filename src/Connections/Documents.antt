-- ===== src/Connections/Documents.antt =====
-- models/did/{publicKey,service,authentication}/index.ts: a DID document between its classes and
-- plain JSON `J`. What `plainToClass` and `classToPlain` do with one object is class-transformer's;
-- which class a value is read as, and how references to keys are resolved, is the source's. A key is
-- an instance of the class of its type, as the constructors and the reading make it.
pub mod Reading
pub mod Resolved
use aries_framework_javascri.Prelude.{
  String, Option, none, some, List, [], ◌∷◌, map, ◌==◌, find_first, truthy, if◌then◌else◌,
}
use aries_framework_javascri.Exec.{Result, ok, err, type_error, invalid_key_reference}
use aries_framework_javascri.Connections.Did.{
  PublicKey, Authentication, referenced, embedded, Service, base, indy_agent, DidDoc,
}

pub data KeyClass : Type 0 where
  public_key rsa_sig_2018 ed25519_sig_2018 eddsa_sa_sig_secp256k1 : KeyClass

pub data ServiceClass : Type 0 where
  base_service indy_agent_service : ServiceClass

-- `publicKeyTypes[type] ?? PublicKey`
unfoldable pub public_key_class : String → KeyClass
public_key_class t =
    if t == "RsaVerificationKey2018"
    then rsa_sig_2018
    else if t == "Ed25519VerificationKey2018"
    then ed25519_sig_2018
    else if t == "Secp256k1VerificationKey2018"
    then eddsa_sa_sig_secp256k1
    else public_key

-- `serviceTypes[type] ?? Service`
unfoldable pub service_class : String → ServiceClass
service_class t = if t == "IndyAgent" then indy_agent_service else base_service

unfoldable pub class_of_service : Service → ServiceClass
class_of_service (base _) = base_service
class_of_service (indy_agent _) = indy_agent_service

-- The fields of JSON objects that the transformers read, and what class-transformer does with one
-- object. `reference` is the JSON of a ReferencedAuthentication, whose key is written as its id. A
-- `publicKey` that is an object itself is not represented.
pub record Classes (J : Type 0) : Type 0 where
  pub id_of : J → String
  pub type_of : J → String
  pub public_key_of : J → Option String
  pub key_of : KeyClass → J → PublicKey
  pub json_of_key : PublicKey → J
  pub service_of : ServiceClass → J → Service
  pub json_of_service : Service → J
  pub reference : String → String → J

-- The JSON of a document whose three lists are there.
pub record DidDocJson (J : Type 0) : Type 0 where
  pub id : String
  pub public_key : List J
  pub service : List J
  pub authentication : List J

module _ {J : Type 0} (classes : Classes J) where
  -- PublicKeyTransformer and ServiceTransformer, on one element.
  unfoldable pub read_key : J → PublicKey
  read_key json = classes.key_of (public_key_class (classes.type_of json)) json

  unfoldable pub read_service : J → Service
  read_service json = classes.service_of (service_class (classes.type_of json)) json

  -- AuthenticationTransformer, to classes: a reference is looked up in the JSON of the document.
  resolved : Option J → String → Result Authentication
  resolved none t = err invalid_key_reference
  resolved (some json) t = ok (referenced (read_key json) t)

  read_as : List J → J → Option String → Result Authentication
  unfolding resolved
  read_as keys auth (some id) =
      resolved (find_first (λ key. classes.id_of key == id) keys) (classes.type_of auth)
  read_as keys auth none = ok (embedded (read_key auth))

  unfoldable pub read_authentication : List J → J → Result Authentication
  unfolding read_as
  read_authentication keys auth = read_as keys auth (truthy (classes.public_key_of auth))

  cons_result : Result Authentication → Result (List Authentication) → Result (List Authentication)
  cons_result (err e) rest = err e
  cons_result (ok auth) (err e) = err e
  cons_result (ok auth) (ok rest) = ok (auth ∷ rest)

  unfoldable pub read_authentications : List J → List J → Result (List Authentication)
  unfolding cons_result
  read_authentications keys [] = ok []
  read_authentications keys (auth ∷ rest) =
      cons_result (read_authentication keys auth) (read_authentications keys rest)

  -- AuthenticationTransformer, to JSON.
  unfoldable pub write_authentication : Authentication → J
  write_authentication (embedded key) = classes.json_of_key key
  write_authentication (referenced key t) = classes.reference key.id t

  made_doc : DidDocJson J → List Authentication → DidDoc
  made_doc json authentication = record {
    id = json.id;
    public_key = map read_key json.public_key;
    service = map read_service json.service;
    authentication = authentication;
  }

  with_authentication : DidDocJson J → Result (List Authentication) → Result DidDoc
  unfolding made_doc
  with_authentication json (err e) = err e
  with_authentication json (ok authentication) = ok (made_doc json authentication)

  unfoldable pub read_doc : DidDocJson J → Result DidDoc
  unfolding with_authentication
  read_doc json =
      with_authentication json (read_authentications json.public_key json.authentication)

  unfoldable pub write_doc : DidDoc → DidDocJson J
  write_doc doc = record {
    id = doc.id;
    public_key = map classes.json_of_key doc.public_key;
    service = map classes.json_of_service doc.service;
    authentication = map write_authentication doc.authentication;
  }
