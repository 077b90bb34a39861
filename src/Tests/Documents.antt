-- ===== src/Tests/Documents.antt =====
-- A DID document and its JSON, where JSON is told apart by what it was written from.
use aries_framework_javascri.Prelude.{String, ◌≡◌, refl, none, some, Option, [], ◌∷◌, All}
use aries_framework_javascri.Exec.{ok, err, invalid_key_reference}
use aries_framework_javascri.Connections.Did.{
  new_rsa_sig_2018, new_eddsa_sa_sig_secp256k1, ed25519_sig_2018, PublicKey, referenced, embedded,
  Service, base, service_type, DidDoc, get_public_key,
}
use aries_framework_javascri.Connections.Documents.{
  rsa_sig_2018, eddsa_sa_sig_secp256k1, public_key_class, Classes, KeyClass, ServiceClass,
  service_class, class_of_service, read_doc, write_doc, read_authentications, read_authentication,
  read_key,
}
use aries_framework_javascri.Connections.Documents.Reading.{
  IsFaithful, IsWritable, Resolves, read_doc-write_doc,
}
use aries_framework_javascri.Connections.Documents.Resolved.{KeepsIds, read_doc-Resolves}

data Json : Type 0 where
  key_json : PublicKey → Json
  service_json : Service → Json
  reference_json : String → String → Json

abbrev no_key : PublicKey
no_key = record { id = ""; controller = ""; type = ""; value = none }

abbrev no_service : Service
no_service = base (record { id = ""; service_endpoint = ""; type = "" })

abbrev id_of : Json → String
id_of (key_json k) = k.id
id_of (service_json s) = ""
id_of (reference_json id t) = ""

abbrev type_of : Json → String
type_of (key_json k) = k.type
type_of (service_json s) = service_type s
type_of (reference_json id t) = t

abbrev public_key_of : Json → Option String
public_key_of (key_json k) = none
public_key_of (service_json s) = none
public_key_of (reference_json id t) = some id

abbrev key_of : KeyClass → Json → PublicKey
key_of c (key_json k) = k
key_of c (service_json s) = no_key
key_of c (reference_json id t) = no_key

abbrev service_of : ServiceClass → Json → Service
service_of c (key_json k) = no_service
service_of c (service_json s) = s
service_of c (reference_json id t) = no_service

abbrev classes : Classes Json
classes = record {
  id_of = id_of;
  type_of = type_of;
  public_key_of = public_key_of;
  key_of = key_of;
  json_of_key = key_json;
  service_of = service_of;
  json_of_service = service_json;
  reference = reference_json;
}

classes-IsFaithful : IsFaithful classes
classes-IsFaithful = record {
  key_lem = λ k. refl;
  key_id_lem = λ k. refl;
  key_type_lem = λ k. refl;
  key_plain_lem = λ k. refl;
  service_lem = λ s. refl;
  service_type_lem = λ s. refl;
  reference_lem = λ id t. refl;
  reference_type_lem = λ id t. refl;
}

keeps_id : (json : Json) → (read_key classes json).id ≡ id_of json
unfolding read_key
keeps_id (key_json k) = refl
keeps_id (service_json s) = refl
keeps_id (reference_json id t) = refl

classes-KeepsIds : KeepsIds classes
classes-KeepsIds = record { id_lem = keeps_id }

abbrev key : PublicKey
key = record {
  id = "did:sov:a#1";
  controller = "did:sov:a";
  type = "Ed25519VerificationKey2018";
  value = some "alice_key";
}

abbrev doc : DidDoc
doc = record {
  id = "did:sov:a";
  public_key = key ∷ [];
  service = base (record { id = "s"; service_endpoint = "https://alice"; type = "Other" }) ∷ [];
  authentication =
      referenced key "Ed25519SignatureAuthentication2018" ∷ embedded (record key { id = "e" }) ∷ [];
}

doc-IsWritable : IsWritable doc
unfolding get_public_key service_class class_of_service
doc-IsWritable = record {
  resolves = (refl, (tt, tt));
  has_ids = (refl, (tt, tt));
  of_types = (refl, tt);
}

read_doc-write_doc_example : read_doc classes (write_doc classes doc) ≡ ok doc
read_doc-write_doc_example = read_doc-write_doc classes classes-IsFaithful doc doc-IsWritable

read_doc-Resolves_example : All (Resolves doc) doc.authentication
read_doc-Resolves_example =
    read_doc-Resolves classes classes-KeepsIds (write_doc classes doc) read_doc-write_doc_example

dangling :
    read_doc classes (record {
      id = "did:sov:a";
      public_key = key_json key ∷ [];
      service = [];
      authentication = reference_json "did:sov:a#2" "t" ∷ [];
    })
    ≡ err invalid_key_reference
unfolding read_doc read_authentications read_authentication
dangling = refl

-- The constructors of the key classes set the types that these classes are read for.
own_classes :
    (public_key_class (new_rsa_sig_2018 "k" "c" "pem").type ≡ rsa_sig_2018)
    × (public_key_class (ed25519_sig_2018 "k" "c" "base58").type ≡ KeyClass.ed25519_sig_2018)
    × (public_key_class (new_eddsa_sa_sig_secp256k1 "k" "c" "hex").type ≡ eddsa_sa_sig_secp256k1)
unfolding public_key_class new_rsa_sig_2018 ed25519_sig_2018 new_eddsa_sa_sig_secp256k1
own_classes = (refl, refl, refl)
