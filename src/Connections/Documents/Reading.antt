-- ===== src/Connections/Documents/Reading.antt =====
-- Documents that are read have their references resolved, and such documents are read as written.
use aries_framework_javascri.Prelude.{
  String, ◌≡◌, refl, ap, ◌∙◌, Bool, true, false, Option, none, some, List, [], ◌∷◌, map, map_option,
  inl, inr, arith, ◌==◌, find_first, All, Bool-cases, is_empty, truthy,
}
use aries_framework_javascri.Exec.{ok}
use aries_framework_javascri.Connections.Did.{
  PublicKey, Authentication, referenced, embedded, Service, service_type, DidDoc, get_public_key,
}
use aries_framework_javascri.Connections.Documents.{
  Classes, public_key_class, service_class, class_of_service, read_key, read_service,
  read_authentication, read_authentications, write_authentication, read_doc, write_doc, resolved,
  read_as, cons_result, with_authentication,
}

-- What class-transformer documents of one object, with the names that the classes expose.
pub record IsFaithful {J : Type 0} (classes : Classes J) : Type 0 where
  pub key_lem :
      (k : PublicKey) → classes.key_of (public_key_class k.type) (classes.json_of_key k) ≡ k
  pub key_id_lem : (k : PublicKey) → classes.id_of (classes.json_of_key k) ≡ k.id
  pub key_type_lem : (k : PublicKey) → classes.type_of (classes.json_of_key k) ≡ k.type
  pub key_plain_lem : (k : PublicKey) → classes.public_key_of (classes.json_of_key k) ≡ none
  pub service_lem :
      (s : Service) → classes.service_of (class_of_service s) (classes.json_of_service s) ≡ s
  pub service_type_lem :
      (s : Service) → classes.type_of (classes.json_of_service s) ≡ service_type s
  pub reference_lem : (id t : String) → classes.public_key_of (classes.reference id t) ≡ some id
  pub reference_type_lem : (id t : String) → classes.type_of (classes.reference id t) ≡ t

-- A referenced key is the one that is found under its id.
abbrev pub ResolvesBy : (String → Option PublicKey) → Authentication → Type 0
ResolvesBy find (embedded key) = Unit
ResolvesBy find (referenced key t) = find key.id ≡ some key

abbrev pub Resolves : DidDoc → Authentication → Type 0
Resolves doc auth = ResolvesBy (get_public_key doc) auth

abbrev HasId : Authentication → Type 0
HasId (embedded key) = Unit
HasId (referenced key t) = is_empty key.id ≡ false

-- A service is an instance of the class that its type names.
abbrev pub OfItsType : Service → Type 0
OfItsType s = service_class (service_type s) ≡ class_of_service s

-- The document's references resolve, by keys with an id, and its services are of their types.
pub record IsWritable (doc : DidDoc) : Type 0 where
  pub resolves : All (Resolves doc) doc.authentication
  pub has_ids : All HasId doc.authentication
  pub of_types : All OfItsType doc.service

pub find_first-map :
    {A B : Type 0} (f : A → B) (p : A → Bool) (q : B → Bool) (xs : List A)
    → ((x : A) → q (f x) ≡ p x)
    → find_first q (map f xs) ≡ map_option f (find_first p xs)
find_first-map f p q [] same = refl
find_first-map f p q (x ∷ xs) same = ground (arith, same x, find_first-map f p q xs same)

pub find_first-found :
    {A : Type 0} (p : A → Bool) (xs : List A) {x : A} → find_first p xs ≡ some x → p x ≡ true
find_first-found p [] e = absurd (cc)
find_first-found p (y ∷ xs) e = elim (Bool-cases (p y)) [
  | inl found ↦ ground arith
  | inr missed ↦ find_first-found p xs (ground arith)
]

truthy-some : (s : String) → is_empty s ≡ false → truthy (some s) ≡ some s
truthy-some s e = ground arith

module _ {J : Type 0} (classes : Classes J) (law : IsFaithful classes) where
  read_key-json : (k : PublicKey) → read_key classes (classes.json_of_key k) ≡ k
  unfolding read_key
  read_key-json k =
      ap (λ t. classes.key_of (public_key_class t) (classes.json_of_key k)) (law.key_type_lem k)
      ∙ law.key_lem k

  read_keys : (ks : List PublicKey) → map (read_key classes) (map classes.json_of_key ks) ≡ ks
  read_keys [] = refl
  read_keys (k ∷ ks) = cc (read_key-json k, read_keys ks)

  read_services :
      (ss : List Service)
      → All OfItsType ss
      → map (read_service classes) (map classes.json_of_service ss) ≡ ss
  unfolding read_service
  read_services [] all = refl
  read_services (s ∷ ss) (own, all) = cc (
    ap (λ t. classes.service_of (service_class t) (classes.json_of_service s))
        (law.service_type_lem s),
    ap (λ c. classes.service_of c (classes.json_of_service s)) own,
    law.service_lem s,
    read_services ss all,
  )

  read_as-key :
      (keys : List J) (key : PublicKey)
      → read_authentication classes keys (classes.json_of_key key) ≡ ok (embedded key)
  unfolding read_authentication read_as
  read_as-key keys key =
      ap (λ o. read_as classes keys (classes.json_of_key key) (truthy o)) (law.key_plain_lem key)
      ∙ ap (λ k. ok (embedded k)) (read_key-json key)

  find_json :
      (id : String) (ks : List PublicKey)
      → find_first (λ j. classes.id_of j == id) (map classes.json_of_key ks)
        ≡ map_option classes.json_of_key (find_first (λ item. item.id == id) ks)
  find_json id ks =
      find_first-map classes.json_of_key (λ item. item.id == id) (λ j. classes.id_of j == id) ks
        (λ k. ap (λ i. i == id) (law.key_id_lem k))

  read_as-reference :
      (doc : DidDoc) (key : PublicKey) (t : String)
      → Resolves doc (referenced key t)
      → is_empty key.id ≡ false
      → read_authentication classes
          (map classes.json_of_key doc.public_key)
          (classes.reference key.id t)
        ≡ ok (referenced key t)
  unfolding read_authentication read_as resolved get_public_key
  read_as-reference doc key t r h =
      let keys = map classes.json_of_key doc.public_key in
      let auth = classes.reference key.id t in
      let named : truthy (classes.public_key_of auth) ≡ some key.id =
        ap truthy (law.reference_lem key.id t) ∙ truthy-some key.id h in
      let found = find_json key.id doc.public_key ∙ ap (map_option classes.json_of_key) r in
      ap (read_as classes keys auth) named
      ∙ ap (λ o. resolved classes o (classes.type_of auth)) found
      ∙ ap (λ k. ok (referenced k (classes.type_of auth))) (read_key-json key)
      ∙ ap (λ t'. ok (referenced key t')) (law.reference_type_lem key.id t)

  read_authentication-write :
      (doc : DidDoc) (auth : Authentication)
      → Resolves doc auth
      → HasId auth
      → read_authentication classes
          (map classes.json_of_key doc.public_key)
          (write_authentication classes auth)
        ≡ ok auth
  unfolding write_authentication
  read_authentication-write doc (embedded key) r h = read_as-key _ key
  read_authentication-write doc (referenced key t) r h = read_as-reference doc key t r h

  read_authentications-write :
      (doc : DidDoc) (auths : List Authentication)
      → All (Resolves doc) auths
      → All HasId auths
      → read_authentications classes
          (map classes.json_of_key doc.public_key)
          (map (write_authentication classes) auths)
        ≡ ok auths
  unfolding read_authentications cons_result
  read_authentications-write doc [] r h = refl
  read_authentications-write doc (auth ∷ rest) (r, rs) (h, hs) =
      cc (read_authentication-write doc auth r h, read_authentications-write doc rest rs hs)

  -- A document whose references name keys of it, the first under their ids, and whose services are
  -- of the classes of their types is read back from its JSON as it was written, over a
  -- class-transformer that reads single keys and services as written.
  pub read_doc-write_doc :
      (doc : DidDoc) → IsWritable doc → read_doc classes (write_doc classes doc) ≡ ok doc
  unfolding read_doc write_doc with_authentication
  read_doc-write_doc doc w = cc (
    read_authentications-write doc doc.authentication w.resolves w.has_ids,
    read_keys doc.public_key,
    read_services doc.service w.of_types,
  )
