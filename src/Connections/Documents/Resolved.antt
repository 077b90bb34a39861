-- ===== src/Connections/Documents/Resolved.antt =====
-- Every reference of a document that was read is resolved to a key of that document.
use aries_framework_javascri.Prelude.{
  String, ◌≡◌, refl, ap, subst, ◌∙◌, Option, none, some, List, [], ◌∷◌, map, map_option, ◌==◌,
  eq_iff, find_first, All, truthy,
}
use aries_framework_javascri.Exec.{Result, ok, err}
use aries_framework_javascri.Connections.Did.{
  PublicKey, Authentication, referenced, embedded, DidDoc, get_public_key,
}
use aries_framework_javascri.Connections.Documents.{
  Classes, DidDocJson, read_key, read_authentication, read_authentications, read_doc, resolved,
  read_as, cons_result, with_authentication, made_doc,
}
use aries_framework_javascri.Connections.Documents.Reading.{
  Resolves, ResolvesBy, find_first-map, find_first-found,
}

-- A key has the id of the JSON that it is read from, whatever its class.
pub record KeepsIds {J : Type 0} (classes : Classes J) : Type 0 where
  pub id_lem : (json : J) → (read_key classes json).id ≡ classes.id_of json

abbrev ResolvesIn : List PublicKey → Authentication → Type 0
ResolvesIn keys auth = ResolvesBy (λ id. find_first (λ item. item.id == id) keys) auth

module _ {J : Type 0} (classes : Classes J) (law : KeepsIds classes) where
  found_key :
      (keys : List J) (id : String) {json : J}
      → find_first (λ key. classes.id_of key == id) keys ≡ some json
      → find_first (λ item. item.id == (read_key classes json).id) (map (read_key classes) keys)
        ≡ some (read_key classes json)
  found_key keys id {json} e =
      let same : (read_key classes json).id ≡ id =
        law.id_lem json
        ∙ (eq_iff (classes.id_of json) id).0
            (find_first-found (λ key. classes.id_of key == id) keys e) in
      ap (λ i. find_first (λ item. item.id == i) (map (read_key classes) keys)) same
      ∙ find_first-map (read_key classes) (λ key. classes.id_of key == id) (λ item. item.id == id)
          keys (λ key. ap (λ i. i == id) (law.id_lem key))
      ∙ ap (map_option (read_key classes)) e

  resolved-ResolvesIn :
      (keys : List J) (id t : String) (o : Option J) {auth : Authentication}
      → find_first (λ key. classes.id_of key == id) keys ≡ o
      → resolved classes o t ≡ ok auth
      → ResolvesIn (map (read_key classes) keys) auth
  unfolding resolved
  resolved-ResolvesIn keys id t none {auth} e made = absurd (cc)
  resolved-ResolvesIn keys id t (some json) {auth} e made =
      let same : referenced (read_key classes json) t ≡ auth = cc in
      subst (ResolvesIn (map (read_key classes) keys)) same (found_key keys id e)

  read_as-ResolvesIn :
      (keys : List J) (json : J) (o : Option String) {auth : Authentication}
      → read_as classes keys json o ≡ ok auth
      → ResolvesIn (map (read_key classes) keys) auth
  unfolding read_as
  read_as-ResolvesIn keys json none {auth} made =
      let same : embedded (read_key classes json) ≡ auth = cc in
      subst (ResolvesIn (map (read_key classes) keys)) same tt
  read_as-ResolvesIn keys json (some id) {auth} made =
      resolved-ResolvesIn keys id (classes.type_of json) _ refl made

  cons_result-ok :
      (r : Result Authentication) (rs : Result (List Authentication)) {read : List Authentication}
      → cons_result classes r rs ≡ ok read
      → (auth : Authentication) × ((rest : List Authentication) × (r ≡ ok auth)
          × (rs ≡ ok rest)
          × (auth ∷ rest ≡ read))
  unfolding cons_result
  cons_result-ok (err e) rs made = absurd (cc)
  cons_result-ok (ok auth) (err e) made = absurd (cc)
  cons_result-ok (ok auth) (ok rest) made = (auth, (rest, refl, refl, cc))

  read_authentications-ResolvesIn :
      (keys auths : List J) {read : List Authentication}
      → read_authentications classes keys auths ≡ ok read
      → All (ResolvesIn (map (read_key classes) keys)) read
  unfolding read_authentications read_authentication
  read_authentications-ResolvesIn keys [] {read} made =
      let none_read : [] ≡ read = cc in
      subst (All (ResolvesIn (map (read_key classes) keys))) none_read tt
  read_authentications-ResolvesIn keys (json ∷ rest) {read} made =
      let (auth, (auths, first, others, joined)) =
        cons_result-ok (read_authentication classes keys json)
          (read_authentications classes keys rest) made in
      subst (All (ResolvesIn (map (read_key classes) keys))) joined (
        read_as-ResolvesIn keys json (truthy (classes.public_key_of json)) first,
        read_authentications-ResolvesIn keys rest others,
      )

  with_authentication-Resolves :
      (json : DidDocJson J) (r : Result (List Authentication)) {doc : DidDoc}
      → read_authentications classes json.public_key json.authentication ≡ r
      → with_authentication classes json r ≡ ok doc
      → All (Resolves doc) doc.authentication
  unfolding with_authentication get_public_key made_doc
  with_authentication-Resolves json (err e) read made = absurd (cc)
  with_authentication-Resolves json (ok auths) {doc} read made =
      let same : made_doc classes json auths ≡ doc = cc in
      subst (λ d. All (Resolves d) d.authentication) same
        (read_authentications-ResolvesIn json.public_key json.authentication read)

  -- Whenever a document is read, each authentication that names a key holds the key that
  -- `getPublicKey` of that document finds under the id of that key; over a class-transformer that
  -- keeps the ids of keys.
  pub read_doc-Resolves :
      (json : DidDocJson J) {doc : DidDoc}
      → read_doc classes json ≡ ok doc
      → All (Resolves doc) doc.authentication
  unfolding read_doc
  read_doc-Resolves json made = with_authentication-Resolves json _ refl made
