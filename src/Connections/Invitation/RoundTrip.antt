-- ===== src/Connections/Invitation/RoundTrip.antt =====
-- An invitation is read back from its url, and what the constructor makes can be sent as a url.
use aries_framework_javascri.Prelude.{
  Lacks, strip_prefix, ℕ, ◌≡◌, refl, ap, subst, ◌∙◌, true, ◌||◌, ◌&&◌, String, Option, none, some,
  List, [], ◌∷◌, ◌++◌, inl, inr, arith, same_number, Bool-cases, any, is_some,
}
use aries_framework_javascri.Exec.{ok}
use aries_framework_javascri.Message.{matches_message_id}
use aries_framework_javascri.Agent.Receiver.{replace_legacy_did_sov_prefix}
use aries_framework_javascri.Connections.Record.{ConnectionInvitationMessage}
use aries_framework_javascri.Connections.Invitation.{
  assigned, is_mixed, InvitationOptions, new_invitation_message, InvitationCodec, PlainInvitation,
  plain_of, replace_all, remove_all, first_match, base64_to_base64_url, marker, after, before,
  second_part, is_valid_invitation, transformed, encode_invitation_to_url,
  decode_invitation_from_url,
}

-- The same base64 text in the two alphabets, with or without padding.
pub data Alike : List ℕ → List ℕ → Type 0 where
  done : Alike [] []
  same : {t u : List ℕ} (c : ℕ) → Alike t u → Alike (c ∷ t) (c ∷ u)
  plus : {t u : List ℕ} → Alike t u → Alike (b'+' ∷ t) (b'-' ∷ u)
  slash : {t u : List ℕ} → Alike t u → Alike (b'/' ∷ t) (b'_' ∷ u)
  padding : {t u : List ℕ} → Alike t u → Alike (b'=' ∷ t) u

-- What Buffer, JSON and class-transformer document, at one invitation: its JSON is read from either
-- alphabet of base64, with or without padding, and its fields are read as written.
pub record IsReadable {J : Type 0} (codec : InvitationCodec J) (plain : PlainInvitation)
    : Type 0 where
  pub base64_lem :
      (u : List ℕ)
      → Alike (codec.to_base64 (codec.json_of plain)) u
      → codec.from_base64 u ≡ ok (codec.json_of plain)
  pub fields_lem : codec.fields_of (codec.json_of plain) ≡ plain

number_of : (a b : ℕ) → same_number a b ≡ true → a ≡ b
number_of a b e = ground arith

Alike-base64_to_base64_url : (t : List ℕ) → Alike t (base64_to_base64_url t)
unfolding base64_to_base64_url remove_all replace_all
Alike-base64_to_base64_url [] = done
Alike-base64_to_base64_url (c ∷ t) =
    let ih = Alike-base64_to_base64_url t in
    elim (Bool-cases (same_number c b'+')) [
      | inl e ↦ rw (number_of c b'+' e) (plus ih)
      | inr not_plus ↦ elim (Bool-cases (same_number c b'/')) [
        | inl e ↦ rw (number_of c b'/' e) (slash ih)
        | inr not_slash ↦ elim (Bool-cases (same_number c b'=')) [
          | inl e ↦ rw (number_of c b'=' e) (padding ih)
          | inr not_padding ↦ rw (not_plus, not_slash, not_padding) (same c ih)
        ]
      ]
    ]

remove_all-Lacks : (x : ℕ) (t : List ℕ) → Lacks x (remove_all x t)
unfolding remove_all
remove_all-Lacks x [] = tt
remove_all-Lacks x (c ∷ t) = elim (Bool-cases (same_number c x)) [
  | inl e ↦ rw e (remove_all-Lacks x t)
  | inr e ↦ rw e (e, remove_all-Lacks x t)
]

strip_prefix-Lacks :
    (x : ℕ) (sep text : List ℕ)
    → any (λ p. same_number p x) sep ≡ true
    → Lacks x text
    → strip_prefix sep text ≡ none
unfolding strip_prefix
strip_prefix-Lacks x [] text found lacks = absurd (cc)
strip_prefix-Lacks x (p ∷ sep) [] found lacks = refl
strip_prefix-Lacks x (p ∷ sep) (c ∷ text) found (fresh, lacks) =
    ground (arith, strip_prefix-Lacks x sep text)

before-Lacks :
    (x : ℕ) (sep text : List ℕ)
    → any (λ p. same_number p x) sep ≡ true
    → Lacks x text
    → before sep text ≡ text
unfolding before
before-Lacks x sep [] found lacks = refl
before-Lacks x sep (c ∷ text) found lacks =
    rw (strip_prefix-Lacks x sep (c ∷ text) found lacks)
      (ap (λ t. c ∷ t) (before-Lacks x sep text found lacks.1))

-- A separator without `?` does not start in the domain, if it is not in the domain.
strip_prefix-domain :
    (sep domain rest : List ℕ)
    → Lacks b'?' sep
    → strip_prefix sep domain ≡ none
    → strip_prefix sep (domain ++ (b'?' ∷ rest)) ≡ none
unfolding strip_prefix
strip_prefix-domain [] domain rest lacks e = absurd (cc)
strip_prefix-domain (p ∷ sep) [] rest lacks e = ground arith
strip_prefix-domain (p ∷ sep) (c ∷ domain) rest lacks e =
    ground (arith, strip_prefix-domain sep domain rest)

first_match-none : (a b : Option (List ℕ)) → first_match a b ≡ none → (a ≡ none) × (b ≡ none)
unfolding first_match
first_match-none none b e = (refl, e)
first_match-none (some rest) b e = absurd (cc)

after-domain :
    (domain text : List ℕ)
    → after marker domain ≡ none
    → after marker (domain ++ (b'?' ∷ (marker ++ text))) ≡ some text
unfolding after first_match strip_prefix
after-domain [] text e = refl
after-domain (c ∷ domain) text e =
    let (head, tail) =
      first_match-none (strip_prefix marker (c ∷ domain)) (after marker domain) e in
    let ih = after-domain domain text tail in
    let stuck =
      strip_prefix-domain marker (c ∷ domain) (marker ++ text) (refl, (refl, (refl, (refl, tt))))
        head in
    ap (λ o. first_match o (after marker (domain ++ (b'?' ∷ (marker ++ text))))) stuck ∙ ih

second_part-url :
    (domain base64 : List ℕ)
    → after marker domain ≡ none
    → second_part marker (domain ++ (b'?' ∷ (marker ++ base64_to_base64_url base64)))
      ≡ some (base64_to_base64_url base64)
unfolding second_part base64_to_base64_url
second_part-url domain base64 e = rw (after-domain domain (base64_to_base64_url base64) e) (
    ap some (before-Lacks b'=' marker (base64_to_base64_url base64) refl (remove_all-Lacks b'=' _)))

-- What `encodeInvitationToUrl` writes behind a domain without the marker `c_i=` is read back by
-- `decodeInvitationFromUrl`, field by field, if the invitation meets the checks of its class; over
-- a Buffer that reads both alphabets of base64, and JSON and classes that are read as written.
pub decode-encode_invitation :
    {J : Type 0} (codec : InvitationCodec J)
    → (invitation : ConnectionInvitationMessage) (domain : List ℕ)
    → IsReadable codec (plain_of invitation)
    → after marker domain ≡ none
    → is_valid_invitation (plain_of invitation) ≡ true
    → decode_invitation_from_url codec (encode_invitation_to_url codec invitation domain)
      ≡ ok (plain_of invitation)
unfolding decode_invitation_from_url encode_invitation_to_url transformed
    replace_legacy_did_sov_prefix
decode-encode_invitation codec invitation domain law fresh valid =
    let json = codec.json_of (plain_of invitation) in
    rw
      (
        second_part-url domain (codec.to_base64 json) fresh,
        law.base64_lem _ (Alike-base64_to_base64_url (codec.to_base64 json)),
        law.fields_lem,
      )
      (rw valid)

abbrev IsAddressed : ConnectionInvitationMessage → Type 0
IsAddressed m =
    ((is_some m.recipient_keys || is_some m.did)
      && (is_some m.did || (is_some m.recipient_keys && is_some m.service_endpoint)))
    ≡ true

assigned-IsAddressed :
    (new_id : String) (options : InvitationOptions) (did : Option String)
    → (is_some did || (is_some options.recipient_keys && is_some options.service_endpoint)) ≡ true
    → IsAddressed (assigned new_id options did)
unfolding assigned
assigned-IsAddressed new_id options none given = ground arith
assigned-IsAddressed new_id options (some did) given = ground arith

-- What the constructor makes meets the checks of the class, if the options name a did, or keys and
-- an endpoint, and the id that it takes is accepted.
new_invitation_message-Valid :
    (new_id : String) (options : InvitationOptions) {invitation : ConnectionInvitationMessage}
    → (is_some options.did || (is_some options.recipient_keys && is_some options.service_endpoint))
      ≡ true
    → new_invitation_message new_id options ≡ ok invitation
    → matches_message_id invitation.base.id ≡ true
    → is_valid_invitation (plain_of invitation) ≡ true
unfolding new_invitation_message is_valid_invitation
new_invitation_message-Valid new_id options {invitation} given made accepted =
    elim (Bool-cases (is_mixed options)) [
      | inl mixed ↦ absurd (ground arith)
      | inr pure_options ↦
          let built : assigned new_id options options.did ≡ invitation = ground arith in
          rw accepted
            (subst IsAddressed built (assigned-IsAddressed new_id options options.did given))
    ]
