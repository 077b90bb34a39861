-- ===== src/Connections/Invitation.antt =====
-- helpers.ts, utils/base64.ts and messages/ConnectionInvitationMessage.ts: invitations as urls. A
-- url is the list of its character codes. JSON, base64 and class-transformer are parameters; what
-- the decorators of the class ask for is written out.
pub mod RoundTrip
use aries_framework_javascri.Prelude.{
  strip_prefix, ℕ, String, Bool, true, false, ◌&&◌, ◌||◌, ◌==◌, Option, none, some, List, [], ◌∷◌,
  ◌++◌, map_option, is_some, truthy, same_number, if◌then◌else◌,
}
use aries_framework_javascri.Exec.{Result, ok, err, type_error, validation_failed, did_and_keys}
use aries_framework_javascri.Message.{new_message, matches_message_id}
use aries_framework_javascri.Connections.Record.{ConnectionInvitationMessage}
use aries_framework_javascri.Agent.Receiver.{replace_legacy_did_sov_prefix}

-- `ConnectionMessageType.ConnectionInvitation`
abbrev pub invitation_type : String
invitation_type = "https://didcomm.org/connections/1.0/invitation"

-- The options of the constructor. Both kinds of options may be mixed at run time.
pub record InvitationOptions : Type 0 where
  pub id : Option String
  pub label : String
  pub did : Option String
  pub recipient_keys : Option (List String)
  pub service_endpoint : Option String
  pub routing_keys : Option (List String)

-- The constructor; `new_id` is what `generateId` returns. An id that is empty is replaced too.
id_or_new : Option String → String → String
id_or_new none new_id = new_id
id_or_new (some id) new_id = id

assigned : String → InvitationOptions → Option String → ConnectionInvitationMessage
unfolding id_or_new
assigned new_id options (some did) = record {
  base = new_message (id_or_new (truthy options.id) new_id);
  label = options.label;
  did = some did;
  recipient_keys = none;
  service_endpoint = none;
  routing_keys = none;
}
assigned new_id options none = record {
  base = new_message (id_or_new (truthy options.id) new_id);
  label = options.label;
  did = none;
  recipient_keys = options.recipient_keys;
  service_endpoint = options.service_endpoint;
  routing_keys = options.routing_keys;
}

is_mixed : InvitationOptions → Bool
is_mixed options =
    is_some (truthy options.did)
    && (is_some options.recipient_keys
        || is_some options.routing_keys
        || is_some (truthy options.service_endpoint))

unfoldable pub new_invitation_message :
    String → InvitationOptions → Result ConnectionInvitationMessage
unfolding assigned is_mixed
new_invitation_message new_id options =
    if is_mixed options then err did_and_keys else ok (assigned new_id options options.did)

-- An invitation as class-transformer makes it of JSON, before the class's own transform and checks.
pub record PlainInvitation : Type 0 where
  pub type : Option String
  pub id : Option String
  pub label : Option String
  pub did : Option String
  pub recipient_keys : Option (List String)
  pub service_endpoint : Option String
  pub routing_keys : Option (List String)

-- JSON.parse and stringify, base64 of Buffer, and the reading and writing of the fields by
-- class-transformer, over plain JSON values `J`.
pub record InvitationCodec (J : Type 0) : Type 0 where
  pub to_base64 : J → List ℕ
  pub from_base64 : List ℕ → Result J
  pub fields_of : J → PlainInvitation
  pub json_of : PlainInvitation → J

abbrev pub plain_of : ConnectionInvitationMessage → PlainInvitation
plain_of invitation = record {
  type = some invitation_type;
  id = invitation.base.id;
  label = some invitation.label;
  did = invitation.did;
  recipient_keys = invitation.recipient_keys;
  service_endpoint = invitation.service_endpoint;
  routing_keys = invitation.routing_keys;
}

-- `value.replace(/a/g, b)`, for one character and another.
unfoldable pub replace_all : ℕ → ℕ → List ℕ → List ℕ
replace_all a b [] = []
replace_all a b (c ∷ text) =
    let rest = replace_all a b text in if same_number c a then b ∷ rest else c ∷ rest

-- `value.replace(/a/g, '')`
unfoldable pub remove_all : ℕ → List ℕ → List ℕ
remove_all a [] = []
remove_all a (c ∷ text) = let rest = remove_all a text in if same_number c a then rest else c ∷ rest

unfoldable pub base64_to_base64_url : List ℕ → List ℕ
base64_to_base64_url base64 = remove_all b'=' (replace_all b'/' b'_' (replace_all b'+' b'-' base64))

abbrev pub marker : List ℕ
marker = b'c' ∷ b'_' ∷ b'i' ∷ b'=' ∷ []

first_match : Option (List ℕ) → Option (List ℕ) → Option (List ℕ)
first_match (some rest) _ = some rest
first_match none later = later

-- What stands behind the first occurrence of a text, and what stands before it.
unfoldable pub after : List ℕ → List ℕ → Option (List ℕ)
unfolding first_match
after sep [] = strip_prefix sep []
after sep (c ∷ text) = let later = after sep text in first_match (strip_prefix sep (c ∷ text)) later

kept_before : Option (List ℕ) → ℕ → List ℕ → List ℕ
kept_before (some _) c later = []
kept_before none c later = c ∷ later

unfoldable pub before : List ℕ → List ℕ → List ℕ
unfolding kept_before
before sep [] = []
before sep (c ∷ text) = kept_before (strip_prefix sep (c ∷ text)) c (before sep text)

-- `url.split(sep)[1]`
unfoldable pub second_part : List ℕ → List ℕ → Option (List ℕ)
second_part sep url = map_option (before sep) (after sep url)

-- `validateOrReject`: the checks of the class and of BaseMessage; the type that is asked for matches
-- `MessageTypeRegExp` of BaseMessage. `did` is checked where there are no recipient keys,
-- the keys and the endpoint where there is no did.
is_type : Option String → Bool
is_type none = false
is_type (some t) = t == invitation_type

unfoldable pub is_valid_invitation : PlainInvitation → Bool
unfolding is_type
is_valid_invitation plain =
    is_type plain.type
    && matches_message_id plain.id
    && is_some plain.label
    && (is_some plain.recipient_keys || is_some plain.did)
    && (is_some plain.did || (is_some plain.recipient_keys && is_some plain.service_endpoint))

-- The transform of `type` on the way to the class.
unfoldable pub transformed : PlainInvitation → PlainInvitation
transformed plain = record plain { type = map_option replace_legacy_did_sov_prefix plain.type }

module _ {J : Type 0} (codec : InvitationCodec J) where
  unfoldable pub encode_invitation_to_url : ConnectionInvitationMessage → List ℕ → List ℕ
  encode_invitation_to_url invitation domain =
      domain
      ++ (b'?'
          ∷ (marker
              ++ base64_to_base64_url (codec.to_base64 (codec.json_of (plain_of invitation)))))

  validated : PlainInvitation → Result PlainInvitation
  validated plain = if is_valid_invitation plain then ok plain else err validation_failed

  read_json : Result J → Result PlainInvitation
  unfolding validated
  read_json (err e) = err e
  read_json (ok json) = validated (transformed (codec.fields_of json))

  -- `Buffer.from(undefined)` throws.
  read_part : Option (List ℕ) → Result PlainInvitation
  unfolding read_json
  read_part none = err type_error
  read_part (some part) = read_json (codec.from_base64 part)

  unfoldable pub decode_invitation_from_url : List ℕ → Result PlainInvitation
  unfolding read_part
  decode_invitation_from_url url = read_part (second_part marker url)
