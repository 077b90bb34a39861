-- ===== src/Tests/Invitations.antt =====
-- An invitation url at the default domain.
use aries_framework_javascri.Prelude.{strip_prefix, ℕ, ◌≡◌, refl, none, some, List, [], ◌∷◌, codes}
use aries_framework_javascri.Exec.{ok, err, type_error, did_and_keys}
use aries_framework_javascri.Message.{new_message, matches_message_id}
use aries_framework_javascri.Connections.Record.{ConnectionInvitationMessage}
use aries_framework_javascri.Connections.Invitation.{
  InvitationCodec, PlainInvitation, plain_of, new_invitation_message, is_valid_invitation,
  base64_to_base64_url, replace_all, remove_all, second_part, after, encode_invitation_to_url,
  decode_invitation_from_url,
}
use aries_framework_javascri.Connections.Invitation.RoundTrip.{IsReadable, decode-encode_invitation}

abbrev invitation : ConnectionInvitationMessage
invitation = record {
  base = new_message "3fa85f64-5717";
  label = "alice";
  did = none;
  recipient_keys = some ("alice_key" ∷ []);
  service_endpoint = some "https://alice";
  routing_keys = none;
}

-- The JSON of the one invitation.
abbrev codec : InvitationCodec PlainInvitation
codec = record {
  to_base64 = λ j. codes "ab+c/d==";
  from_base64 = λ t. ok (plain_of invitation);
  fields_of = λ j. j;
  json_of = λ plain. plain;
}

codec-IsReadable : IsReadable codec (plain_of invitation)
codec-IsReadable = record { base64_lem = λ u h. refl; fields_lem = refl }

abbrev domain : List ℕ
domain = codes "https://example.com/ssi"

url : encode_invitation_to_url codec invitation domain ≡ codes "https://example.com/ssi?c_i=ab-c_d"
unfolding encode_invitation_to_url base64_to_base64_url replace_all remove_all
url = refl

no_parameter : decode_invitation_from_url codec domain ≡ err type_error
unfolding decode_invitation_from_url second_part after strip_prefix
no_parameter = refl

both_kinds :
    new_invitation_message "id" (record {
      id = none;
      label = "alice";
      did = some "did:sov:a";
      recipient_keys = some [];
      service_endpoint = none;
      routing_keys = none;
    })
    ≡ err did_and_keys
unfolding new_invitation_message
both_kinds = refl

decode-encode_invitation_example :
    decode_invitation_from_url codec (encode_invitation_to_url codec invitation domain)
    ≡ ok (plain_of invitation)
unfolding is_valid_invitation matches_message_id after strip_prefix
decode-encode_invitation_example =
    decode-encode_invitation codec invitation domain codec-IsReadable refl refl
