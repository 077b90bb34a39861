-- ===== src/Attachment.antt =====
-- decorators/attachment/Attachment.ts: attachments with base64 data, the kind that the protocols use.
pub mod RoundTrip
use aries_framework_javascri.Prelude.{String, Option, none, some, List, find_first, ◌==◌, truthy}
use aries_framework_javascri.Exec.{Result, ok, err}

pub record Attachment : Type 0 where
  pub id : String
  pub mime_type : Option String
  pub base64 : Option String

-- JsonEncoder over plain JSON values `J`: JSON and base64 are JavaScript's.
pub record Base64 (J : Type 0) : Type 0 where
  pub to_base64 : J → String
  pub from_base64 : String → Result J

abbrev pub json_attachment : {J : Type 0} → Base64 J → String → J → Attachment
json_attachment codec id json = record {
  id = id;
  mime_type = some "application/json";
  base64 = some (codec.to_base64 json);
}

abbrev decode : {J : Type 0} → Base64 J → Option String → Result (Option J)
decode codec none = ok none
decode codec (some text) = elim (codec.from_base64 text) [
  | ok json ↦ ok (some json)
  | err e ↦ err e
]

abbrev data_of : Option Attachment → Option String
data_of none = none
data_of (some attachment) = truthy attachment.base64

-- The getters `indyCredentialOffer` and the like: the attachment with this id, decoded.
unfoldable pub indy_attachment :
    {J : Type 0} → Base64 J → String → List Attachment → Result (Option J)
indy_attachment codec id attachments =
    decode codec (data_of (find_first (λ a. a.id == id) attachments))
