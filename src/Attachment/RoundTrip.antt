-- ===== src/Attachment/RoundTrip.antt =====
-- An attachment with JSON data, read by another agent.
use aries_framework_javascri.Prelude.{
  String, ◌≡◌, refl, false, some, [], ◌∷◌, eq_iff, is_empty, truthy,
}
use aries_framework_javascri.Exec.{ok}
use aries_framework_javascri.Attachment.{Base64, json_attachment, indy_attachment, decode}

-- The second agent reads the base64 JSON of the first one, which is never empty.
pub record Reads {J : Type 0} (a b : Base64 J) : Type 0 where
  pub read_lem : (j : J) → b.from_base64 (a.to_base64 j) ≡ ok j
  pub text_lem : (j : J) → is_empty (a.to_base64 j) ≡ false

module _ {J : Type 0} (a b : Base64 J) (reads : Reads a b) where
  decode-to_base64 : (j : J) → decode b (truthy (some (a.to_base64 j))) ≡ ok (some j)
  decode-to_base64 j = rw (reads.text_lem j, reads.read_lem j)

  pub indy_attachment-json :
      (id : String) (j : J) → indy_attachment b id (json_attachment a id j ∷ []) ≡ ok (some j)
  unfolding indy_attachment
  indy_attachment-json id j = rw ((eq_iff id id).1 refl) (decode-to_base64 j)
