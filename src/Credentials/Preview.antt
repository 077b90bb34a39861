-- ===== src/Credentials/Preview.antt =====
-- modules/credentials/CredentialUtils.ts: what `convertPreviewToValues` gives for each name.
use aries_framework_javascri.Prelude.{
  String, some, List, [], ◌∷◌, or_else, or_option, map_option, find_first, ◌==◌, ◌≡◌, arith, eq_iff,
  if◌then◌else◌, Option-cases, inl, inr,
}
use aries_framework_javascri.Storage.InMemory.{Dict, lookup, lookup-erase}
use aries_framework_javascri.Credentials.Messages.{CredentialPreviewAttribute, CredentialPreview}
use aries_framework_javascri.Credentials.Values.{
  ValueEncoder, CredValue, text, encode, spread_under, add_attribute, add_attributes,
  convert_preview_to_values,
}

-- The value that the credential holds for an attribute.
abbrev pub value_of : ValueEncoder → CredentialPreviewAttribute → CredValue
value_of e a = record { raw = a.value; encoded = encode e (text a.value) }

lookup-spread_under :
    (name other : String) (v : CredValue) (values : Dict CredValue)
    → lookup other (spread_under name v values)
      ≡ (if name == other then some (or_else (lookup name values) v) else lookup other values)
lookup-spread_under name other v values = ground (arith, lookup-erase name other values)

lookup-add_attributes :
    (e : ValueEncoder) (values : Dict CredValue) (attributes : List CredentialPreviewAttribute)
    (name : String)
    → lookup name (add_attributes e values attributes)
      ≡ or_option
          (lookup name values)
          (map_option (value_of e) (find_first (λ a. a.name == name) attributes))
unfolding add_attributes add_attribute
lookup-add_attributes e values [] name = elim (Option-cases (lookup name values)) [
  | inl h ↦ rw h
  | inr (v, h) ↦ rw h
]
lookup-add_attributes e values (a ∷ attributes) name = elim (Option-cases (lookup name values)) [
  | inl h ↦ ground (
    arith,
    h,
    eq_iff a.name name,
    lookup-add_attributes e (add_attribute e values a) attributes name,
    lookup-spread_under a.name name (value_of e a) values,
  )
  | inr (v, h) ↦ ground (
    arith,
    h,
    eq_iff a.name name,
    lookup-add_attributes e (add_attribute e values a) attributes name,
    lookup-spread_under a.name name (value_of e a) values,
  )
]

-- The credential's value for a name is that of the first attribute of the preview with this name,
-- with the encoding that a verifier accepts for it; a name of no attribute has no value.
pub lookup-convert_preview :
    (e : ValueEncoder) (preview : CredentialPreview) (name : String)
    → lookup name (convert_preview_to_values e preview)
      ≡ map_option
          (λ a. record { raw = a.value; encoded = encode e (text a.value) })
          (find_first (λ a. a.name == name) preview.attributes)
unfolding convert_preview_to_values
lookup-convert_preview e preview name = lookup-add_attributes e [] preview.attributes name
