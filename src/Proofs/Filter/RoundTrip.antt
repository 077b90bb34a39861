-- ===== src/Proofs/Filter/RoundTrip.antt =====
-- A filter on an attribute's value is read back from its JSON.
use aries_framework_javascri.Prelude.{
  ℕ, ◌≡◌, ◌≢◌, refl, ap, ◌∙◌, none, some, List, [], ◌∷◌, ◌++◌, inl, inr, Bool-cases, All, Lacks,
  same_text, same_text-eq, strip_prefix,
}
use aries_framework_javascri.Proofs.Filter.{
  AttributeValue, attr_prefix, value_suffix, until_colon, match_attribute, matched, named,
  set_property, written, filter_to_plain, with_property, taken, take_attribute, read_filter,
  filter_to_class,
}

until_colon-Lacks :
    (name rest : List ℕ)
    → Lacks b':' name
    → until_colon (name ++ (b':' ∷ rest)) ≡ (name, b':' ∷ rest)
unfolding until_colon
until_colon-Lacks [] rest lacks = refl
until_colon-Lacks (c ∷ name) rest (other, lacks) = rw (other, until_colon-Lacks name rest lacks)

-- A name is in the form that the regular expression reads: not empty and without a colon.
abbrev pub IsName : List ℕ → Type 0
IsName name = (name ≢ []) × Lacks b':' name

named-IsName : (name : List ℕ) → name ≢ [] → named (name, value_suffix) ≡ some name
unfolding named same_text
named-IsName [] given = absurd (given refl)
named-IsName (c ∷ name) given = refl

match_attribute-IsName :
    (name : List ℕ)
    → IsName name
    → match_attribute (attr_prefix ++ name ++ value_suffix) ≡ some name
unfolding match_attribute strip_prefix matched
match_attribute-IsName name (given, lacks) =
    ap named (until_colon-Lacks name _ lacks) ∙ named-IsName name given

-- No property but the attribute value has a key that is read as one.
abbrev pub NoAttribute : List (List ℕ × List ℕ) → Type 0
NoAttribute properties = All (λ p. match_attribute p.0 ≡ none) properties

take_attribute-set :
    (key value name : List ℕ) (properties : List (List ℕ × List ℕ))
    → match_attribute key ≡ some name
    → NoAttribute properties
    → take_attribute (set_property key value properties)
      ≡ some (record { name = name; value = value }, properties)
unfolding take_attribute set_property taken with_property
take_attribute-set key value name [] matches clear = rw matches
take_attribute-set key value name ((k, v) ∷ rest) matches (other, clear) =
    elim (Bool-cases (same_text k key)) [
      | inl e ↦ absurd (cc (same_text-eq k key e))
      | inr e ↦ rw (e, other, take_attribute-set key value name rest matches clear)
    ]

-- A filter whose attribute name is not empty and has no colon, and whose other properties are not
-- of the form of an attribute's, is read back from its JSON as it was.
pub filter_to_class-filter_to_plain :
    (properties : List (List ℕ × List ℕ)) (a : AttributeValue)
    → IsName a.name
    → NoAttribute properties
    → filter_to_class
        (filter_to_plain (record { properties = properties; attribute_value = some a }))
      ≡ record { properties = properties; attribute_value = some a }
unfolding filter_to_class filter_to_plain written read_filter
filter_to_class-filter_to_plain properties a name clear = rw (
    take_attribute-set (attr_prefix ++ a.name ++ value_suffix) a.value a.name properties
      (match_attribute-IsName a.name name) clear)
