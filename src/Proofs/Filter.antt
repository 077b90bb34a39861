-- ===== src/Proofs/Filter.antt =====
-- modules/proofs/models/AttributeFilter.ts: the transformer of the filter on an attribute's value. A
-- filter is an object with text properties, in their order, and perhaps an attribute value; texts
-- are lists of their character codes.
pub mod RoundTrip
use aries_framework_javascri.Prelude.{
  ℕ, Bool, true, false, Option, none, some, List, [], ◌∷◌, ◌++◌, codes, same_number, same_text,
  strip_prefix, if◌then◌else◌,
}

pub record AttributeValue : Type 0 where
  pub name : List ℕ
  pub value : List ℕ

-- The properties are those of the class but `attributeValue`, and any other that JSON may have.
pub record FilterObject : Type 0 where
  pub properties : List (List ℕ × List ℕ)
  pub attribute_value : Option AttributeValue

abbrev pub attr_prefix : List ℕ
attr_prefix = codes "attr::"

abbrev pub value_suffix : List ℕ
value_suffix = codes "::value"

-- `([^:]+)`: the longest run without a colon, and what follows.
unfoldable pub until_colon : List ℕ → List ℕ × List ℕ
until_colon [] = ([], [])
until_colon (c ∷ text) =
    let (name, rest) = until_colon text in
    if same_number c b':' then ([], c ∷ text) else (c ∷ name, rest)

named : List ℕ × List ℕ → Option (List ℕ)
named ([], rest) = none
named (c ∷ name, rest) = if same_text rest value_suffix then some (c ∷ name) else none

matched : Option (List ℕ) → Option (List ℕ)
unfolding named
matched none = none
matched (some text) = named (until_colon text)

-- `new RegExp('^attr::([^:]+)::(value)$').exec(key)`, the first group.
unfoldable pub match_attribute : List ℕ → Option (List ℕ)
unfolding matched
match_attribute key = matched (strip_prefix attr_prefix key)

-- `object[key] = value`
unfoldable pub set_property : List ℕ → List ℕ → List (List ℕ × List ℕ) → List (List ℕ × List ℕ)
set_property key value [] = (key, value) ∷ []
set_property key value ((k, v) ∷ rest) =
    let others = set_property key value rest in
    if same_text k key then (k, value) ∷ rest else (k, v) ∷ others

-- `CLASS_TO_PLAIN`
written : FilterObject → Option AttributeValue → FilterObject
written filter none = filter
written filter (some a) = record {
  properties = set_property (attr_prefix ++ a.name ++ value_suffix) a.value filter.properties;
  attribute_value = none;
}

unfoldable pub filter_to_plain : FilterObject → FilterObject
unfolding written
filter_to_plain filter = written filter filter.attribute_value

-- The loop over the entries: the first key that matches, with its value, and the other properties.
with_property :
    List ℕ × List ℕ
    → Option (AttributeValue × List (List ℕ × List ℕ))
    → Option (AttributeValue × List (List ℕ × List ℕ))
with_property property none = none
with_property property (some (a, rest)) = some (a, property ∷ rest)

taken :
    Option (List ℕ)
    → List ℕ × List ℕ
    → List (List ℕ × List ℕ)
    → Option (AttributeValue × List (List ℕ × List ℕ))
    → Option (AttributeValue × List (List ℕ × List ℕ))
unfolding with_property
taken none property rest found = with_property property found
taken (some name) (key, value) rest found = some (record { name = name; value = value }, rest)

unfoldable pub take_attribute :
    List (List ℕ × List ℕ) → Option (AttributeValue × List (List ℕ × List ℕ))
unfolding taken
take_attribute [] = none
take_attribute ((key, value) ∷ rest) =
    taken (match_attribute key) (key, value) rest (take_attribute rest)

-- `PLAIN_TO_CLASS`
read_filter : FilterObject → Option (AttributeValue × List (List ℕ × List ℕ)) → FilterObject
read_filter filter none = filter
read_filter filter (some (a, rest)) = record { properties = rest; attribute_value = some a }

unfoldable pub filter_to_class : FilterObject → FilterObject
unfolding read_filter
filter_to_class filter = read_filter filter (take_attribute filter.properties)
