-- ===== src/Tests/Filters.antt =====
-- A filter on the value of one attribute, as JSON and as a class.
use aries_framework_javascri.Prelude.{
  ℕ, ◌≡◌, refl, none, some, List, [], ◌∷◌, codes, strip_prefix, same_text,
}
use aries_framework_javascri.Proofs.Filter.{
  AttributeValue, FilterObject, match_attribute, until_colon, set_property, filter_to_plain,
  filter_to_class,
}
use aries_framework_javascri.Proofs.Filter.RoundTrip.{filter_to_class-filter_to_plain}

abbrev age : AttributeValue
age = record { name = codes "age"; value = codes "18" }

abbrev properties : List (List ℕ × List ℕ)
properties = (codes "schema_id", codes "s1") ∷ []

abbrev filter : FilterObject
filter = record { properties = properties; attribute_value = some age }

as_json : filter_to_plain filter ≡ record {
  properties = (codes "schema_id", codes "s1") ∷ (codes "attr::age::value", codes "18") ∷ [];
  attribute_value = none;
}
unfolding filter_to_plain set_property same_text
as_json = refl

other_group : match_attribute (codes "attr::age::marker") ≡ none
unfolding match_attribute strip_prefix until_colon same_text
other_group = refl

no_name : match_attribute (codes "attr::::value") ≡ none
unfolding match_attribute strip_prefix until_colon same_text
no_name = refl

filter_to_class-filter_to_plain_example : filter_to_class (filter_to_plain filter) ≡ filter
unfolding match_attribute strip_prefix
filter_to_class-filter_to_plain_example =
    filter_to_class-filter_to_plain properties age ((λ e. cc), (refl, (refl, (refl, tt))))
      (refl, tt)
