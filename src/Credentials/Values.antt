-- ===== src/Credentials/Values.antt =====
-- modules/credentials/CredentialUtils.ts: the numbers that stand for attribute values. Reading a text
-- as a number (`Number(value)`) and writing one (`toString`) are JavaScript's, sha256 and the decimal
-- of its digest are js-sha256's and bn.js's: the parameter `ValueEncoder`.
use aries_framework_javascri.Prelude.{
  ℕ, String, Bool, true, false, Option, none, some, List, [], ◌∷◌, is_empty, or_else, not, ◌&&◌,
  ◌==◌, if◌then◌else◌,
}
use aries_framework_javascri.Storage.InMemory.{Dict, lookup, erase}
use aries_framework_javascri.Credentials.Messages.{CredentialPreviewAttribute, CredentialPreview}
use Prim.Native.Nat.{compare, Ordering}

-- `negsuc n` is -(n + 1).
pub data ℤ : Type 0 where
  pos : ℕ → ℤ
  negsuc : ℕ → ℤ

-- A value of any type, as `encode` tells them apart. `fractional` is a number that is no integer, by
-- its text.
pub data Value : Type 0 where
  boolean : Bool → Value
  integer : ℤ → Value
  fractional : String → Value
  text : String → Value
  null : Value

pub record ValueEncoder : Type 0 where
  -- `Number(s)`, if that is an integer.
  pub to_integer : String → Option ℤ
  pub show : ℤ → String
  pub digest : String → String

abbrev leb : ℕ → ℕ → Bool
leb a b = elim (compare a b) [ Ordering.gt ↦ false | _ ↦ true ]

-- -2147483648 ≤ z ≤ 2147483647
pub is_int32 : ℤ → Bool
is_int32 (pos n) = leb n 2147483647
is_int32 (negsuc n) = leb n 2147483647

abbrev is_int32_option : Option ℤ → Bool
is_int32_option none = false
is_int32_option (some z) = is_int32 z

unfoldable pub encode : ValueEncoder → Value → String
unfolding is_int32
encode e (boolean true) = "1"
encode e (boolean false) = "0"
encode e (integer z) = if is_int32 z then e.show z else e.digest (e.show z)
encode e (fractional s) = e.digest s
encode e (text s) = if not (is_empty s) && is_int32_option (e.to_integer s) then s else e.digest s
encode e null = e.digest "None"

unfoldable pub check_valid_encoding : ValueEncoder → Value → String → Bool
check_valid_encoding e raw encoded = encoded == encode e raw

pub record CredValue : Type 0 where
  pub raw : String
  pub encoded : String

-- `{ [name]: value, ...values }`: a name that `values` has keeps the value it has there.
abbrev pub spread_under : String → CredValue → Dict CredValue → Dict CredValue
spread_under name value values = (name, or_else (lookup name values) value) ∷ erase name values

unfoldable pub add_attribute :
    ValueEncoder → Dict CredValue → CredentialPreviewAttribute → Dict CredValue
add_attribute e values a =
    spread_under a.name (record { raw = a.value; encoded = encode e (text a.value) }) values

-- The `reduce` over the attributes.
unfoldable pub add_attributes :
    ValueEncoder → Dict CredValue → List CredentialPreviewAttribute → Dict CredValue
unfolding add_attribute
add_attributes e values [] = values
add_attributes e values (a ∷ attributes) = add_attributes e (add_attribute e values a) attributes

unfoldable pub convert_preview_to_values : ValueEncoder → CredentialPreview → Dict CredValue
unfolding add_attributes
convert_preview_to_values e preview = add_attributes e [] preview.attributes
