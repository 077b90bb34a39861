-- ===== src/Identifiers.antt =====
-- src/utils/did.ts: the regular expressions for verkeys and dids.
use aries_framework_javascri.Prelude.{
  ℕ, ◌≤◌, ◌≡◌, ◌⊎◌, inl, inr, Bool, true, false, ◌&&◌, ◌||◌, Option, none, some, List, [], ◌∷◌,
  every, length, leb, codes, strip_prefix, in_range, is_lower, is_alphanumeric, same_number, arith,
  Bool-cases, if◌then◌else◌,
}

-- `[1-9A-HJ-NP-Za-km-z]`
unfoldable pub is_base58 : ℕ → Bool
is_base58 c =
    in_range b'1' b'9' c
    || in_range b'A' b'H' c
    || in_range b'J' b'N' c
    || in_range b'P' b'Z' c
    || in_range b'a' b'k' c
    || in_range b'm' b'z' c

-- `^…{low,high}$`
run_between : ℕ → ℕ → List ℕ → Bool
run_between low high text = every is_base58 text && in_range low high (length text)

unfoldable pub is_full_verkey : List ℕ → Bool
unfolding run_between
is_full_verkey verkey = run_between 43 44 verkey

abbreviated : Option (List ℕ) → Bool
unfolding run_between
abbreviated none = false
abbreviated (some text) = run_between 21 22 text

unfoldable pub is_abbreviated_verkey : List ℕ → Bool
unfolding abbreviated
is_abbreviated_verkey verkey = abbreviated (strip_prefix (b'~' ∷ []) verkey)

-- The two expressions, joined by `|`.
unfoldable pub is_verkey : List ℕ → Bool
is_verkey verkey = is_full_verkey verkey || is_abbreviated_verkey verkey

-- `([a-zA-Z\d]+)`, with anything behind it.
starts_alphanumeric : List ℕ → Bool
starts_alphanumeric [] = false
starts_alphanumeric (c ∷ _) = is_alphanumeric c

-- `([a-z]+):`, where `seen` says that there was a letter, and what follows.
method_then : Bool → List ℕ → Bool
unfolding starts_alphanumeric
method_then seen [] = false
method_then seen (c ∷ text) =
    let rest = method_then true text in
    if is_lower c
    then rest
    else if same_number c b':'
    then seen && starts_alphanumeric text
    else false

did_after : Option (List ℕ) → Bool
unfolding method_then
did_after none = false
did_after (some text) = method_then false text

-- The expression has no end: what follows the first character of the identifier is not looked at.
unfoldable pub is_did : List ℕ → Bool
unfolding did_after
is_did did = did_after (strip_prefix (codes "did:") did)

-- `^[a-zA-Z\d-]+$`
unfoldable pub is_did_identifier : List ℕ → Bool
is_did_identifier identifier =
    leb 1 (length identifier) && every (λ c. is_alphanumeric c || same_number c b'-') identifier

run_between-length :
    (low high : ℕ) (text : List ℕ)
    → run_between low high text ≡ true
    → (low ≤ length text) × (length text ≤ high)
unfolding run_between
run_between-length low high text e = elim (Bool-cases (every is_base58 text)) [
  | inl all ↦ ground arith
  | inr some_other ↦ absurd (ground arith)
]

abbreviated-length :
    (verkey : List ℕ)
    → is_abbreviated_verkey verkey ≡ true
    → (22 ≤ length verkey) × (length verkey ≤ 23)
unfolding is_abbreviated_verkey abbreviated strip_prefix
abbreviated-length [] e = absurd (cc)
abbreviated-length (c ∷ rest) e = elim (Bool-cases (same_number c b'~')) [
  | inl tilde ↦
      let kept : run_between 21 22 rest ≡ true = rw tilde at e in
      let (low, high) = run_between-length 21 22 rest kept in (omega arith, omega arith)
  | inr other ↦ absurd (let refused : false ≡ true = rw other at e in cc)
]

-- A verkey has 43 or 44 characters, or it has 22 or 23.
is_verkey-length :
    (verkey : List ℕ)
    → is_verkey verkey ≡ true
    → ((43 ≤ length verkey) × (length verkey ≤ 44)) ⊎ ((22 ≤ length verkey) × (length verkey ≤ 23))
unfolding is_verkey is_full_verkey
is_verkey-length verkey e = elim (Bool-cases (is_full_verkey verkey)) [
  | inl full ↦ inl (run_between-length 43 44 verkey full)
  | inr not_full ↦ inr (abbreviated-length verkey (rw not_full at e))
]
