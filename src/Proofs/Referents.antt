-- ===== src/Proofs/Referents.antt =====
-- modules/proofs/services/ProofService.ts: what a request made from a proposal asks for.
use aries_framework_javascri.Prelude.{
  ℕ, suc, map, is_empty, ◌⊎◌, truthy, if◌then◌else◌, String, Option, none, some, List, [], ◌∷◌,
  ◌++◌, filter, ◌==◌, ◌≡◌, refl, ap, ◌∙◌, sym, or_else, map_option, arith, eq_iff, Bool-cases, inl,
  inr, append_assoc, append-nil,
}
use aries_framework_javascri.Storage.InMemory.{Dict, lookup, insert, lookup-insert}
use aries_framework_javascri.Proofs.Messages.{PresentationPreview, ProofAttributeInfo}
use aries_framework_javascri.Proofs.Request.{
  RequestOptions, Attribute, with_referents, referent_of, group_from, attribute_info, map_values,
  request_from,
}

-- The attributes that have this referent.
abbrev pub of_referent : String → List Attribute → List Attribute
of_referent referent = filter (λ a. referent_of a == referent)

-- What a group of attributes is, if there is any.
abbrev pub some_group : List Attribute → Option (List Attribute)
some_group [] = none
some_group (a ∷ rest) = some (a ∷ rest)

grown : Option (List Attribute) → List Attribute → Option (List Attribute)
grown none more = some_group more
grown (some old) more = some (old ++ more)

grown-cons :
    (found : Option (List Attribute)) (a : Attribute) (more : List Attribute)
    → grown (some (or_else found [] ++ a ∷ [])) more ≡ grown found (a ∷ more)
unfolding grown
grown-cons none a more = refl
grown-cons (some old) a more = ap some (append_assoc old (a ∷ []) more)

grown-nil : (found : Option (List Attribute)) → grown found [] ≡ found
unfolding grown
grown-nil none = refl
grown-nil (some old) = ap some (append-nil old)

lookup-group_from :
    (referent : String) (groups : Dict (List Attribute)) (attributes : List Attribute)
    → lookup referent (group_from groups attributes)
      ≡ grown (lookup referent groups) (of_referent referent attributes)
unfolding group_from
lookup-group_from referent groups [] = sym (grown-nil (lookup referent groups))
lookup-group_from referent groups (a ∷ attributes) =
    let value = or_else (lookup (referent_of a) groups) [] ++ a ∷ [] in
    let rest = lookup-group_from referent (insert (referent_of a) value groups) attributes in
    let stored = lookup-insert (referent_of a) referent value groups in
    elim (Bool-cases (referent_of a == referent)) [
      | inl same ↦
          let e : referent_of a ≡ referent = (eq_iff _ _).0 same in
          rw (rest, stored, same, e)
            (grown-cons (lookup referent groups) a (of_referent referent attributes))
      | inr differ ↦ rw (rest, stored, differ) refl
    ]

lookup-map_values :
    {A B : Type 0} (f : A → B) (d : Dict A) (k : String)
    → lookup k (map_values f d) ≡ map_option f (lookup k d)
lookup-map_values f [] k = refl
lookup-map_values f ((j, a) ∷ d) k = ground (arith, lookup-map_values f d k)

abbrev pub listed : Option String → List String
listed none = []
listed (some name) = name ∷ []

-- The names that an entry of a request asks for: those of `names`, or `name`.
abbrev pub asked_names : ProofAttributeInfo → List String
asked_names info = or_else info.names (listed info.name)

-- The names of the proposal's attributes with this referent, in their order; the `n`-th attribute
-- has the referent `uuid n` if it brings none or an empty one.
pub proposed_names : (ℕ → String) → String → ℕ → List Attribute → List String
proposed_names uuid referent n [] = []
proposed_names uuid referent n (a ∷ rest) =
    let later = proposed_names uuid referent (suc n) rest in
    if or_else (truthy a.referent) (uuid n) == referent then a.name ∷ later else later

abbrev pub some_names : List String → Option (List String)
some_names [] = none
some_names (name ∷ rest) = some (name ∷ rest)

group_names :
    (group : List Attribute)
    → map_option asked_names (map_option attribute_info (some_group group))
      ≡ some_names (map (λ a. a.name) group)
unfolding attribute_info
group_names [] = refl
group_names (a ∷ []) = refl
group_names (a ∷ b ∷ rest) = refl

truthy_cases :
    (o : Option String) → (truthy o ≡ none) ⊎ ((r : String) × (truthy o ≡ some r) × (o ≡ some r))
truthy_cases none = inl refl
truthy_cases (some r) = elim (Bool-cases (is_empty r)) [
  | inl e ↦ inl (rw e refl)
  | inr e ↦ inr (r, rw e refl, refl)
]

proposed_names-of_referent :
    (uuid : ℕ → String) (referent : String) (n : ℕ) (attributes : List Attribute)
    → map (λ a. a.name) (of_referent referent (with_referents uuid n attributes))
      ≡ proposed_names uuid referent n attributes
unfolding with_referents proposed_names
proposed_names-of_referent uuid referent n [] = refl
proposed_names-of_referent uuid referent n (a ∷ rest) =
    let later = proposed_names-of_referent uuid referent (suc n) rest in
    elim (truthy_cases a.referent) [
      | inl missing ↦ rw missing (elim (Bool-cases (uuid n == referent)) [
        | inl e ↦ rw (e, later) refl
        | inr e ↦ rw (e, later) refl
      ])
      | inr (r, given, same) ↦
          rw (given, same)
            (elim (Bool-cases (r == referent)) [
              | inl e ↦ rw (e, later) refl
              | inr e ↦ rw (e, later) refl
            ])
    ]

lookup-group :
    (uuid predicate_uuid : ℕ → String) (proposal : PresentationPreview) (options : RequestOptions)
    (nonce referent : String)
    → lookup referent (request_from uuid predicate_uuid proposal options nonce).requested_attributes
      ≡ map_option attribute_info
          (some_group (of_referent referent (with_referents uuid 0 proposal.attributes)))
unfolding request_from grown
lookup-group uuid predicate_uuid proposal options nonce referent =
    let attributes = with_referents uuid 0 proposal.attributes in
    lookup-map_values attribute_info (group_from [] attributes) referent
    ∙ ap (map_option attribute_info) (lookup-group_from referent [] attributes)

-- The request asks, for each referent, for exactly the names of the proposal's attributes that have
-- this referent, in their order, and for nothing under any other referent.
pub lookup-request_from :
    (uuid predicate_uuid : ℕ → String) (proposal : PresentationPreview) (options : RequestOptions)
    (nonce referent : String)
    → map_option asked_names (
        lookup referent
          (request_from uuid predicate_uuid proposal options nonce).requested_attributes)
      ≡ some_names (proposed_names uuid referent 0 proposal.attributes)
lookup-request_from uuid predicate_uuid proposal options nonce referent =
    let attributes = with_referents uuid 0 proposal.attributes in
    ap (map_option asked_names) (lookup-group uuid predicate_uuid proposal options nonce referent)
    ∙ group_names (of_referent referent attributes)
    ∙ ap some_names (proposed_names-of_referent uuid referent 0 proposal.attributes)
