-- ===== src/Storage/InMemory.antt =====
-- storage/InMemoryMessageRepository.ts: the messages waiting for each key.
use aries_framework_javascri.Prelude.{
  String, Option, none, some, List, [], ◌∷◌, ◌++◌, ◌==◌, ◌≡◌, refl, eq_iff, if◌then◌else◌, or_else,
  arith,
}

-- An object used as a dictionary: a key set again keeps its place.
abbrev pub Dict : Type 0 → Type 0
Dict V = List (String × V)

module _ {V : Type 0} where
  -- `d[k]`
  abbrev pub lookup : String → Dict V → Option V
  lookup k [] = none
  lookup k ((j, v) ∷ d) = if j == k then some v else lookup k d

  -- `d[k] = v`
  abbrev pub insert : String → V → Dict V → Dict V
  insert k v [] = (k, v) ∷ []
  insert k v ((j, w) ∷ d) = if j == k then (j, v) ∷ d else (j, w) ∷ insert k v d

  -- `delete d[k]`
  abbrev pub erase : String → Dict V → Dict V
  erase k [] = []
  erase k ((j, v) ∷ d) = let rest = erase k d in if j == k then rest else (j, v) ∷ rest

  pub lookup-insert :
      (k j : String) (v : V) (d : Dict V)
      → lookup j (insert k v d) ≡ (if k == j then some v else lookup j d)
  lookup-insert k j v [] = refl
  lookup-insert k j v ((i, w) ∷ d) =
      ground (arith, eq_iff k j, eq_iff i k, eq_iff i j, lookup-insert k j v d)

  pub lookup-erase :
      (k j : String) (d : Dict V) → lookup j (erase k d) ≡ (if k == j then none else lookup j d)
  lookup-erase k j [] = ground arith
  lookup-erase k j ((i, w) ∷ d) =
      ground (arith, eq_iff k j, eq_iff i k, eq_iff i j, lookup-erase k j d)

module _ {M : Type 0} where
  pub find_by_verkey : String → Dict (List M) → List M
  find_by_verkey their_key messages = or_else (lookup their_key messages) []

  pub delete_all_by_verkey : String → Dict (List M) → Dict (List M)
  delete_all_by_verkey their_key messages = insert their_key [] messages

  -- A key with no list gets an empty one first.
  pub save_message : String → M → Dict (List M) → Dict (List M)
  save_message their_key payload messages =
      insert their_key (or_else (lookup their_key messages) [] ++ payload ∷ []) messages

  -- Saving a message appends it to the queue of its key, and changes the queue of no other key.
  pub find_by_verkey-save_message :
      (key other : String) (payload : M) (messages : Dict (List M))
      → find_by_verkey other (save_message key payload messages) ≡ (
          if key == other
          then find_by_verkey key messages ++ payload ∷ []
          else find_by_verkey other messages)
  unfolding find_by_verkey save_message
  find_by_verkey-save_message key other payload messages =
      ground
        (arith, lookup-insert key other (or_else (lookup key messages) [] ++ payload ∷ []) messages)

  pub find_by_verkey-delete_all :
      (key other : String) (messages : Dict (List M))
      → find_by_verkey other (delete_all_by_verkey key messages)
        ≡ (if key == other then [] else find_by_verkey other messages)
  unfolding find_by_verkey delete_all_by_verkey
  find_by_verkey-delete_all key other messages = ground (arith, lookup-insert key other [] messages)
