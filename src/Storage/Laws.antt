-- ===== src/Storage/Laws.antt =====
-- The storage service meets the contract of a repository over a wallet store that behaves as the
-- indy-sdk documents.
use aries_framework_javascri.Prelude.{
  String, none, some, List, [], ◌∷◌, ◌++◌, map, ◌==◌, ◌≡◌, refl, ap, ◌∙◌, sym, subst, inl, inr,
  Bool-cases, Option-cases, eq_iff, filter, arith,
}
use mathlib.Core.Option
use mathlib.Core.List.{map-append}
use aries_framework_javascri.Exec.{Exec, ok, err, wallet_item_not_found}
use aries_framework_javascri.Storage.Contracts.{
  or_not_found, by_id, change, IsRecordStore, IsCodec, Settles, added, KeepsTags, IsRepository,
}
use aries_framework_javascri.Storage.{
  RecordType, WalletQuery, everything, matches, WalletRecord, WalletRecords, Codec, repository,
  to_wallet_record,
}

filter-everything : (ws : List WalletRecord) → filter (λ w. matches everything w.tags) ws ≡ ws
filter-everything [] = refl
filter-everything (w ∷ ws) = ap (λ l. w ∷ l) (filter-everything ws)

still_there :
    (id : String) (f : WalletRecord → WalletRecord) (ws : List WalletRecord) {v : WalletRecord}
    → ((w : WalletRecord) → (f w).id ≡ w.id)
    → by_id (λ w. w.id) id ws ≡ some v
    → by_id (λ w. w.id) id (change (λ w. w.id) id f ws) ≡ some (f v)
still_there id f [] {v} same e = absurd (cc)
still_there id f (w ∷ ws) {v} same e = elim (Bool-cases (w.id == id)) [
  | inl here ↦ ground (arith, same w)
  | inr there ↦ ground (arith, still_there id f ws {v = v} same)
]

module _ {R : Type 0} (c : Codec R) (law : IsCodec c) where
  abbrev decode : List WalletRecord → List R
  decode = map c.from_persistence

  by_id-decode :
      (id : String) (ws : List WalletRecord)
      → by_id c.id_of id (decode ws) ≡ Option.map c.from_persistence (by_id (λ w. w.id) id ws)
  by_id-decode id [] = refl
  by_id-decode id (w ∷ ws) = ground (arith, law.id_kept w, by_id-decode id ws)

  filter-decode :
      (q : WalletQuery) (ws : List WalletRecord)
      → filter (λ r. matches q (c.tags_of r)) (decode ws)
        ≡ decode (filter (λ w. matches q w.tags) ws)
  filter-decode q [] = refl
  filter-decode q (w ∷ ws) = rw (law.tags_kept w) (ground (arith, filter-decode q ws))

  -- Writing the value and then the tags of a record replaces the record.
  change_both :
      (r : R) (ws : List WalletRecord) {v : WalletRecord}
      → by_id (λ w. w.id) (c.id_of r) ws ≡ some v
      → KeepsTags v.tags (c.tags_of r)
      → decode (
          change
            (λ w. w.id)
            (c.id_of r)
            (λ w. record w { tags = added w.tags (c.tags_of r) })
            (change (λ w. w.id) (c.id_of r) (λ w. record w { value = c.get_value r }) ws))
        ≡ change c.id_of (c.id_of r) (λ _. r) (decode ws)
  change_both r [] found keeps = absurd (cc)
  change_both r (w ∷ ws) {v} found keeps = elim (Bool-cases (w.id == c.id_of r)) [
    | inl same ↦
        let e : w.id ≡ c.id_of r = (eq_iff w.id (c.id_of r)).0 same in
        let first : w ≡ v = ground arith in
        let kept : added w.tags (c.tags_of r) ≡ c.tags_of r =
          subst (λ x. KeepsTags x.tags (c.tags_of r)) (sym first) keeps in
        ground (arith, law.id_kept w, law.round_trip r, kept, e)
    | inr other ↦ ground (arith, law.id_kept w, change_both r ws {v = v})
  ]

-- The repository over the storage service meets the contract: its records are the decoded items.
module _ {W R : Type 0} (wallet : WalletRecords W) (items : RecordType → W → List WalletRecord)
    (store : IsRecordStore wallet items) (c : Codec R) (law : IsCodec c)
    (start : Exec W Unit → Exec W Unit) (settles : Settles start) where
  abbrev pub stored : W → List R
  stored s = map c.from_persistence (items c.type s)

  present :
      (r : R) (s : W) {old : R}
      → by_id c.id_of (c.id_of r) (stored s) ≡ some old
      → (v : WalletRecord) × (by_id (λ w. w.id) (c.id_of r) (items c.type s) ≡ some v)
        × (c.from_persistence v ≡ old)
  present r s {old} e =
      let decoded = by_id-decode c law (c.id_of r) (items c.type s) in
      elim (Option-cases (by_id (λ w. w.id) (c.id_of r) (items c.type s))) [
        | inl gone ↦ absurd (grind (arith, decoded))
        | inr (v, found) ↦ (v, found, grind (arith, decoded))
      ]

  absent :
      (r : R) (s : W)
      → by_id c.id_of (c.id_of r) (stored s) ≡ none
      → by_id (λ w. w.id) (c.id_of r) (items c.type s) ≡ none
  absent r s e = ground (arith, by_id-decode c law (c.id_of r) (items c.type s))

  save_new_lem :
      (r : R) (s : W)
      → by_id c.id_of (c.id_of r) (stored s) ≡ none
      → let (out, s') = (repository start wallet c).save r s in
        (out ≡ ok tt) × (stored s' ≡ stored s ++ r ∷ [])
  unfolding repository
  save_new_lem r s e =
      let fresh = absent r s e in
      let write = wallet.add_wallet_record c.type (to_wallet_record c r) in
      (
        ap (λ p. p.0) (settles write s),
        ap (λ p. stored p.1) (settles write s)
            ∙ ap (map c.from_persistence) (store.add_new c.type (to_wallet_record c r) s fresh)
            ∙ map-append c.from_persistence (items c.type s) (to_wallet_record c r ∷ [])
            ∙ ap (λ t. stored s ++ t ∷ []) (law.round_trip r),
      )

  save_old_lem :
      (r : R) (s : W) {old : R}
      → by_id c.id_of (c.id_of r) (stored s) ≡ some old
      → (repository start wallet c).save r s ≡ (ok tt, s)
  unfolding repository
  save_old_lem r s e =
      let (v, e', _) = present r s e in
      settles (wallet.add_wallet_record c.type (to_wallet_record c r)) s
      ∙ rw (store.add_old c.type (to_wallet_record c r) s e') refl

  update_found_lem :
      (r : R) (s : W) {old : R}
      → by_id c.id_of (c.id_of r) (stored s) ≡ some old
      → let (out, s') = (repository start wallet c).update r s in
        (out ≡ ok tt)
        × (KeepsTags (c.tags_of old) (c.tags_of r)
            → stored s' ≡ change c.id_of (c.id_of r) (λ _. r) (stored s))
  unfolding repository
  update_found_lem r s {old} e =
      let (v, e', same) = present r s e in
      let tags : c.tags_of old ≡ v.tags = ap c.tags_of (sym same) ∙ law.tags_kept v in
      let value_set = store.set_value c.type (c.id_of r) (c.get_value r) s e' in
      let s' = (wallet.update_wallet_record_value c.type (c.id_of r) (c.get_value r) s).1 in
      let there =
        still_there (c.id_of r) (λ w. record w { value = c.get_value r }) (items c.type s)
          (λ w. refl) e' in
      let tags_set =
        store.set_tags c.type (c.id_of r) (c.tags_of r) s'
          (ap (by_id (λ w. w.id) (c.id_of r)) value_set.1 ∙ there) in
      (
        ground arith,
        λ keeps.
            let both =
              change_both c law r (items c.type s) e'
                (subst (λ t. KeepsTags t (c.tags_of r)) tags keeps) in
            ground (arith, both),
      )

  update_missing_lem :
      (r : R) (s : W)
      → by_id c.id_of (c.id_of r) (stored s) ≡ none
      → (repository start wallet c).update r s ≡ (err wallet_item_not_found, s)
  unfolding repository
  update_missing_lem r s e =
      rw (store.set_value_missing c.type (c.id_of r) (c.get_value r) s (absent r s e))

  find_agrees :
      (id : String) (s : W)
      → (repository start wallet c).find id s ≡ (or_not_found (by_id c.id_of id (stored s)), s)
  unfolding repository
  find_agrees id s =
      rw (store.get_lem c.type id s, by_id-decode c law id (items c.type s)) (ground arith)

  query_agrees :
      (q : WalletQuery) (s : W)
      → (repository start wallet c).find_by_query q s
        ≡ (ok (filter (λ r. matches q (c.tags_of r)) (stored s)), s)
  unfolding repository
  query_agrees q s = rw (store.search_lem c.type q s, filter-decode c law q (items c.type s))

  find_all_agrees : (s : W) → (repository start wallet c).find_all s ≡ (ok (stored s), s)
  unfolding repository
  find_all_agrees s = rw (store.search_lem c.type everything s, filter-everything (items c.type s))

  -- Over a wallet store that behaves as documented, adding tags included, where a started write has
  -- ended before the next call of the wallet, and for a class of records that JSON gives back as
  -- written: the repository meets its contract; the records of the contract are the decoded items of
  -- the wallet.
  pub repository-IsRepository : IsRepository (repository start wallet c) c.id_of c.tags_of stored
  repository-IsRepository = record {
    find_lem = find_agrees;
    find_by_query_lem = query_agrees;
    find_all_lem = find_all_agrees;
    save_new = save_new_lem;
    save_old = save_old_lem;
    update_found = update_found_lem;
    update_missing = update_missing_lem;
  }
