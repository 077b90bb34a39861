-- ===== src/Storage/Updates.antt =====
-- What a repository finds after a change, from its contract.
use aries_framework_javascri.Prelude.{String, none, some, List, [], ◌∷◌, ◌++◌, ◌≡◌, eq_iff, arith}
use aries_framework_javascri.Exec.{ok}
use aries_framework_javascri.Storage.{Tags, Repository}
use aries_framework_javascri.Storage.Contracts.{IsRepository, KeepsTags, by_id, change}

module _ {R : Type 0} (id_of : R → String) where
  pub by_id-eq : (id : String) (l : List R) {r : R} → by_id id_of id l ≡ some r → id_of r ≡ id
  by_id-eq id [] e = cc
  by_id-eq id (a ∷ l) {r} e = ground (arith, eq_iff (id_of a) id, by_id-eq id l {r = r})

  by_id-change :
      (r : R) (l : List R) {old : R}
      → by_id id_of (id_of r) l ≡ some old
      → by_id id_of (id_of r) (change id_of (id_of r) (λ _. r) l) ≡ some r
  by_id-change r [] e = cc
  by_id-change r (a ∷ l) {old} e =
      ground (arith, eq_iff (id_of r) (id_of r), by_id-change r l {old = old})

  by_id-append :
      (r : R) (l : List R)
      → by_id id_of (id_of r) l ≡ none
      → by_id id_of (id_of r) (l ++ r ∷ []) ≡ some r
  by_id-append r [] e = ground (arith, eq_iff (id_of r) (id_of r))
  by_id-append r (a ∷ l) e = ground (arith, by_id-append r l)

module _ {R W : Type 0} (repo : Repository R W) (id_of : R → String) (tags_of : R → Tags)
    (records : W → List R) (law : IsRepository repo id_of tags_of records) where
  -- A record that was found and then changed, with its id kept, is found as changed.
  pub find-update :
      (r : R) (s : W) {old : R}
      → by_id id_of (id_of r) (records s) ≡ some old
      → KeepsTags (tags_of old) (tags_of r)
      → let (out, s') = repo.update r s in (out ≡ ok tt) × (repo.find (id_of r) s' ≡ (ok r, s'))
  find-update r s e keeps =
      let (done, now) = law.update_found r s e in
      (
        done,
        rw (
          law.find_lem (id_of r) (repo.update r s).1,
          now keeps,
          by_id-change id_of r (records s) e,
        ),
      )

  pub find-save :
      (r : R) (s : W)
      → by_id id_of (id_of r) (records s) ≡ none
      → let (out, s') = repo.save r s in (out ≡ ok tt) × (repo.find (id_of r) s' ≡ (ok r, s'))
  find-save r s e =
      let (done, now) = law.save_new r s e in
      (done, rw (law.find_lem (id_of r) (repo.save r s).1, now, by_id-append id_of r (records s) e))

  -- What `find` returns is in the table, under the id that was asked for.
  pub find-by_id :
      (id : String) (s : W) {r : R} {s' : W}
      → repo.find id s ≡ (ok r, s')
      → (s' ≡ s) × (id_of r ≡ id) × (by_id id_of (id_of r) (records s) ≡ some r)
  find-by_id id s {r} {s'} e =
      let found : by_id id_of id (records s) ≡ some r = ground (arith, law.find_lem id s) in
      let same_id = by_id-eq id_of id (records s) found in
      (ground (arith, law.find_lem id s), same_id, rw same_id found)
