-- ===== src/Routing/Ownership.antt =====
-- modules/routing/services/ProviderRoutingService.ts: who may change a route.
use aries_framework_javascri.Prelude.{
  String, none, some, List, [], ◌∷◌, ◌==◌, ◌≡◌, ◌⊎◌, inl, inr, arith, eq_iff, if◌then◌else◌,
  Option-cases, Bool-cases,
}
use aries_framework_javascri.Exec.{
  ok, err, ◌>>=◌, route_exists, route_not_found, route_of_other, Keeps, Keeps-bind, Keeps-pure,
}
use aries_framework_javascri.Storage.InMemory.{lookup, lookup-insert, lookup-erase}
use aries_framework_javascri.Connections.Record.{ConnectionRecord}
use aries_framework_javascri.Routing.Messages.{KeylistUpdateAction, add, remove, KeylistUpdate}
use aries_framework_javascri.Routing.Provider.{
  RoutingTable, save_route, remove_route, find_recipient, update_route, update_routes,
}

-- Saving a route for a free key makes the key's recipient the connection and leaves the other keys; a
-- key that is taken is refused, even by its owner, and nothing changes.
pub find_recipient-save_route :
    (key other : String) (c : ConnectionRecord) (table : RoutingTable)
    → ((lookup key table ≡ none)
        × ((save_route key c table).0 ≡ ok tt)
        × ((find_recipient other (save_route key c table).1).0
            ≡ (if key == other then ok c else (find_recipient other table).0)))
      ⊎ ((owner : ConnectionRecord) × (lookup key table ≡ some owner)
          × (save_route key c table ≡ (err route_exists, table)))
unfolding save_route find_recipient ◌>>=◌
find_recipient-save_route key other c table = elim (Option-cases (lookup key table)) [
  | inl absent ↦
      inl (absent, ground (arith, absent), ground (arith, absent, lookup-insert key other c table))
  | inr (owner, e) ↦ inr (owner, e, ground (arith, e))
]

-- Removing the route of a key that has one: for the connection that the key belongs to it succeeds,
-- after which the key has no recipient and the other keys have theirs as before; another connection
-- is refused, and nothing changes.
find_recipient-remove_route :
    (key other : String) (c owner : ConnectionRecord) (table : RoutingTable)
    → lookup key table ≡ some owner
    → ((owner.id ≡ c.id)
        × ((remove_route key c table).0 ≡ ok tt)
        × ((find_recipient other (remove_route key c table).1).0
            ≡ (if key == other then err route_not_found else (find_recipient other table).0)))
      ⊎ ((¬ (owner.id ≡ c.id)) × (remove_route key c table ≡ (err route_of_other, table)))
unfolding remove_route find_recipient ◌>>=◌
find_recipient-remove_route key other c owner table e = elim (Bool-cases (owner.id == c.id)) [
  | inl same ↦ inl (
    (eq_iff owner.id c.id).0 same,
    ground (arith, e, same),
    ground (arith, e, same, lookup-erase key other table),
  )
  | inr differ ↦ inr (λ h. cc ((eq_iff owner.id c.id).1 h, differ), ground (arith, e, differ))
]

update_route-others :
    (action : KeylistUpdateAction) (key other : String) (c owner : ConnectionRecord)
    (table : RoutingTable)
    → lookup other table ≡ some owner
    → ¬ (owner.id ≡ c.id)
    → lookup other (update_route action key c table).1 ≡ some owner
unfolding update_route save_route remove_route ◌>>=◌
update_route-others add key other c owner table e foreign =
    ground (arith, e, foreign, eq_iff key other, lookup-insert key other c table)
update_route-others remove key other c owner table e foreign =
    elim (Option-cases (lookup key table)) [
      | inl absent ↦ rw absent e
      | inr (found, h) ↦ elim (Bool-cases (found.id == c.id)) [
        | inl same ↦ ground (
          arith,
          e,
          h,
          same,
          foreign,
          eq_iff key other,
          eq_iff found.id c.id,
          lookup-erase key other table,
        )
        | inr differ ↦ ground (arith, e, h, differ)
      ]
    ]

HasOwner : String → ConnectionRecord → RoutingTable → Type 0
HasOwner key owner table = lookup key table ≡ some owner

update_routes-HasOwner :
    (updates : List KeylistUpdate) (key : String) (c owner : ConnectionRecord)
    → ¬ (owner.id ≡ c.id)
    → Keeps (HasOwner key owner) (update_routes updates c)
unfolding update_routes HasOwner
update_routes-HasOwner [] key c owner foreign = Keeps-pure tt
update_routes-HasOwner (u ∷ updates) key c owner foreign =
    Keeps-bind (λ _. update_routes-HasOwner updates key c owner foreign)
      (record {
        at = λ table e. update_route-others u.action u.recipient_key key c owner table e foreign;
      })

-- Whatever updates a connection asks for, a key that belongs to another connection keeps its route,
-- also when some update is refused.
pub update_routes-others :
    (updates : List KeylistUpdate) (key : String) (c owner : ConnectionRecord)
    (table : RoutingTable)
    → lookup key table ≡ some owner
    → ¬ (owner.id ≡ c.id)
    → lookup key (update_routes updates c table).1 ≡ some owner
unfolding HasOwner
update_routes-others updates key c owner table e foreign =
    (update_routes-HasOwner updates key c owner foreign).at table e
