-- ===== src/Tests/Routing.antt =====
-- A mediator with one route and a queue.
use aries_framework_javascri.Prelude.{String, some, [], ◌∷◌, ◌≡◌, ◌⊎◌, none, eq_iff, refl, List}
use aries_framework_javascri.Storage.InMemory.{Dict, lookup}
use aries_framework_javascri.Connections.Record.{ConnectionRecord, complete}
use aries_framework_javascri.Routing.Messages.{KeylistUpdate, add, remove}
use aries_framework_javascri.Routing.Provider.{
  RoutingTable, update_routes, save_route, find_recipient,
}
use aries_framework_javascri.Exec.{ok, err, ◌>>=◌, route_exists}
use aries_framework_javascri.Routing.Ownership.{update_routes-others, find_recipient-save_route}
use aries_framework_javascri.Tests.Connections.{connection}

abbrev alice : ConnectionRecord
alice = connection "c1" complete

abbrev mallory : ConnectionRecord
mallory = connection "c2" complete

abbrev routes : RoutingTable
routes = ("k1", alice) ∷ []

abbrev updates : List KeylistUpdate
updates =
    record { recipient_key = "k2"; action = add }
    ∷ record { recipient_key = "k1"; action = remove }
    ∷ []

differ : ¬ (alice.id ≡ mallory.id)
differ e = cc ((eq_iff "c1" "c2").1 e)

update_routes-others_example : lookup "k1" (update_routes updates mallory routes).1 ≡ some alice
update_routes-others_example = update_routes-others updates "k1" mallory alice routes refl differ

find_recipient-save_route_example :
    ((lookup "k2" routes ≡ none)
      × ((save_route "k2" mallory routes).0 ≡ ok tt)
      × ((find_recipient "k1" (save_route "k2" mallory routes).1).0 ≡ ok alice))
    ⊎ ((owner : ConnectionRecord) × (lookup "k2" routes ≡ some owner)
        × (save_route "k2" mallory routes ≡ (err route_exists, routes)))
unfolding find_recipient ◌>>=◌
find_recipient-save_route_example = find_recipient-save_route "k2" "k1" mallory routes

abbrev queues : Dict (List String)
queues = ("alice_key", "m1" ∷ "m2" ∷ []) ∷ []
