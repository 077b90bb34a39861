-- ===== src/Routing/Provider.antt =====
-- modules/routing/services/ProviderRoutingService.ts and the handlers that call it.
use aries_framework_javascri.Prelude.{String, Option, none, some, List, [], ◌∷◌, ◌==◌, truthy}
use aries_framework_javascri.Exec.{
  Exec, pure, throw, lift, or_throw, require, gets, modify, ◌>>=◌, ◌>>◌, route_exists,
  route_not_found, route_of_other, missing_to, no_recipient_keys, connection_not_found,
}
use aries_framework_javascri.Storage.InMemory.{Dict, lookup, insert, erase}
use aries_framework_javascri.Agent.Context.{InboundMessageContext, OutboundMessage}
use aries_framework_javascri.Agent.Helpers.{create_outbound_message}
use aries_framework_javascri.Connections.Record.{ConnectionRecord, their_key}
use aries_framework_javascri.Routing.Messages.{
  KeylistUpdateAction, add, remove, KeylistUpdate, KeylistUpdateMessage, ForwardMessage,
}

-- The routing table, by recipient key.
abbrev pub RoutingTable : Type 0
RoutingTable = Dict ConnectionRecord

abbrev unless_stored : Option ConnectionRecord → Exec RoutingTable Unit
unless_stored none = pure tt
unless_stored (some _) = throw route_exists

unfoldable pub save_route : String → ConnectionRecord → Exec RoutingTable Unit
save_route recipient_key connection = do
  stored ← gets (lookup recipient_key)
  unless_stored stored
  modify (insert recipient_key connection)

unfoldable pub remove_route : String → ConnectionRecord → Exec RoutingTable Unit
remove_route recipient_key connection = do
  found ← gets (lookup recipient_key)
  stored ← or_throw found route_not_found
  require (stored.id == connection.id) route_of_other
  modify (erase recipient_key)

unfoldable pub find_recipient : String → Exec RoutingTable ConnectionRecord
find_recipient recipient_key = do
  found ← gets (lookup recipient_key)
  or_throw found route_not_found

unfoldable pub update_route :
    KeylistUpdateAction → String → ConnectionRecord → Exec RoutingTable Unit
update_route add recipient_key connection = save_route recipient_key connection
update_route remove recipient_key connection = remove_route recipient_key connection

-- The loop of `updateRoutes`: an update that throws ends it, and those before it stay.
unfoldable pub update_routes : List KeylistUpdate → ConnectionRecord → Exec RoutingTable Unit
update_routes [] connection = pure tt
update_routes (u ∷ updates) connection =
    update_route u.action u.recipient_key connection >> update_routes updates connection

unfoldable pub forward :
    {M : Type 0}
    → InboundMessageContext (ForwardMessage M)
    → Exec RoutingTable (OutboundMessage (ForwardMessage M))
forward context = do
  to ← or_throw (truthy context.message.to) missing_to
  connection ← find_recipient to
  or_throw (truthy (their_key connection)) no_recipient_keys
  lift (create_outbound_message connection context.message none)

-- handlers/KeylistUpdateHandler.ts
unfoldable pub handle_keylist_update :
    InboundMessageContext KeylistUpdateMessage → Exec RoutingTable Unit
handle_keylist_update context = do
  connection ← or_throw context.connection connection_not_found
  update_routes context.message.updates connection
