-- ===== src/Agent/Config.antt =====
-- agent/AgentConfig.ts. A port that is a number stands as its decimal text.
use Prim.Native.String.{◌++◌ as append}
use aries_framework_javascri.Prelude.{
  String, Option, none, some, List, [], ◌∷◌, Bool, false, or_else, truthy,
}
use aries_framework_javascri.Exec.{Result, ok, err, type_error}
use aries_framework_javascri.Connections.Did.{DidDoc, Service, endpoint_of}
use aries_framework_javascri.Connections.Record.{ConnectionRecord}

-- types.ts
pub record InboundConnection : Type 0 where
  pub verkey : String
  pub connection : ConnectionRecord

-- The parts of `InitConfig` and `AgentConfig` that the services read.
pub record AgentConfig : Type 0 where
  pub label : String
  pub host : Option String
  pub port : Option String
  pub endpoint : Option String
  pub auto_accept : Option Bool
  pub inbound_connection : Option InboundConnection

pub auto_accept_connections : AgentConfig → Bool
auto_accept_connections config = or_else config.auto_accept false

unfoldable pub establish_inbound : InboundConnection → AgentConfig → AgentConfig
establish_inbound inbound config = record config { inbound_connection = some inbound }

-- `doc?.service[0].serviceEndpoint`: the endpoint of no service is read of `undefined`.
first_endpoint : List Service → Result (Option String)
first_endpoint [] = err type_error
first_endpoint (s ∷ _) = ok (some (endpoint_of s))

doc_endpoint : Option DidDoc → Result (Option String)
unfolding first_endpoint
doc_endpoint none = ok none
doc_endpoint (some doc) = first_endpoint doc.service

mediator_endpoint : Option InboundConnection → Result (Option String)
unfolding doc_endpoint
mediator_endpoint none = ok none
mediator_endpoint (some inbound) = doc_endpoint inbound.connection.their_did_doc

with_port : String → Option String → String
with_port host none = host
with_port host (some port) = append (append host ":") port

host_endpoint : Option String → Option String → String
unfolding with_port
host_endpoint none port = "didcomm:transport/queue"
host_endpoint (some host) port = append (with_port host port) "/msg"

own_endpoint : Option String → Option String → Option String → String
unfolding host_endpoint
own_endpoint none host port = host_endpoint host port
own_endpoint (some endpoint) host port = append endpoint "/msg"

prefer_mediator : Result (Option String) → String → Result String
prefer_mediator (err e) own = err e
prefer_mediator (ok (some endpoint)) own = ok endpoint
prefer_mediator (ok none) own = ok own

only_true : Result (Option String) → Result (Option String)
only_true (err e) = err e
only_true (ok endpoint) = ok (truthy endpoint)

unfoldable pub get_endpoint : AgentConfig → Result String
unfolding mediator_endpoint own_endpoint prefer_mediator only_true
get_endpoint config =
    prefer_mediator (only_true (mediator_endpoint config.inbound_connection))
      (own_endpoint (truthy config.endpoint) (truthy config.host) (truthy config.port))

key_list : Option String → List String
key_list none = []
key_list (some key) = key ∷ []

inbound_key : Option InboundConnection → Option String
inbound_key none = none
inbound_key (some inbound) = truthy (some inbound.verkey)

unfoldable pub get_routing_keys : AgentConfig → List String
unfolding key_list inbound_key
get_routing_keys config = key_list (inbound_key config.inbound_connection)
