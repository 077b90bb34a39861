-- ===== src/Routing/Messages.antt =====
-- modules/routing/messages. `M` is the type of packed messages (`WireMessage`), which are opaque here.
use aries_framework_javascri.Prelude.{ℕ, String, Option, List}
use aries_framework_javascri.Message.{AgentMessage}

pub data KeylistUpdateAction : Type 0 where
  add remove : KeylistUpdateAction

pub record KeylistUpdate : Type 0 where
  pub recipient_key : String
  pub action : KeylistUpdateAction

pub record KeylistUpdateMessage : Type 0 where
  pub base : AgentMessage
  pub updates : List KeylistUpdate

-- A received message may lack `to`.
pub record ForwardMessage (M : Type 0) : Type 0 where
  pub base : AgentMessage
  pub to : Option String
  pub message : M

pub record BatchPickupMessage : Type 0 where
  pub base : AgentMessage
  pub batch_size : ℕ

pub record BatchMessageMessage (M : Type 0) : Type 0 where
  pub id : String
  pub message : M

pub record BatchMessage (M : Type 0) : Type 0 where
  pub base : AgentMessage
  pub messages : List (BatchMessageMessage M)
