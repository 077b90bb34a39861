-- ===== src/Connections/Messages.antt =====
-- modules/connections/messages and models/Connection.ts: the messages of the connection protocol.
use aries_framework_javascri.Prelude.{String, Option, Bool}
use aries_framework_javascri.Message.{AgentMessage}
use aries_framework_javascri.Connections.Did.{DidDoc}

-- models/Connection.ts
pub record Connection : Type 0 where
  pub did : String
  pub did_doc : Option DidDoc

-- The source checks a request's `connection` for being absent.
pub record ConnectionRequestMessage : Type 0 where
  pub base : AgentMessage
  pub label : String
  pub connection : Option Connection

-- decorators/signature/SignatureDecorator.ts
pub record SignatureDecorator : Type 0 where
  pub signature_type : String
  pub signature_data : String
  pub signer : String
  pub signature : String

pub record ConnectionResponseMessage : Type 0 where
  pub base : AgentMessage
  pub connection_sig : SignatureDecorator

pub record TrustPingMessage : Type 0 where
  pub base : AgentMessage
  pub response_requested : Bool

pub record TrustPingResponseMessage : Type 0 where
  pub base : AgentMessage

-- modules/common/messages/AckMessage.ts
pub data AckStatus : Type 0 where
  ok_status fail pending : AckStatus

pub record AckMessage : Type 0 where
  pub base : AgentMessage
  pub status : AckStatus
