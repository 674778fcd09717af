-- ===== src/Meta/Payload.antt =====
-- The payload of a webhook and the events that it is normalized to, of
-- src/piki/integrations/meta/webhook.py.
use buenpick_piki.Base.{String, Option, List}
use buenpick_piki.Base.Decimal.{ℤ}
use buenpick_piki.Domain.Messages.{InboundMessage}
use buenpick_piki.Meta.Status.{MetaStatusUpdate}

pub record MetaMetadata : Type 0 where
  pub display_phone_number : String
  pub phone_number_id : String

pub record MetaImage : Type 0 where
  pub id : String
  pub mime_type : Option String
  pub sha256 : Option String
  pub caption : Option String

pub record MetaReply : Type 0 where
  pub id : String
  pub title : String
  pub description : Option String

pub record MetaInteractive : Type 0 where
  pub kind : String
  pub button_reply : Option MetaReply
  pub list_reply : Option MetaReply

pub record MetaMessage : Type 0 where
  pub id : String
  pub from_ : String
  pub timestamp : String
  pub kind : String
  pub text : Option String
  pub image : Option MetaImage
  pub interactive : Option MetaInteractive

-- `details` is that of `error_data`, where there is one
pub record MetaStatusError : Type 0 where
  pub code : ℤ
  pub title : Option String
  pub message : Option String
  pub details : Option String

pub data MetaDelivery : Type 0 where
  sent delivered read failed : MetaDelivery

pub record MetaStatus : Type 0 where
  pub id : String
  pub status : MetaDelivery
  pub timestamp : String
  pub recipient_id : String
  pub errors : List MetaStatusError

pub record MetaValue : Type 0 where
  pub metadata : MetaMetadata
  pub messages : List MetaMessage
  pub statuses : List MetaStatus

pub record MetaEntry : Type 0 where
  pub id : String
  pub changes : List MetaValue

pub record MetaWebhookEvents : Type 0 where
  pub messages : List InboundMessage
  pub statuses : List MetaStatusUpdate
