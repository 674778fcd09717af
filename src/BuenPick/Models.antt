-- ===== src/BuenPick/Models.antt =====
-- The answers of the API, src/piki/integrations/buenpick/models.py. An amount is in cents; a field
-- whose type is a literal of one value is left out.
use buenpick_piki.Base.{ℕ, String, Bool, Option, List}
use buenpick_piki.Domain.Messages.{Datetime}
use buenpick_piki.Domain.Tools.{ToolErrorCode}

-- a JSON value: the type `Any` of opening hours
mutual
  pub data Json : Type 0 where
    null : Json
    boolean : Bool → Json
    number : ℕ → Json
    words : String → Json
    array : JsonItems → Json
    object : JsonFields → Json

  pub data JsonItems : Type 0 where
    no_items : JsonItems
    item : Json → JsonItems → JsonItems

  pub data JsonFields : Type 0 where
    no_fields : JsonFields
    field : String → Json → JsonFields → JsonFields

pub record CommerceSummary : Type 0 where
  pub id : String
  pub name : String

pub record PickSummary : Type 0 where
  pub id : String
  pub title : String
  pub description : String
  pub price : ℕ
  pub original_price : ℕ
  pub available_quantity : ℕ
  pub image_url : Option String
  pub commerce : CommerceSummary

pub record PickSearchResponse : Type 0 where
  pub items : List PickSummary
  pub total : ℕ

pub record PickupWindow : Type 0 where
  pub starts_at : Datetime
  pub ends_at : Datetime

pub record Fulfillment : Type 0 where
  pub pickup : Bool
  pub delivery_enabled : Bool
  pub delivery_eta_min_minutes : Option ℕ
  pub delivery_eta_max_minutes : Option ℕ

pub record PickConditions : Type 0 where
  pub quantity_available : ℕ
  pub approx_weight_grams : Option ℕ
  pub fulfillment : Fulfillment

pub record PickCommerce : Type 0 where
  pub id : String
  pub name : String
  pub description : String
  pub address : String
  pub city : String
  pub zone : String
  pub opening_hours : Json

pub record AvailablePick : Type 0 where
  pub id : String
  pub title : String
  pub description : String
  pub price : ℕ
  pub original_price : ℕ
  pub available_quantity : ℕ
  pub image_url : Option String
  pub images : List String
  pub category : String
  pub pickup : PickupWindow
  pub conditions : PickConditions
  pub commerce : PickCommerce
  pub public_url : String

pub record CommerceDelivery : Type 0 where
  pub enabled : Bool
  pub fee_cents : Option ℕ
  pub eta_min_minutes : Option ℕ
  pub eta_max_minutes : Option ℕ

pub record Commerce : Type 0 where
  pub id : String
  pub name : String
  pub slug : String
  pub description : String
  pub address : String
  pub city : String
  pub zone : String
  pub phone : String
  pub opening_hours : Json
  pub pickup_instructions : Option String
  pub delivery : CommerceDelivery
  pub accepts_cash_on_pickup : Bool
  pub logo_url : Option String
  pub cover_url : Option String

pub record OrderCommerce : Type 0 where
  pub id : String
  pub name : String
  pub address : String
  pub opening_hours : Json

pub record OrderPick : Type 0 where
  pub pick_id : String
  pub title : String
  pub quantity : ℕ
  pub unit_price : ℕ
  pub line_total : ℕ
  pub image_url : Option String

pub data FulfillmentType : Type 0 where
  pickup delivery : FulfillmentType

pub record OrderFulfillment : Type 0 where
  pub kind : FulfillmentType
  pub delivery_address : Option String
  pub delivery_notes : Option String
  pub pickup_code : Option String

pub record OrderPickup : Type 0 where
  pub instructions : Option String
  pub store_address : String

pub record OrderDates : Type 0 where
  pub created_at : Datetime
  pub expires_at : Option Datetime
  pub confirmed_at : Option Datetime
  pub paid_at : Option Datetime
  pub preparing_at : Option Datetime
  pub ready_at : Option Datetime
  pub out_for_delivery_at : Option Datetime
  pub delivered_at : Option Datetime
  pub picked_up_at : Option Datetime

pub record CustomerOrder : Type 0 where
  pub id : String
  pub status : String
  pub commerce : OrderCommerce
  pub picks : List OrderPick
  pub total : ℕ
  pub fulfillment : OrderFulfillment
  pub pickup : OrderPickup
  pub dates : OrderDates

-- `BuenPickClientError` of src/piki/integrations/buenpick/client.py
pub record ClientError : Type 0 where
  pub code : ToolErrorCode
  pub user_safe_message : String
  pub status_code : Option ℕ

-- what a call of the client returns or raises
pub data Answer (A : Type 0) : Type 0 where
  returns : A → Answer A
  raises : ClientError → Answer A
