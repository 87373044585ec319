-- ===== src/Webhooks.antt =====
-- src/lib/webhooks.ts and src/lib/webhooksCatalog.ts: the rows of webhook endpoints and of the
-- deliveries of their events.
pub mod Schedule
pub mod Destination
pub mod Networks
pub mod Octets
pub mod Mapped
pub mod Ranges
pub mod Queue
pub mod Leases
pub mod Deliver
pub mod Due
pub mod Pinned
pub mod Posts
pub mod Runs
pub mod Attempts
pub mod Bounded
pub mod RunAttempts
use final_arc.Base.{ℕ, Bool, Option, List, Text, Entries}

pub record WebhookEndpointRecord : Type 0 where
  pub id : Text
  pub merchant : Text
  pub url : Text
  pub enabled : Bool
  pub events : List Text
  pub secret : Text
  pub created_at : Text
  pub updated_at : Text

pub data WebhookDeliveryStatus : Type 0 where
  pending success failed retrying : WebhookDeliveryStatus

pub record WebhookDeliveryRecord : Type 0 where
  pub delivery_id : Text
  pub event_id : Text
  pub event_type : Text
  pub webhook_id : Text
  pub merchant : Text
  pub attempt : ℕ
  pub status : WebhookDeliveryStatus
  pub http_status : Option ℕ
  pub created_at : Text
  pub attempted_at : Option Text
  pub next_retry_at : Option Text
  pub error : Option Text
  pub body : Text
  pub lease_owner : Option Text
  pub lease_expires_at : Option Text

-- An entry that `asEndpoint` or `asDelivery` cannot read is none.
abbrev pub Endpoints : Type 0
Endpoints = Entries (Option WebhookEndpointRecord)

abbrev pub Deliveries : Type 0
Deliveries = Entries (Option WebhookDeliveryRecord)

-- `WebhookStoreSection` of src/lib/payStore.ts.
pub record WebhookStoreSection : Type 0 where
  pub endpoints : Endpoints
  pub deliveries : Deliveries

-- The part of an envelope that its delivery reads.
pub record WebhookEnvelope : Type 0 where
  pub id : Text
  pub event_type : Text
