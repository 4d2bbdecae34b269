-- ===== src/Models.antt =====
-- models.go: the event as it is received, stored and delivered. A payload is a decoded JSON object
-- (`map[string]any`), or the nil map; numbers keep their text.
use go_webhook_processor.Prelude.{String, Bool, Option, none, some, ◌==◌, if◌then◌else◌}

mutual
  pub data Value : Type 0 where
    null : Value
    bool : Bool → Value
    number : String → Value
    text : String → Value
    array : Items → Value
    object : Fields → Value

  pub data Items : Type 0 where
    nil : Items
    cons : Value → Items → Items

  pub data Fields : Type 0 where
    end : Fields
    field : String → Value → Fields → Fields

pub data Payload : Type 0 where
  nil_map : Payload
  map_of : Fields → Payload

pub record Event : Type 0 where
  pub id : String
  pub type : String
  pub request_id : String
  pub payload : Payload

-- `value, exists := fields[name]`.
unfoldable pub lookup : String → Fields → Option Value
lookup name end = none
lookup name (field k v fields) = if k == name then some v else lookup name fields
