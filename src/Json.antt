-- ===== src/Json.antt =====
-- JSON values as Go's encoding/json decodes them into `any` with UseNumber, raw messages by what
-- the decoder makes of them, and how a raw message fills a struct (json.Unmarshal).
pub mod Unmarshal
pub mod Bodies
use lamdis.Prelude.{String, Bool}

mutual
  pub data Value : Type 0 where
    null : Value
    bool : Bool → Value
    -- the literal as written (json.Number)
    num : String → Value
    str : String → Value
    arr : Items → Value
    obj : Fields → Value

  -- the members in the order of the text, a repeated key included
  pub data Fields : Type 0 where
    field : String → Value → Fields → Fields
    end : Fields

  pub data Items : Type 0 where
    cons : Value → Items → Items
    nil : Items

-- A json.RawMessage: blank text, text that does not decode, a value with more text behind it, or
-- one value.
pub data RawMessage : Type 0 where
  blank : RawMessage
  malformed : RawMessage
  trailing : Value → RawMessage
  one : Value → RawMessage
