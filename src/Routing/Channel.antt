-- ===== src/Routing/Channel.antt =====
-- python/visio_schema/routing/channel.py, and the control ids of wire/control.py.
use visio_schema.Common.{ℕ, String, List, Option}
use visio_schema.Wire.Message.{Message}

-- The generated `Channel` message.
pub record Channel : Type 0 where
  pub id : ℕ
  pub topic : String
  pub encoding : String
  pub schema_name : String
  pub schema : List ℕ
  pub schema_encoding : String

abbrev pub protobuf : String
protobuf = "protobuf"

-- Ids below FIRST_DYNAMIC are control streams.
abbrev pub first_dynamic : ℕ
first_dynamic = 16

abbrev pub device_info : ℕ
device_info = 1

-- What `accept` decides about a message.
pub record Routed (T : Type 0) : Type 0 where
  pub message : Option (Message T)
  pub channel : Option Channel

-- `file_descriptor_set` reads the descriptor pool of the protobuf runtime.
module _ (file_descriptor_set : String → List ℕ) where
  unfoldable pub make_channel : String → String → ℕ → Channel
  make_channel topic schema_name stream_id = record {
    id = stream_id;
    topic = topic;
    encoding = protobuf;
    schema_name = schema_name;
    schema = file_descriptor_set schema_name;
    schema_encoding = protobuf;
  }
