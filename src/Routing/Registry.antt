-- ===== src/Routing/Registry.antt =====
-- python/visio_schema/routing/registry.py: the state of a ChannelRegistry and its methods.
pub mod Inbound
pub mod Invariant
pub mod Topics
pub mod Rows
pub mod Runs
use visio_schema.Common.{
  ℕ, ◌+◌, ◌==◌, ltb, if◌then◌else◌, Bool, true, false, not, ◌&&◌, String, str_eq, nat_eq, string_eq,
  List, [], ◌∷◌, ◌++◌, Option, none, some, Result, ok, err, ◌>>=◌,
}
use visio_schema.Common.Dict
use visio_schema.Common.Dict.{Dict}
use visio_schema.Common.Sets
use visio_schema.Wire.Message.{Message}
use visio_schema.Routing.Channel.{Channel, Routed, protobuf, first_dynamic, device_info}

-- What the constructor keeps for the announcement.
pub record Identity : Type 0 where
  pub device_name : String
  pub equipment_type : String
  pub firmware_version : String
  pub hardware_revision : String
  pub serial : String
  pub boot_unix_seconds : ℕ

-- The generated `DeviceInfo` message.
pub record DeviceInfo : Type 0 where
  pub identity : Identity
  pub channels : List Channel

pub record Registry : Type 0 where
  pub identity : Identity
  pub by_id : Dict ℕ Channel
  pub topic_to_id : Dict String ℕ
  pub own_ids : List ℕ
  pub next_id : ℕ
  pub dropped_unmapped : ℕ
  pub device_info_channel : Channel

pub data RegistryError : Type 0 where
  key_error : RegistryError
  duplicate_topic : RegistryError

unfoldable pub alloc : Registry → ℕ × Registry
alloc r = (r.next_id, record r { next_id = r.next_id + 1 })

-- The branch of `declare` for a new topic.
unfoldable pub declare_new : Registry → String → String → List ℕ → String → String → ℕ × Registry
unfolding alloc
declare_new r topic schema_name schema encoding schema_encoding =
    let (cid, r') = alloc r in
    let ch : Channel = record {
      id = cid;
      topic = topic;
      encoding = encoding;
      schema_name = schema_name;
      schema = schema;
      schema_encoding = schema_encoding;
    } in
    (
      cid,
      record r' {
        by_id = Dict.set r'.by_id cid ch;
        topic_to_id = Dict.set r'.topic_to_id topic cid;
        own_ids = Sets.add cid r'.own_ids;
      },
    )

unfoldable pub declare : Registry → String → String → List ℕ → String → String → ℕ × Registry
unfolding declare_new
declare r topic schema_name schema encoding schema_encoding = elim (Dict.get r.topic_to_id topic) [
  | some existing ↦ (existing, r)
  | none ↦ declare_new r topic schema_name schema encoding schema_encoding
]

unfoldable pub local_id_for : Registry → String → Result RegistryError ℕ
local_id_for r topic = elim (Dict.get r.topic_to_id topic) [
  | some cid ↦ ok cid
  | none ↦ err key_error
]

-- `[self._by_id[cid] for cid in ids]`
unfoldable pub look_up_all : Dict ℕ Channel → List ℕ → Result RegistryError (List Channel)
look_up_all by_id [] = ok []
look_up_all by_id (cid ∷ ids) = do
  ch ← elim (Dict.get by_id cid) [ some ch ↦ ok ch | none ↦ err key_error ]
  rest ← look_up_all by_id ids
  ok (ch ∷ rest)

unfoldable pub own_channels : Registry → Result RegistryError (List Channel)
own_channels r = look_up_all r.by_id r.own_ids

-- The topic is live under another id.
unfoldable pub conflicts : Option ℕ → ℕ → Bool
conflicts none cid = false
conflicts (some existing) cid = not (existing == cid)

unfoldable pub put_channel : Registry → Channel → Registry
put_channel r ch = record r {
  by_id = Dict.set r.by_id ch.id ch;
  topic_to_id = Dict.set r.topic_to_id ch.topic ch.id;
}

unfoldable pub learn : Registry → Channel → Result RegistryError Registry
learn r ch =
    if conflicts (Dict.get r.topic_to_id ch.topic) ch.id
    then err duplicate_topic
    else ok (put_channel r ch)

-- The topic of a dropped channel goes too, if it still maps to that id.
unfoldable pub free_topic : Dict String ℕ → Option Channel → ℕ → Dict String ℕ
unfolding conflicts
free_topic topics none cid = topics
free_topic topics (some ch) cid = elim (Dict.get topics ch.topic) [
  | none ↦ topics
  | some existing ↦ if existing == cid then Dict.pop topics ch.topic else topics
]

unfoldable pub forget_one : Registry → ℕ → Registry
unfolding free_topic
forget_one r cid = record r {
  by_id = Dict.pop r.by_id cid;
  topic_to_id = free_topic r.topic_to_id (Dict.get r.by_id cid) cid;
  own_ids = Sets.discard cid r.own_ids;
}

unfoldable pub forget : Registry → List ℕ → Registry
forget r [] = r
forget r (cid ∷ ids) = forget (forget_one r cid) ids

unfoldable pub resolve : Registry → ℕ → Option Channel
resolve r stream_id =
    if stream_id == device_info then some r.device_info_channel else Dict.get r.by_id stream_id

unfoldable pub channels : Registry → List Channel
channels r = Dict.values r.by_id

unfoldable pub has_own_outputs : Registry → Bool
has_own_outputs r = elim r.own_ids [ [] ↦ false | _ ∷ _ ↦ true ]

-- One channel of an announce: a duplicate topic is logged.
unfoldable pub learn_or_log : Registry → Channel → Registry
learn_or_log r ch = elim (learn r ch) [ ok r' ↦ r' | err _ ↦ r ]

unfoldable pub learn_all : Registry → List Channel → Registry
learn_all r [] = r
learn_all r (ch ∷ chs) = learn_all (learn_or_log r ch) chs

unfoldable pub self_info : Registry → Result RegistryError DeviceInfo
self_info r = do own ← own_channels r; ok (record { identity = r.identity; channels = own })

-- An entry of the constructor's `channels`: a Channel, or a topic and the name of its schema.
pub data Entry : Type 0 where
  channel : Channel → Entry
  output : String → String → Entry

-- `text or _PROTOBUF`
unfoldable pub or_protobuf : String → String
or_protobuf text = if str_eq text "" then protobuf else text

module _ (file_descriptor_set : String → List ℕ) where
  unfoldable pub declare_output : Registry → String → String → ℕ × Registry
  unfolding declare
  declare_output r topic schema_name =
      declare r topic schema_name (file_descriptor_set schema_name) protobuf protobuf

  unfoldable pub declare_entry : Registry → Entry → ℕ × Registry
  unfolding or_protobuf declare_output
  declare_entry r (channel ch) =
      declare r ch.topic ch.schema_name ch.schema (or_protobuf ch.encoding)
        (or_protobuf ch.schema_encoding)
  declare_entry r (output topic schema_name) = declare_output r topic schema_name

  unfoldable pub declare_entries : Registry → List Entry → Registry
  declare_entries r [] = r
  declare_entries r (e ∷ es) = declare_entries (declare_entry r e).1 es

  unfoldable pub init : Identity → List Entry → Registry
  init identity entries =
      declare_entries
        (record {
          identity = identity;
          by_id = [];
          topic_to_id = [];
          own_ids = [];
          next_id = first_dynamic;
          dropped_unmapped = 0;
          device_info_channel = record {
            id = device_info;
            topic = "/device_info";
            encoding = protobuf;
            schema_name = "visio_schema.v1.service.device_info.DeviceInfo";
            schema = file_descriptor_set "visio_schema.v1.service.device_info.DeviceInfo";
            schema_encoding = protobuf;
          };
        })
        entries
