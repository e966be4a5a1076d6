-- ===== src/Mcap/Writer/Contents.antt =====
-- What a reader finds in a file of the recording writer, and what the mcap package promises.
use visio_schema.Common.{
  ℕ, ◌==◌, ◌≡◌, if◌then◌else◌, String, List, [], ◌∷◌, ◌++◌, Option, none, some,
}
use visio_schema.Common.Dict.{Dict}
use visio_schema.Mcap.Writer.{
  Record, schema_record, channel_record, message_record, metadata_record, WriterApi, McapWriter,
  FileName,
}

pub record Row : Type 0 where
  pub topic : String
  pub schema_name : String
  pub log_time : ℕ
  pub sequence : ℕ
  pub payload : List ℕ

unfoldable pub schema_of : ℕ → List Record → Option String
schema_of id [] = none
schema_of id (schema_record i name encoding bytes ∷ older) =
    if i == id then some name else schema_of id older
schema_of id (channel_record i topic encoding schema_id ∷ older) = schema_of id older
schema_of id (message_record i log_time publish_time sequence payload ∷ older) = schema_of id older
schema_of id (metadata_record name kv ∷ older) = schema_of id older

unfoldable pub channel_of : ℕ → List Record → Option (String × ℕ)
channel_of id [] = none
channel_of id (schema_record i name encoding bytes ∷ older) = channel_of id older
channel_of id (channel_record i topic encoding schema_id ∷ older) =
    if i == id then some (topic, schema_id) else channel_of id older
channel_of id (message_record i log_time publish_time sequence payload ∷ older) =
    channel_of id older
channel_of id (metadata_record name kv ∷ older) = channel_of id older

unfoldable pub named : Option String → String → ℕ → ℕ → List ℕ → Option Row
named none topic log_time sequence payload = none
named (some name) topic log_time sequence payload = some (record {
  topic = topic;
  schema_name = name;
  log_time = log_time;
  sequence = sequence;
  payload = payload;
})

-- A message under the channel and the schema that stand before it in its file.
unfoldable pub attributed : Option (String × ℕ) → List Record → ℕ → ℕ → List ℕ → Option Row
attributed none older log_time sequence payload = none
attributed (some (topic, schema_id)) older log_time sequence payload =
    named (schema_of schema_id older) topic log_time sequence payload

-- The messages of a file, the last one first.
unfoldable pub rows : List Record → List (Option Row)
rows [] = []
rows (schema_record i name encoding bytes ∷ older) = rows older
rows (channel_record i topic encoding schema_id ∷ older) = rows older
rows (message_record id log_time publish_time sequence payload ∷ older) =
    attributed (channel_of id older) older log_time sequence payload ∷ rows older
rows (metadata_record name kv ∷ older) = rows older

-- The metadata of a file, in order.
unfoldable pub noted : List Record → List (String × Dict String String)
noted [] = []
noted (schema_record i name encoding bytes ∷ older) = noted older
noted (channel_record i topic encoding schema_id ∷ older) = noted older
noted (message_record i log_time publish_time sequence payload ∷ older) = noted older
noted (metadata_record name kv ∷ older) = noted older ++ (name, kv) ∷ []

abbrev pub Found : Type 0
Found = List (Option Row) × List (String × Dict String String)

module _ {P : Type 0} (api : WriterApi P) where
  -- Every record is kept as it was given, and no id is given out twice in one file.
  pub record Keeps : Type 0 where
    pub started : (profile library : Option String) → api.records (api.start profile library) ≡ []
    pub schema :
        (p : P) (name encoding : String) (bytes : List ℕ)
        → api.records (api.register_schema p name encoding bytes).0
          ≡ schema_record (api.register_schema p name encoding bytes).1 name encoding bytes
            ∷ api.records p
    pub schema_fresh :
        (p : P) (name encoding : String) (bytes : List ℕ)
        → schema_of (api.register_schema p name encoding bytes).1 (api.records p) ≡ none
    pub channel :
        (p : P) (topic encoding : String) (schema_id : ℕ)
        → api.records (api.register_channel p topic encoding schema_id).0
          ≡ channel_record
              (api.register_channel p topic encoding schema_id).1
              topic
              encoding
              schema_id
            ∷ api.records p
    pub channel_fresh :
        (p : P) (topic encoding : String) (schema_id : ℕ)
        → channel_of (api.register_channel p topic encoding schema_id).1 (api.records p) ≡ none
    pub message :
        (p : P) (id log_time publish_time sequence : ℕ) (payload : List ℕ)
        → api.records (api.add_message p id log_time publish_time sequence payload)
          ≡ message_record id log_time publish_time sequence payload ∷ api.records p
    pub noting :
        (p : P) (name : String) (kv : Dict String String)
        → api.records (api.add_metadata p name kv) ≡ metadata_record name kv ∷ api.records p
    pub finished : (p : P) → api.records (api.finish p) ≡ api.records p

  unfoldable pub found : P → Found
  found p = (rows (api.records p), noted (api.records p))

  unfoldable pub found_all : List (FileName × P) → List Found
  found_all [] = []
  found_all ((name, p) ∷ files) = found p ∷ found_all files

  -- The current part and the finished ones, the last one first.
  unfoldable pub contents : McapWriter P → List Found
  contents w = found w.writer ∷ found_all w.files
