-- ===== src/Mcap/Records.antt =====
-- The types of the recording writer, and its tests that need no state. `P` is the state of a
-- Writer of the mcap package, which `WriterApi` names; times are in nanoseconds.
use visio_schema.Common.{
  ℕ, ◌+◌, leb, if◌then◌else◌, String, str_eq, string_eq, Bool, true, false, not, List, [], ◌∷◌,
  Option, none, some, Result, ok, err, raise_if, ◌>>◌,
}
use visio_schema.Common.Dict.{Dict}
use visio_schema.Routing.Channel.{Channel, protobuf}

-- What a Writer of the mcap package puts in its file, with the ids that it gives out.
pub data Record : Type 0 where
  schema_record : ℕ → String → String → List ℕ → Record
  channel_record : ℕ → String → String → ℕ → Record
  message_record : ℕ → ℕ → ℕ → ℕ → List ℕ → Record
  metadata_record : String → Dict String String → Record

-- `start` makes a Writer on a new file and starts it; `records` is what its file holds, the last
-- record first.
pub record WriterApi (P : Type 0) : Type 0 where
  pub start : Option String → Option String → P
  pub register_schema : P → String → String → List ℕ → P × ℕ
  pub register_channel : P → String → String → ℕ → P × ℕ
  pub add_message : P → ℕ → ℕ → ℕ → ℕ → List ℕ → P
  pub add_metadata : P → String → Dict String String → P
  pub finish : P → P
  pub records : P → List Record

pub data WriterError : Type 0 where
  needs_path : WriterError
  needs_seekable : WriterError
  topic_conflict : String → String → String → WriterError
  key_error : String → WriterError
  metadata_closed : WriterError
  metadata_type : String → WriterError

-- A path by its stem and suffix; a stream by what its seekable() answers.
pub data Output : Type 0 where
  at_path : String → String → Output
  stream : Bool → Output

-- `path` itself, or its part `stem_0000suffix` by number.
pub data FileName : Type 0 where
  whole : String → String → FileName
  part : String → String → ℕ → FileName
  callers_stream : FileName

-- A value of the mapping given to add_metadata.
pub data MetadataValue : Type 0 where
  text : String → MetadataValue
  not_text : MetadataValue

-- `files` are the parts that have been finished, the last one first.
pub record McapWriter (P : Type 0) : Type 0 where
  pub profile : String
  pub library : Option String
  pub max_bytes : Option ℕ
  pub max_duration_ns : Option ℕ
  pub rotating : Bool
  pub closed : Bool
  pub part_index : ℕ
  pub metadata : List (String × Dict String String)
  pub output : Output
  pub schema_ids : Dict String ℕ
  pub channel_ids : Dict String ℕ
  pub channel_schemas : Dict String String
  pub part_start_ns : ℕ
  pub part_bytes : ℕ
  pub writer : P
  pub files : List (FileName × P)

unfoldable pub file_name : Bool → ℕ → Output → FileName
file_name rotating index (stream seekable) = callers_stream
file_name rotating index (at_path stem suffix) =
    if rotating then part stem suffix index else whole stem suffix

-- channel.encoding or "protobuf"
unfoldable pub or_default : String → String
or_default encoding = if str_eq encoding "" then protobuf else encoding

unfoldable pub reached : Option ℕ → ℕ → Bool
reached none n = false
reached (some limit) n = leb limit n

unfoldable pub expired : Option ℕ → ℕ → ℕ → Bool
expired none start now = false
expired (some limit) start now = leb (start + limit) now

unfoldable pub texts : Dict String MetadataValue → Result WriterError (Dict String String)
texts [] = ok []
texts ((key, not_text) ∷ kv) = err (metadata_type key)
texts ((key, text t) ∷ kv) = elim (texts kv) [ ok rest ↦ ok ((key, t) ∷ rest) | err e ↦ err e ]

-- What __init__ refuses.
unfoldable pub check_output : Bool → Output → Result WriterError (Unit {0})
check_output rotating (at_path stem suffix) = ok tt
check_output rotating (stream seekable) =
    raise_if rotating needs_path >> raise_if (not seekable) needs_seekable

unfoldable pub is_given : Option ℕ → Bool
is_given none = false
is_given (some n) = true

unfoldable pub same_schema : Channel → Option String → Option WriterError
same_schema channel none = some (key_error channel.topic)
same_schema channel (some name) =
    if str_eq name channel.schema_name
    then none
    else some (topic_conflict channel.topic name channel.schema_name)
