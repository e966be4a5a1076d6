-- ===== src/Mcap/Writer.antt =====
-- python/visio_schema/mcap/writer.py: the recording writer. each method, with what the
-- clock answers; its types are those of Records.
pub mod Contents
pub mod Spec
pub mod Tables
pub mod Refines
pub mod Guards
pub mod Puts
pub mod Writes
pub mod Notes
pub mod Runs
pub mod Bounds
pub mod Gathered
pub use visio_schema.Mcap.Records.{
  Record, WriterApi, WriterError, Output, FileName, MetadataValue, McapWriter, schema_record,
  channel_record, message_record, metadata_record, needs_path, needs_seekable, topic_conflict,
  key_error, metadata_closed, metadata_type, at_path, stream, whole, part, callers_stream, text,
  not_text,
}
unfoldable pub use visio_schema.Mcap.Records.{
  file_name, or_default, reached, expired, texts, check_output, is_given, same_schema,
}
use visio_schema.Common.{
  ℕ, ◌+◌, ◌==◌, ltb, leb, if◌then◌else◌, String, str_eq, string_eq, Bool, true, false, not, ◌&&◌,
  ◌||◌, List, [], ◌∷◌, ◌++◌, Option, none, some, length, Result, ok, err, raise_if, ◌>>◌,
}
use visio_schema.Common.Dict
use visio_schema.Common.Dict.{Dict}
use visio_schema.Wire.Message.{Message}
use visio_schema.Routing.Channel.{Channel, protobuf}

module _ {P : Type 0} (api : WriterApi P) where
  unfoldable pub replay : P → List (String × Dict String String) → P
  replay p [] = p
  replay p ((name, kv) ∷ rest) = replay (api.add_metadata p name kv) rest

  -- `_open_part`, where the clock answers `now`.
  unfoldable pub open_part : ℕ → McapWriter P → McapWriter P
  open_part now w = record w {
    schema_ids = [];
    channel_ids = [];
    channel_schemas = [];
    part_start_ns = now;
    part_bytes = 0;
    writer =
        replay (api.start (if str_eq w.profile "" then none else some w.profile) w.library)
          w.metadata;
  }

  -- The fields that `_open_part` sets have no value before it.
  unfoldable pub init :
      Output → Option ℕ → Option ℕ → String → Option String → ℕ → Result WriterError (McapWriter P)
  init output max_bytes max_duration_ns profile library now =
      let rotating : Bool = is_given max_bytes || is_given max_duration_ns in
      check_output rotating output
      >> ok (
          open_part now (record {
            profile = profile;
            library = library;
            max_bytes = max_bytes;
            max_duration_ns = max_duration_ns;
            rotating = rotating;
            closed = false;
            part_index = 0;
            metadata = [];
            output = output;
            schema_ids = [];
            channel_ids = [];
            channel_schemas = [];
            part_start_ns = 0;
            part_bytes = 0;
            writer = api.start none none;
            files = [];
          }))

  unfoldable pub should_roll : ℕ → McapWriter P → Bool
  should_roll now w =
      if w.part_bytes == 0
      then false
      else reached w.max_bytes w.part_bytes || expired w.max_duration_ns w.part_start_ns now

  unfoldable pub roll : ℕ → McapWriter P → McapWriter P
  roll now w = open_part now (record w {
    part_index = w.part_index + 1;
    files = (file_name w.rotating w.part_index w.output, api.finish w.writer) ∷ w.files;
  })

  unfoldable pub rolled : ℕ → ℕ → McapWriter P → McapWriter P
  rolled checked opened w = if w.rotating && should_roll checked w then roll opened w else w

  -- The id of the channel's schema, given what schema_ids holds for its name.
  unfoldable pub schema_id_of : McapWriter P → Channel → Option ℕ → McapWriter P × ℕ
  schema_id_of w channel (some id) = (w, id)
  schema_id_of w channel none =
      let (writer, id) =
        api.register_schema w.writer channel.schema_name (or_default channel.schema_encoding)
          channel.schema in
      (record w { writer = writer; schema_ids = Dict.set w.schema_ids channel.schema_name id }, id)

  -- The id of the channel for its topic, given what channel_ids holds, or the conflict.
  unfoldable pub channel_id_of :
      McapWriter P → Channel → ℕ → Option ℕ → McapWriter P × ℕ × Option WriterError
  channel_id_of w channel schema_id (some id) =
      (w, id, same_schema channel (Dict.get w.channel_schemas channel.topic))
  channel_id_of w channel schema_id none =
      let (writer, id) =
        api.register_channel w.writer channel.topic (or_default channel.encoding) schema_id in
      (
        record w {
          writer = writer;
          channel_ids = Dict.set w.channel_ids channel.topic id;
          channel_schemas = Dict.set w.channel_schemas channel.topic channel.schema_name;
        },
        id,
        none,
      )

  module _ {T : Type 0} (to_nanoseconds : T → ℕ) where
    unfoldable pub add_message : McapWriter P → Message T → ℕ → McapWriter P
    add_message w msg channel_id =
        let ts : ℕ = to_nanoseconds msg.timestamp in
        record w {
          writer = api.add_message w.writer channel_id ts ts msg.seq msg.payload;
          part_bytes = w.part_bytes + length msg.payload;
        }

    unfoldable pub add_unless :
        McapWriter P → Message T → ℕ → Option WriterError → McapWriter P × Option WriterError
    add_unless w msg channel_id none = (add_message w msg channel_id, none)
    add_unless w msg channel_id (some e) = (w, some e)

    -- `write` of an open writer, after the roll.
    unfoldable pub write_open :
        McapWriter P → Message T → Channel → McapWriter P × Option WriterError
    write_open w msg channel =
        let (v, schema_id) = schema_id_of w channel (Dict.get w.schema_ids channel.schema_name) in
        let (u, channel_id, raised) =
          channel_id_of v channel schema_id (Dict.get v.channel_ids channel.topic) in
        add_unless u msg channel_id raised

    -- The clock answers `checked` to _should_roll and `opened` to _open_part.
    unfoldable pub write :
        McapWriter P → Message T → Channel → ℕ → ℕ → McapWriter P × Option WriterError
    write w msg channel checked opened =
        if w.closed then (w, none) else write_open (rolled checked opened w) msg channel

  unfoldable pub put_metadata :
      McapWriter P
      → String
      → Result WriterError (Dict String String)
      → McapWriter P × Option WriterError
  put_metadata w name (err e) = (w, some e)
  put_metadata w name (ok kv) = (
    record w {
      metadata = w.metadata ++ (name, kv) ∷ [];
      writer = api.add_metadata w.writer name kv;
    },
    none,
  )

  unfoldable pub add_metadata :
      McapWriter P → String → Dict String MetadataValue → McapWriter P × Option WriterError
  add_metadata w name kv =
      if w.closed then (w, some metadata_closed) else put_metadata w name (texts kv)

  unfoldable pub close : McapWriter P → McapWriter P
  close w = if w.closed then w else record w { closed = true; writer = api.finish w.writer }
