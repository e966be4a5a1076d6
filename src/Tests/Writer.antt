-- ===== src/Tests/Writer.antt =====
-- The recording writer and its endpoint over a concrete Writer, which numbers above all its ids.
use visio_schema.Common.{
  ℕ, suc, ◌*◌, ◌≤◌, max, ◌≡◌, refl, true, false, String, List, [], ◌∷◌, none, some, ok, arith,
}
use visio_schema.Common.Dict
use visio_schema.Common.Dict.{Dict}
use visio_schema.Wire.Message.{Message}
use visio_schema.Routing.Channel.{Channel}
use visio_schema.Mcap.Writer.{
  Record, schema_record, channel_record, message_record, metadata_record, WriterApi, McapWriter,
  topic_conflict, metadata_type, metadata_closed, Output, at_path, stream, MetadataValue, text,
  not_text,
}
use visio_schema.Mcap.Writer as Writer
use visio_schema.Mcap.Writer.Contents as Contents
use visio_schema.Mcap.Writer.Contents.{schema_of, channel_of, Keeps, contents}
use visio_schema.Mcap.Writer.Spec as Spec
use visio_schema.Mcap.Writer.Spec.{empty, parts}
use visio_schema.Mcap.Writer.Runs as Runs
use visio_schema.Mcap.Writer.Runs.{
  WriterCall, writes, notes, closes, step, run_calls, play, run-parts,
}
use visio_schema.Mcap.Writer.Bounds.{Sized, run-Sized}

abbrev pub next_schema : List Record → ℕ
next_schema [] = 1
next_schema (schema_record i name encoding bytes ∷ older) = max (suc i) (next_schema older)
next_schema (channel_record i topic encoding schema_id ∷ older) = next_schema older
next_schema (message_record i log_time publish_time sequence payload ∷ older) = next_schema older
next_schema (metadata_record name kv ∷ older) = next_schema older

abbrev pub next_channel : List Record → ℕ
next_channel [] = 1
next_channel (schema_record i name encoding bytes ∷ older) = next_channel older
next_channel (channel_record i topic encoding schema_id ∷ older) = max (suc i) (next_channel older)
next_channel (message_record i log_time publish_time sequence payload ∷ older) = next_channel older
next_channel (metadata_record name kv ∷ older) = next_channel older

abbrev pub api : WriterApi (List Record)
api = record {
  start = λ profile library. [];
  register_schema = λ p name encoding bytes.
      (schema_record (next_schema p) name encoding bytes ∷ p, next_schema p);
  register_channel = λ p topic encoding schema_id.
      (channel_record (next_channel p) topic encoding schema_id ∷ p, next_channel p);
  add_message = λ p id log_time publish_time sequence payload.
      message_record id log_time publish_time sequence payload ∷ p;
  add_metadata = λ p name kv. metadata_record name kv ∷ p;
  finish = λ p. p;
  records = λ p. p;
}

schema_of-above : (p : List Record) (id : ℕ) → next_schema p ≤ id → schema_of id p ≡ none
unfolding schema_of
schema_of-above [] id h = refl
schema_of-above (schema_record i name encoding bytes ∷ p) id h =
    ground (arith, schema_of-above p id)
schema_of-above (channel_record i topic encoding schema_id ∷ p) id h = schema_of-above p id h
schema_of-above (message_record i log_time publish_time sequence payload ∷ p) id h =
    schema_of-above p id h
schema_of-above (metadata_record name kv ∷ p) id h = schema_of-above p id h

channel_of-above : (p : List Record) (id : ℕ) → next_channel p ≤ id → channel_of id p ≡ none
unfolding channel_of
channel_of-above [] id h = refl
channel_of-above (schema_record i name encoding bytes ∷ p) id h = channel_of-above p id h
channel_of-above (channel_record i topic encoding schema_id ∷ p) id h =
    ground (arith, channel_of-above p id)
channel_of-above (message_record i log_time publish_time sequence payload ∷ p) id h =
    channel_of-above p id h
channel_of-above (metadata_record name kv ∷ p) id h = channel_of-above p id h

pub api-Keeps : Keeps api
api-Keeps = record {
  started = λ profile library. refl;
  schema = λ p name encoding bytes. refl;
  schema_fresh = λ p name encoding bytes. schema_of-above p (next_schema p) (omega arith);
  channel = λ p topic encoding schema_id. refl;
  channel_fresh = λ p topic encoding schema_id. channel_of-above p (next_channel p) (omega arith);
  message = λ p id log_time publish_time sequence payload. refl;
  noting = λ p name kv. refl;
  finished = λ p. refl;
}

program : Unit {0}
unfolding Writer.file_name Writer.or_default Writer.reached Writer.expired Writer.texts
    Writer.check_output Writer.is_given Writer.replay Writer.open_part Writer.init
    Writer.should_roll Writer.roll Writer.rolled Writer.schema_id_of Writer.same_schema
    Writer.channel_id_of Writer.add_message Writer.add_unless Writer.write_open Writer.write
    Writer.put_metadata Writer.add_metadata Writer.close Contents.schema_of Contents.channel_of
    Contents.named Contents.attributed Contents.rows Contents.noted Contents.found
    Contents.found_all Contents.contents Spec.payload_bytes Spec.schema_in Spec.is_full
    Spec.next_part Spec.put_row Spec.put_rolled Spec.put Spec.note_texts Spec.note Spec.empty
    Spec.readable Spec.parts Runs.step Runs.run_calls Runs.advance Runs.play Dict.get Dict.set
program = tt

-- A message of three bytes at time 100 * seq.
abbrev pub message : ℕ → Message ℕ
message seq = record {
  stream_id = 17;
  payload = 1 ∷ 2 ∷ 3 ∷ [];
  seq = seq;
  timestamp = 100 * seq;
  clock_authority_epoch = 0;
  clock_revision = 0;
  sync_point = none;
  keyframe = true;
}

abbrev pub channel : String → String → Channel
channel topic schema_name = record {
  id = 17;
  topic = topic;
  encoding = "";
  schema_name = schema_name;
  schema = 9 ∷ [];
  schema_encoding = "";
}

abbrev pub nanoseconds : ℕ → ℕ
nanoseconds t = t

abbrev pub output : Output
output = at_path "run" ".mcap"

-- A writer that rotates at five bytes.
abbrev pub opened : McapWriter (List Record)
opened = Writer.open_part api 0 (record {
  profile = "";
  library = none;
  max_bytes = some 5;
  max_duration_ns = none;
  rotating = true;
  closed = false;
  part_index = 0;
  metadata = [];
  output = output;
  schema_ids = [];
  channel_ids = [];
  channel_schemas = [];
  part_start_ns = 0;
  part_bytes = 0;
  writer = [];
  files = [];
})

pub opened_lem : Writer.init api output (some 5) none "" none 0 ≡ ok opened
unfolding program
opened_lem = refl

-- Two messages fill a part; the fourth write puts the topic under a second schema; the last
-- comes after the close.
abbrev calls : List (WriterCall ℕ)
calls =
    notes "origin" (("rig", text "a") ∷ [])
    ∷ writes (message 1) (channel "imu" "Imu") 1 1
    ∷ writes (message 2) (channel "cam" "Frame") 2 2
    ∷ writes (message 3) (channel "imu" "Imu") 3 3
    ∷ writes (message 4) (channel "imu" "Frame") 4 4
    ∷ notes "bad" (("key", not_text) ∷ [])
    ∷ closes
    ∷ writes (message 5) (channel "imu" "Imu") 5 5
    ∷ []

calls-raised :
    (run_calls nanoseconds api opened calls).1
    ≡ none
      ∷ none
      ∷ none
      ∷ none
      ∷ some (topic_conflict "imu" "Imu" "Frame")
      ∷ some (metadata_type "key")
      ∷ none
      ∷ none
      ∷ []
unfolding program
calls-raised = refl

run-parts_example :
    (contents api (run_calls nanoseconds api opened calls).0
      ≡ parts (play nanoseconds (some 5) none (empty 0) calls).0)
    × ((run_calls nanoseconds api opened calls).1
        ≡ (play nanoseconds (some 5) none (empty 0) calls).1)
run-parts_example =
    run-parts nanoseconds api api-Keeps output (some 5) none "" none 0 calls opened_lem

run-Sized_example : Sized 5 none (contents api (run_calls nanoseconds api opened calls).0)
run-Sized_example = run-Sized api api-Keeps nanoseconds output 5 none "" none 0 calls opened_lem
