-- ===== src/Mcap/Writer/Spec.antt =====
-- A recording as its parts, each the rows and the metadata in it, with no ids and no tables.
use visio_schema.Common.{
  ℕ, ◌+◌, ◌==◌, if◌then◌else◌, Bool, false, ◌||◌, String, str_eq, List, [], ◌∷◌, ◌++◌, Option, none,
  some, length, Result, ok, err, map,
}
use visio_schema.Common.Dict.{Dict}
use visio_schema.Mcap.Writer.{
  WriterError, topic_conflict, metadata_closed, MetadataValue, reached, expired, texts,
}
use visio_schema.Mcap.Writer.Contents.{Row, Found}

abbrev pub Part : Type 0
Part = List Row × List (String × Dict String String)

-- `current` and `finished` with the last row, and the last part, first.
pub record Recording : Type 0 where
  pub current : List Row
  pub metadata : List (String × Dict String String)
  pub opened_at : ℕ
  pub is_closed : Bool
  pub finished : List Part

unfoldable pub payload_bytes : List Row → ℕ
payload_bytes [] = 0
payload_bytes (row ∷ rows) = payload_bytes rows + length row.payload

unfoldable pub schema_in : String → List Row → Option String
schema_in topic [] = none
schema_in topic (row ∷ rows) =
    if str_eq row.topic topic then some row.schema_name else schema_in topic rows

-- The part is full: it holds a byte, and it has reached the size or the age of the limits.
unfoldable pub is_full : Option ℕ → Option ℕ → ℕ → Recording → Bool
is_full max_bytes max_duration now s =
    if payload_bytes s.current == 0
    then false
    else reached max_bytes (payload_bytes s.current) || expired max_duration s.opened_at now

unfoldable pub next_part : ℕ → Recording → Recording
next_part now s = record s {
  current = [];
  opened_at = now;
  finished = (s.current, s.metadata) ∷ s.finished;
}

unfoldable pub put_row : Recording → Row → Option String → Recording × Option WriterError
put_row s row none = (record s { current = row ∷ s.current }, none)
put_row s row (some name) =
    if str_eq name row.schema_name
    then (record s { current = row ∷ s.current }, none)
    else (s, some (topic_conflict row.topic name row.schema_name))

unfoldable pub put_rolled : Recording → Row → Recording × Option WriterError
put_rolled s row = put_row s row (schema_in row.topic s.current)

unfoldable pub put : Option ℕ → Option ℕ → Recording → Row → ℕ → ℕ → Recording × Option WriterError
put max_bytes max_duration s row checked opened =
    if s.is_closed
    then (s, none)
    else put_rolled (if is_full max_bytes max_duration checked s then next_part opened s else s) row

unfoldable pub note_texts :
    Recording → String → Result WriterError (Dict String String) → Recording × Option WriterError
note_texts s name (ok kv) = (record s { metadata = s.metadata ++ (name, kv) ∷ [] }, none)
note_texts s name (err e) = (s, some e)

unfoldable pub note :
    Recording → String → Dict String MetadataValue → Recording × Option WriterError
note s name kv = if s.is_closed then (s, some metadata_closed) else note_texts s name (texts kv)

unfoldable pub empty : ℕ → Recording
empty now = record {
  current = [];
  metadata = [];
  opened_at = now;
  is_closed = false;
  finished = [];
}

unfoldable pub readable : Part → Found
readable (rows, noted) = (map some rows, noted)

unfoldable pub parts : Recording → List Found
parts s = readable (s.current, s.metadata) ∷ map readable s.finished
