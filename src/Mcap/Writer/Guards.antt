-- ===== src/Mcap/Writer/Guards.antt =====
-- The methods of the recording writer, and the steps of a recording, by their first test.
use visio_schema.Common.{ℕ, ◌≡◌, ap, if◌then◌else◌, Bool, true, String, Option, none, some}
use visio_schema.Common.Dict.{Dict}
use visio_schema.Wire.Message.{Message}
use visio_schema.Routing.Channel.{Channel}
use visio_schema.Mcap.Writer.{
  WriterApi, McapWriter, metadata_closed, MetadataValue, texts, write_open, write, rolled,
  put_metadata, add_metadata, close,
}
use visio_schema.Mcap.Writer.Contents.{Row}
use visio_schema.Mcap.Writer.Spec.{Recording, is_full, next_part, put_rolled, put, note, note_texts}

pub put-if :
    (max_bytes max_duration : Option ℕ) (s : Recording) (row : Row) (checked opened : ℕ) {b : Bool}
    → s.is_closed ≡ b
    → put max_bytes max_duration s row checked opened ≡ (
        if b
        then (s, none)
        else put_rolled
            (if is_full max_bytes max_duration checked s then next_part opened s else s)
            row)
unfolding put
put-if max_bytes max_duration s row checked opened e =
    ap
      (λ (c : Bool).
        if c
        then (s, none)
        else put_rolled (if is_full max_bytes max_duration checked s then next_part opened s else s)
            row)
      e

pub note-if :
    (s : Recording) (name : String) (kv : Dict String MetadataValue) {b : Bool}
    → s.is_closed ≡ b
    → note s name kv ≡ (if b then (s, some metadata_closed) else note_texts s name (texts kv))
unfolding note
note-if s name kv e =
    ap (λ (c : Bool). if c then (s, some metadata_closed) else note_texts s name (texts kv)) e

module _ {P : Type 0} (api : WriterApi P) where
  pub write-if :
      {T : Type 0} (to_nanoseconds : T → ℕ) (w : McapWriter P) (msg : Message T) (channel : Channel)
      (checked opened : ℕ) {b : Bool}
      → w.closed ≡ b
      → write api to_nanoseconds w msg channel checked opened ≡ (
          if b
          then (w, none)
          else write_open api to_nanoseconds (rolled api checked opened w) msg channel)
  unfolding write
  write-if to_nanoseconds w msg channel checked opened e =
      ap
        (λ (c : Bool).
          if c
          then (w, none)
          else write_open api to_nanoseconds (rolled api checked opened w) msg channel)
        e

  pub add_metadata-if :
      (w : McapWriter P) (name : String) (kv : Dict String MetadataValue) {b : Bool}
      → w.closed ≡ b
      → add_metadata api w name kv
        ≡ (if b then (w, some metadata_closed) else put_metadata api w name (texts kv))
  unfolding add_metadata
  add_metadata-if w name kv e =
      ap (λ (c : Bool). if c then (w, some metadata_closed) else put_metadata api w name (texts kv))
        e

  pub close-if :
      (w : McapWriter P) {b : Bool}
      → w.closed ≡ b
      → close api w ≡ (if b then w else record w { closed = true; writer = api.finish w.writer })
  unfolding close
  close-if w e =
      ap (λ (c : Bool). if c then w else record w { closed = true; writer = api.finish w.writer }) e
