-- ===== src/Mcap/Writer/Notes.antt =====
-- Metadata and the end of a recording writer refine those of the recording.
use visio_schema.Common.{
  ℕ, ◌≡◌, refl, ap, ◌∙◌, inl, inr, Bool-cases, nat_eq, string_eq, String, [], ◌∷◌, ◌++◌, Option,
  true, Result, ok, err,
}
use visio_schema.Common.Dict.{Dict}
use visio_schema.Mcap.Writer.{
  WriterApi, McapWriter, WriterError, put_metadata, add_metadata, close, texts, MetadataValue,
}
use visio_schema.Mcap.Writer.Contents.{rows, noted, Keeps}
use visio_schema.Mcap.Writer.Spec.{Recording, note, note_texts}
use visio_schema.Mcap.Writer.Tables.{Tables-metadata_record}
use visio_schema.Mcap.Writer.Guards.{note-if, add_metadata-if, close-if}
use visio_schema.Mcap.Writer.Puts.{Agrees}
use visio_schema.Mcap.Writer.Refines.{Refines}

module _ {P : Type 0} (api : WriterApi P) (keeps : Keeps api)
    {max_bytes max_duration : Option ℕ} where
  note_texts-Agrees :
      (w : McapWriter P) (s : Recording) (name : String)
      (kv : Result WriterError (Dict String String))
      → Refines api max_bytes max_duration w s
      → Agrees api max_bytes max_duration (put_metadata api w name kv) (note_texts s name kv)
  unfolding put_metadata note_texts rows noted
  note_texts-Agrees w s name (err e) r = (r, refl)
  note_texts-Agrees w s name (ok kv) r =
      let written = keeps.noting w.writer name kv in
      (
        record {
          holds = record {
            bytes_limit = r.holds.bytes_limit;
            duration_limit = r.holds.duration_limit;
            rotating = r.holds.rotating;
            is_closed = r.holds.is_closed;
            current = rw written r.holds.current;
            noting = rw written (ap (λ kvs. kvs ++ (name, kv) ∷ []) r.holds.noting);
            metadata = ap (λ kvs. kvs ++ (name, kv) ∷ []) r.holds.metadata;
            bytes = r.holds.bytes;
            opened = r.holds.opened;
            tables = rw written (Tables-metadata_record r.holds.tables name kv);
            files = r.holds.files;
          };
          bound = r.bound;
        },
        refl,
      )

  pub add_metadata-Agrees :
      (w : McapWriter P) (s : Recording) (name : String) (kv : Dict String MetadataValue)
      → Refines api max_bytes max_duration w s
      → Agrees api max_bytes max_duration (add_metadata api w name kv) (note s name kv)
  add_metadata-Agrees w s name kv r = elim (Bool-cases s.is_closed) [
    | inl e ↦
        rw (add_metadata-if api w name kv (r.holds.is_closed ∙ e), note-if s name kv e) (r, refl)
    | inr e ↦
        rw (add_metadata-if api w name kv (r.holds.is_closed ∙ e), note-if s name kv e)
          (note_texts-Agrees w s name (texts kv) r)
  ]

  mark_closed :
      (w : McapWriter P) (s : Recording)
      → Refines api max_bytes max_duration w s
      → w.closed ≡ true
      → Refines api max_bytes max_duration w (record s { is_closed = true })
  mark_closed w s r e = record {
    holds = record {
      bytes_limit = r.holds.bytes_limit;
      duration_limit = r.holds.duration_limit;
      rotating = r.holds.rotating;
      is_closed = e;
      current = r.holds.current;
      noting = r.holds.noting;
      metadata = r.holds.metadata;
      bytes = r.holds.bytes;
      opened = r.holds.opened;
      tables = r.holds.tables;
      files = r.holds.files;
    };
    bound = r.bound;
  }

  finish-Refines :
      (w : McapWriter P) (s : Recording)
      → Refines api max_bytes max_duration w s
      → Refines api max_bytes max_duration
          (record w { closed = true; writer = api.finish w.writer })
          (record s { is_closed = true })
  finish-Refines w s r = record {
    holds = record {
      bytes_limit = r.holds.bytes_limit;
      duration_limit = r.holds.duration_limit;
      rotating = r.holds.rotating;
      is_closed = refl;
      current = rw (keeps.finished w.writer) r.holds.current;
      noting = rw (keeps.finished w.writer) r.holds.noting;
      metadata = r.holds.metadata;
      bytes = r.holds.bytes;
      opened = r.holds.opened;
      tables = rw (keeps.finished w.writer) r.holds.tables;
      files = r.holds.files;
    };
    bound = r.bound;
  }

  pub close-Refines :
      (w : McapWriter P) (s : Recording)
      → Refines api max_bytes max_duration w s
      → Refines api max_bytes max_duration (close api w) (record s { is_closed = true })
  close-Refines w s r = elim (Bool-cases w.closed) [
    | inl e ↦ rw (close-if api w e) (mark_closed w s r e)
    | inr e ↦ rw (close-if api w e) (finish-Refines w s r)
  ]
