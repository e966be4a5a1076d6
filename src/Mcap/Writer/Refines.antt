-- ===== src/Mcap/Writer/Refines.antt =====
-- The recording writer against the recording it stands for, part by part.
use visio_schema.Common.{
  ℕ, ◌==◌, ◌≡◌, refl, sym, ap₂, ◌∙◌, inl, inr, Bool-cases, if◌then◌else◌, nat_eq, string_eq, String,
  List, [], ◌∷◌, ◌++◌, Option, none, some, false, ◌||◌, ◌&&◌, map, arith, append_assoc, append-nil,
}
use visio_schema.Common.Dict
use visio_schema.Common.Dict.{Dict, get-nil}
use visio_schema.Mcap.Writer.{
  WriterApi, McapWriter, replay, open_part, roll, rolled, should_roll, file_name, FileName, reached,
  expired, is_given,
}
use visio_schema.Mcap.Writer.Contents.{rows, noted, Keeps, found, found_all}
use visio_schema.Mcap.Writer.Spec.{
  Recording, payload_bytes, schema_in, is_full, next_part, readable,
}
use visio_schema.Mcap.Writer.Tables.{Tables, Tables-empty}

module _ {P : Type 0} (api : WriterApi P) (max_bytes max_duration : Option ℕ) where
  -- All but what the topics of the current part are bound to.
  pub record Holds (w : McapWriter P) (s : Recording) : Type 0 where
    pub bytes_limit : w.max_bytes ≡ max_bytes
    pub duration_limit : w.max_duration_ns ≡ max_duration
    pub rotating : w.rotating ≡ (is_given max_bytes || is_given max_duration)
    pub is_closed : w.closed ≡ s.is_closed
    pub current : rows (api.records w.writer) ≡ map some s.current
    pub noting : noted (api.records w.writer) ≡ s.metadata
    pub metadata : w.metadata ≡ s.metadata
    pub bytes : w.part_bytes ≡ payload_bytes s.current
    pub opened : w.part_start_ns ≡ s.opened_at
    pub tables : Tables (api.records w.writer) w.schema_ids w.channel_ids w.channel_schemas
    pub files : found_all api w.files ≡ map readable s.finished

  pub record Refines (w : McapWriter P) (s : Recording) : Type 0 where
    pub holds : Holds w s
    pub bound : (topic : String) → Dict.get w.channel_schemas topic ≡ schema_in topic s.current

full-given :
    (bytes duration : Option ℕ) (n start now : ℕ)
    → ((is_given bytes || is_given duration)
        && (if n == 0 then false else reached bytes n || expired duration start now))
      ≡ (if n == 0 then false else reached bytes n || expired duration start now)
unfolding is_given reached expired
full-given none none n start now = ground arith
full-given none (some d) n start now = refl
full-given (some b) none n start now = refl
full-given (some b) (some d) n start now = refl

module _ {P : Type 0} (api : WriterApi P) (keeps : Keeps api) where
  pub rows-replay :
      (p : P) (kvs : List (String × Dict String String))
      → rows (api.records (replay api p kvs)) ≡ rows (api.records p)
  unfolding replay rows
  rows-replay p [] = refl
  rows-replay p ((name, kv) ∷ kvs) =
      rows-replay (api.add_metadata p name kv) kvs ∙ rw (keeps.noting p name kv) refl

  pub noted-replay :
      (p : P) (kvs : List (String × Dict String String))
      → noted (api.records (replay api p kvs)) ≡ noted (api.records p) ++ kvs
  unfolding replay noted
  noted-replay p [] = sym (append-nil _)
  noted-replay p ((name, kv) ∷ kvs) =
      noted-replay (api.add_metadata p name kv) kvs
      ∙ rw (keeps.noting p name kv, noted) (append_assoc (noted (api.records p)) _ _)

  module _ {max_bytes max_duration : Option ℕ} where
    pub open_part-Refines :
        (now : ℕ) (w : McapWriter P) (s : Recording)
        → w.max_bytes ≡ max_bytes
        → w.max_duration_ns ≡ max_duration
        → w.rotating ≡ (is_given max_bytes || is_given max_duration)
        → w.closed ≡ s.is_closed
        → w.metadata ≡ s.metadata
        → found_all api w.files ≡ map readable s.finished
        → s.current ≡ []
        → s.opened_at ≡ now
        → Refines api max_bytes max_duration (open_part api now w) s
    unfolding open_part payload_bytes schema_in rows noted
    open_part-Refines now w s bytes_limit duration_limit rotating closed metadata files none_yet
          at =
        record {
          holds = record {
            bytes_limit = bytes_limit;
            duration_limit = duration_limit;
            rotating = rotating;
            is_closed = closed;
            current = rows-replay _ w.metadata ∙ rw (keeps.started _ _, rows, none_yet) refl;
            noting = noted-replay _ w.metadata ∙ rw (keeps.started _ _, noted) metadata;
            metadata = metadata;
            bytes = rw none_yet refl;
            opened = sym at;
            tables = Tables-empty _;
            files = files;
          };
          bound = λ topic. rw none_yet (get-nil topic);
        }

    found-files :
        {w : McapWriter P} {s : Recording} (name : FileName)
        → Holds api max_bytes max_duration w s
        → found_all api ((name, api.finish w.writer) ∷ w.files)
          ≡ map readable ((s.current, s.metadata) ∷ s.finished)
    unfolding found_all found readable
    found-files {w} {s} name h =
        ap₂ (λ x y. x ∷ y) (rw (keeps.finished w.writer) (ap₂ (λ x y. (x, y)) h.current h.noting))
          h.files

    pub roll-Refines :
        (now : ℕ) {w : McapWriter P} {s : Recording}
        → Refines api max_bytes max_duration w s
        → Refines api max_bytes max_duration (roll api now w) (next_part now s)
    unfolding roll next_part
    roll-Refines now {w} {s} r =
        open_part-Refines now _ _ r.holds.bytes_limit r.holds.duration_limit r.holds.rotating
          r.holds.is_closed r.holds.metadata
          (found-files (file_name w.rotating w.part_index w.output) r.holds) refl refl

    should_roll-is_full :
        (now : ℕ) {w : McapWriter P} {s : Recording}
        → Holds api max_bytes max_duration w s
        → (w.rotating && should_roll api now w) ≡ is_full max_bytes max_duration now s
    unfolding should_roll is_full
    should_roll-is_full now {w} {s} h =
        simp (h.rotating, h.bytes_limit, h.duration_limit, h.bytes, h.opened)
          (full-given max_bytes max_duration (payload_bytes s.current) s.opened_at now)

    pub rolled-Refines :
        (checked opened : ℕ) {w : McapWriter P} {s : Recording}
        → Refines api max_bytes max_duration w s
        → Refines api max_bytes max_duration
            (rolled api checked opened w)
            (if is_full max_bytes max_duration checked s then next_part opened s else s)
    unfolding rolled
    rolled-Refines checked opened {w} {s} r =
        rw (should_roll-is_full checked r.holds)
          (elim (Bool-cases (is_full max_bytes max_duration checked s)) [
            | inl e ↦ rw e (roll-Refines opened r)
            | inr e ↦ rw e r
          ])
