-- ===== src/Mcap/Writer/Bounds.antt =====
-- The size of the parts of a recording.
use visio_schema.Common.{
  ℕ, ◌+◌, ◌≤◌, ◌<◌, ◌≡◌, max, refl, sym, subst, inl, inr, Bool-cases, true, false, String, str_eq,
  List, [], ◌∷◌, Option, none, some, Result, ok, err, map, length, arith, All,
}
use visio_schema.Common.Dict.{Dict}
use visio_schema.Mcap.Writer.{
  WriterApi, McapWriter, WriterError, Output, MetadataValue, init, reached, expired, texts,
}
use visio_schema.Mcap.Writer.Contents.{Row, Keeps, Found, contents}
use visio_schema.Mcap.Writer.Spec.{
  Recording, payload_bytes, is_full, next_part, put_row, put_rolled, put, note, note_texts, empty,
  readable, parts,
}
use visio_schema.Mcap.Writer.Guards.{put-if, note-if}
use visio_schema.Mcap.Writer.Runs.{
  WriterCall, writes, notes, closes, advance, play, run_calls, run-parts,
}

-- The payload bytes of the messages of a file.
unfoldable pub stored_bytes : List (Option Row) → ℕ
stored_bytes [] = 0
stored_bytes (none ∷ rows) = stored_bytes rows
stored_bytes (some row ∷ rows) = stored_bytes rows + length row.payload

-- Without its last message the file is below the limit, or it holds no byte.
abbrev pub WithinOne : ℕ → List (Option Row) → Type 0
WithinOne limit [] = Unit
WithinOne limit (last ∷ before) = stored_bytes before < max limit 1

-- A file that was left for the next is not empty, and where only the size ends a part it has
-- reached the limit.
abbrev pub Reached : ℕ → Option ℕ → List (Option Row) → Type 0
Reached limit none rows = max limit 1 ≤ stored_bytes rows
Reached limit (some duration) rows = 0 < stored_bytes rows

-- The limit for every file, and what is known of those that were left.
abbrev pub Sized : ℕ → Option ℕ → List Found → Type 0
Sized limit max_duration [] = Unit
Sized limit max_duration (current ∷ left) =
    WithinOne limit current.0 × All (λ f. WithinOne limit f.0 × Reached limit max_duration f.0) left

stored_bytes-map : (rows : List Row) → stored_bytes (map some rows) ≡ payload_bytes rows
unfolding stored_bytes payload_bytes
stored_bytes-map [] = refl
stored_bytes-map (row ∷ rows) = omega (arith, stored_bytes-map rows)

module _ (limit : ℕ) (max_duration : Option ℕ) where
  record Within (s : Recording) : Type 0 where
    current : WithinOne limit (map some s.current)
    left : All (λ f. WithinOne limit f.0 × Reached limit max_duration f.0) (map readable s.finished)

  Within-Sized : {s : Recording} → Within s → Sized limit max_duration (parts s)
  unfolding parts readable
  Within-Sized h = (h.current, h.left)

  full-Reached :
      (now : ℕ) (s : Recording)
      → is_full (some limit) max_duration now s ≡ true
      → Reached limit max_duration (map some s.current)
  unfolding is_full reached expired
  full-Reached now s full =
      elim max_duration
          as (λ d. is_full (some limit) d now s ≡ true → Reached limit d (map some s.current)) [
            | none ↦ λ h. ground (arith, stored_bytes-map s.current, h)
            | some d ↦ λ h. ground (arith, stored_bytes-map s.current, h)
          ]
        full

  -- The part that a write goes to has room for it.
  Room : Recording → Type 0
  Room s = payload_bytes s.current < max limit 1

  not_full-Room :
      (now : ℕ) (s : Recording) → is_full (some limit) max_duration now s ≡ false → Room s
  unfolding Room is_full reached
  not_full-Room now s room = ground (arith, stored_bytes-map s.current)

  next_part-Room : (now : ℕ) (s : Recording) → Room (next_part now s)
  unfolding Room next_part payload_bytes
  next_part-Room now s = omega arith

  next_part-Within :
      (now : ℕ) {s : Recording}
      → Within s
      → Reached limit max_duration (map some s.current)
      → Within (next_part now s)
  unfolding next_part readable
  next_part-Within now h reached = record { current = tt; left = ((h.current, reached), h.left) }

  put_row-Within :
      (s : Recording) (row : Row) (bound : Option String)
      → Within s
      → Room s
      → Within (put_row s row bound).0
  unfolding put_row Room
  put_row-Within s row none h room = record {
    current = omega (arith, stored_bytes-map s.current);
    left = h.left;
  }
  put_row-Within s row (some name) h room = elim (Bool-cases (str_eq name row.schema_name)) [
    | inl e ↦ rw e (record { current = omega (arith, stored_bytes-map s.current); left = h.left })
    | inr e ↦ rw e h
  ]

  put-Within :
      (s : Recording) (row : Row) (checked opened : ℕ)
      → Within s
      → Within (put (some limit) max_duration s row checked opened).0
  unfolding put_rolled
  put-Within s row checked opened h = elim (Bool-cases s.is_closed) [
    | inl e ↦ rw (put-if (some limit) max_duration s row checked opened e) h
    | inr e ↦
        rw (put-if (some limit) max_duration s row checked opened e)
          (elim (Bool-cases (is_full (some limit) max_duration checked s)) [
            | inl full ↦ rw full (
                put_row-Within (next_part opened s) row _
                  (next_part-Within opened h (full-Reached checked s full))
                  (next_part-Room opened s))
            | inr room ↦ rw room (put_row-Within s row _ h (not_full-Room checked s room))
          ])
  ]

  note_texts-Within :
      (s : Recording) (name : String) (kv : Result WriterError (Dict String String))
      → Within s
      → Within (note_texts s name kv).0
  unfolding note_texts
  note_texts-Within s name (ok kv) h = record { current = h.current; left = h.left }
  note_texts-Within s name (err e) h = h

  note-Within :
      (s : Recording) (name : String) (kv : Dict String MetadataValue)
      → Within s
      → Within (note s name kv).0
  note-Within s name kv h = elim (Bool-cases s.is_closed) [
    | inl e ↦ rw (note-if s name kv e) h
    | inr e ↦ rw (note-if s name kv e) (note_texts-Within s name (texts kv) h)
  ]

  module _ {T : Type 0} (to_nanoseconds : T → ℕ) where
    advance-Within :
        (s : Recording) (call : WriterCall T)
        → Within s
        → Within (advance to_nanoseconds (some limit) max_duration s call).0
    unfolding advance
    advance-Within s (writes msg channel checked opened) h = put-Within s _ checked opened h
    advance-Within s (notes name kv) h = note-Within s name kv h
    advance-Within s closes h = record { current = h.current; left = h.left }

    play-Within :
        (s : Recording) (calls : List (WriterCall T))
        → Within s
        → Within (play to_nanoseconds (some limit) max_duration s calls).0
    unfolding play
    play-Within s [] h = h
    play-Within s (call ∷ calls) h =
        play-Within (advance to_nanoseconds (some limit) max_duration s call).0 calls
          (advance-Within s call h)

  empty-Within : (now : ℕ) → Within (empty now)
  unfolding empty
  empty-Within now = record { current = tt; left = tt }

module _ {P : Type 0} (api : WriterApi P) (keeps : Keeps api) where
  -- With `max_bytes`, whatever is written, noted and closed: every file of the writer, without
  -- its last message, holds less than `max_bytes` (or no byte at all), so that a part overshoots
  -- by at most one message; and a file that was left for the next one is not empty and, where
  -- no duration is set, has reached `max_bytes`. The mcap package keeps its records and gives
  -- out no id twice in a file.
  pub run-Sized :
      {T : Type 0} (to_nanoseconds : T → ℕ) (output : Output) (limit : ℕ) (max_duration : Option ℕ)
      (profile : String) (library : Option String) (now : ℕ) {w : McapWriter P}
      (calls : List (WriterCall T))
      → init api output (some limit) max_duration profile library now ≡ ok w
      → Sized limit max_duration (contents api (run_calls to_nanoseconds api w calls).0)
  run-Sized to_nanoseconds output limit max_duration profile library now calls made =
      let same =
        (run-parts to_nanoseconds api keeps output (some limit) max_duration profile library now
          calls made).0 in
      subst (Sized limit max_duration) (sym same) (
        Within-Sized limit max_duration (
          play-Within limit max_duration to_nanoseconds (empty now) calls
            (empty-Within limit max_duration now)))
