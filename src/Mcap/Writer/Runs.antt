-- ===== src/Mcap/Writer/Runs.antt =====
-- Every sequence of calls of the recording writer refines the recording.
use visio_schema.Common.{
  ℕ, ◌≡◌, refl, ap₂, subst, true, ◌||◌, String, List, [], ◌∷◌, Option, none, ok, chain-eq-ok,
  ok-injective,
}
use visio_schema.Common.Dict.{Dict}
use visio_schema.Wire.Message.{Message}
use visio_schema.Routing.Channel.{Channel}
use visio_schema.Mcap.Writer.{
  WriterApi, McapWriter, WriterError, MetadataValue, Output, init, check_output, is_given, write,
  add_metadata, close,
}
use visio_schema.Mcap.Writer.Contents.{Keeps, found, found_all, contents}
use visio_schema.Mcap.Writer.Spec.{Recording, put, note, empty, readable, parts}
use visio_schema.Mcap.Writer.Refines.{Refines, open_part-Refines}
use visio_schema.Mcap.Writer.Writes.{write-Agrees}
use visio_schema.Mcap.Writer.Puts.{asked_row, Agrees}
use visio_schema.Mcap.Writer.Notes.{add_metadata-Agrees, close-Refines}

-- A call, with what the clock answers during a write.
pub data WriterCall (T : Type 0) : Type 0 where
  writes : Message T → Channel → ℕ → ℕ → WriterCall T
  notes : String → Dict String MetadataValue → WriterCall T
  closes : WriterCall T

module _ {T : Type 0} (to_nanoseconds : T → ℕ) where
  module _ {P : Type 0} (api : WriterApi P) where
    unfoldable pub step : McapWriter P → WriterCall T → McapWriter P × Option WriterError
    step w (writes msg channel checked opened) =
        write api to_nanoseconds w msg channel checked opened
    step w (notes name kv) = add_metadata api w name kv
    step w closes = (close api w, none)

    -- The writer after the calls, and what each call raised.
    unfoldable pub run_calls :
        McapWriter P → List (WriterCall T) → McapWriter P × List (Option WriterError)
    run_calls w [] = (w, [])
    run_calls w (call ∷ calls) =
        let (next, raised) = step w call in
        let (last, others) = run_calls next calls in (last, raised ∷ others)

  module _ (max_bytes max_duration : Option ℕ) where
    unfoldable pub advance : Recording → WriterCall T → Recording × Option WriterError
    advance s (writes msg channel checked opened) =
        put max_bytes max_duration s (asked_row to_nanoseconds msg channel) checked opened
    advance s (notes name kv) = note s name kv
    advance s closes = (record s { is_closed = true }, none)

    unfoldable pub play : Recording → List (WriterCall T) → Recording × List (Option WriterError)
    play s [] = (s, [])
    play s (call ∷ calls) =
        let (next, raised) = advance s call in
        let (last, others) = play next calls in (last, raised ∷ others)

  module _ {P : Type 0} (api : WriterApi P) (keeps : Keeps api) where
    pub contents-parts :
        {max_bytes max_duration : Option ℕ} {w : McapWriter P} {s : Recording}
        → Refines api max_bytes max_duration w s
        → contents api w ≡ parts s
    unfolding contents parts found readable
    contents-parts r =
        ap₂ (λ x y. x ∷ y) (ap₂ (λ x y. (x, y)) r.holds.current r.holds.noting) r.holds.files

    pub init-Refines :
        (output : Output) (max_bytes max_duration : Option ℕ) (profile : String)
        (library : Option String) (now : ℕ) {w : McapWriter P}
        → init api output max_bytes max_duration profile library now ≡ ok w
        → Refines api max_bytes max_duration w (empty now)
    unfolding init empty found_all
    init-Refines output max_bytes max_duration profile library now made =
        let (_, opened, _) =
          chain-eq-ok (check_output (is_given max_bytes || is_given max_duration) output) _ made in
        subst (λ w. Refines api max_bytes max_duration w (empty now)) (ok-injective opened)
          (open_part-Refines api keeps now _ (empty now) refl refl refl refl refl refl refl refl)

    module _ {max_bytes max_duration : Option ℕ} where
      step-Agrees :
          (w : McapWriter P) (s : Recording) (call : WriterCall T)
          → Refines api max_bytes max_duration w s
          → Agrees api max_bytes max_duration
              (step api w call)
              (advance max_bytes max_duration s call)
      unfolding step advance
      step-Agrees w s (writes msg channel checked opened) r =
          write-Agrees api keeps to_nanoseconds w s msg channel checked opened r
      step-Agrees w s (notes name kv) r = add_metadata-Agrees api keeps w s name kv r
      step-Agrees w s closes r = (close-Refines api keeps w s r, refl)

      pub run-Refines :
          (w : McapWriter P) (s : Recording) (calls : List (WriterCall T))
          → Refines api max_bytes max_duration w s
          → Refines api max_bytes max_duration
              (run_calls api w calls).0
              (play max_bytes max_duration s calls).0
            × ((run_calls api w calls).1 ≡ (play max_bytes max_duration s calls).1)
      unfolding run_calls play
      run-Refines w s [] r = (r, refl)
      run-Refines w s (call ∷ calls) r =
          let (next, same) = step-Agrees w s call r in
          let (last, others) =
            run-Refines (step api w call).0 (advance max_bytes max_duration s call).0 calls next in
          (last, ap₂ (λ x y. x ∷ y) same others)

    -- Whatever is written, noted and closed, in any order: a reader finds in each file of the
    -- writer the rows and the metadata that the recording has in that part, every row under the
    -- topic and the schema name of its own channel, and each call raises what the recording
    -- refuses. The mcap package keeps its records and gives out no id twice in a file.
    pub run-parts :
        (output : Output) (max_bytes max_duration : Option ℕ) (profile : String)
        (library : Option String) (now : ℕ) {w : McapWriter P} (calls : List (WriterCall T))
        → init api output max_bytes max_duration profile library now ≡ ok w
        → (contents api (run_calls api w calls).0
            ≡ parts (play max_bytes max_duration (empty now) calls).0)
          × ((run_calls api w calls).1 ≡ (play max_bytes max_duration (empty now) calls).1)
    run-parts output max_bytes max_duration profile library now {w} calls made =
        let (r, same) =
          run-Refines w (empty now) calls
            (init-Refines output max_bytes max_duration profile library now made) in
        (contents-parts r, same)
