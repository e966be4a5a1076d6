-- ===== src/Mcap/Writer/Writes.antt =====
-- One write of the recording writer refines one step of the recording.
use visio_schema.Common.{
  ℕ, ◌≡◌, refl, sym, ◌∙◌, inl, inr, Bool-cases, nat_eq, string_eq, Option, none, some,
}
use visio_schema.Common.Dict
use visio_schema.Common.Dict.{Dict, get-set, get-set_self}
use visio_schema.Wire.Message.{Message}
use visio_schema.Routing.Channel.{Channel}
use visio_schema.Mcap.Writer.{
  WriterApi, McapWriter, schema_id_of, channel_id_of, add_unless, write_open, write,
}
use visio_schema.Mcap.Writer.Contents.{schema_of, Keeps}
use visio_schema.Mcap.Writer.Spec.{Recording, put_row, put_rolled, put}
use visio_schema.Mcap.Writer.Guards.{write-if, put-if}
use visio_schema.Mcap.Writer.Puts.{asked_row, Agrees, schema_id_of-Refines, put_bound, put_new}
use visio_schema.Mcap.Writer.Refines.{Refines, rolled-Refines}

module _ {P : Type 0} (api : WriterApi P) (keeps : Keeps api)
    {max_bytes max_duration : Option ℕ} where
  module _ {T : Type 0} (to_nanoseconds : T → ℕ) where
    put_any :
        (w : McapWriter P) (s : Recording) (msg : Message T) (channel : Channel) (schema_id : ℕ)
        (got : Option ℕ)
        → Refines api max_bytes max_duration w s
        → Dict.get w.channel_ids channel.topic ≡ got
        → schema_of schema_id (api.records w.writer) ≡ some channel.schema_name
        → let u = channel_id_of api w channel schema_id got in
          Agrees api max_bytes max_duration (add_unless api to_nanoseconds u.0 msg u.1 u.2) (
            put_row s
              (asked_row to_nanoseconds msg channel)
              (Dict.get w.channel_schemas channel.topic))
    unfolding channel_id_of
    put_any w s msg channel schema_id none r got known =
        rw (r.holds.tables.unbound channel.topic got)
          (put_new api keeps to_nanoseconds w s msg channel schema_id r got known)
    put_any w s msg channel schema_id (some id) r got known =
        let (name, bound, at) = r.holds.tables.known_channels channel.topic id got in
        rw bound (put_bound api keeps to_nanoseconds w s msg channel id name r bound at)

    write_open-Agrees :
        (w : McapWriter P) (s : Recording) (msg : Message T) (channel : Channel)
        → Refines api max_bytes max_duration w s
        → Agrees api max_bytes max_duration
            (write_open api to_nanoseconds w msg channel)
            (put_rolled s (asked_row to_nanoseconds msg channel))
    unfolding write_open put_rolled asked_row
    write_open-Agrees w s msg channel r =
        let got = Dict.get w.schema_ids channel.schema_name in
        let (r', known) = schema_id_of-Refines api keeps w s channel got refl r in
        let v = (schema_id_of api w channel got).0 in
        rw (sym (r'.bound channel.topic)) (
          put_any v s msg channel (schema_id_of api w channel got).1
            (Dict.get v.channel_ids channel.topic) r' refl known)

    pub write-Agrees :
        (w : McapWriter P) (s : Recording) (msg : Message T) (channel : Channel)
        (checked opened : ℕ)
        → Refines api max_bytes max_duration w s
        → Agrees api max_bytes max_duration
            (write api to_nanoseconds w msg channel checked opened)
            (put max_bytes max_duration s (asked_row to_nanoseconds msg channel) checked opened)
    write-Agrees w s msg channel checked opened r = elim (Bool-cases s.is_closed) [
      | inl e ↦
          rw
            (
              write-if api to_nanoseconds w msg channel checked opened (r.holds.is_closed ∙ e),
              put-if max_bytes max_duration s (asked_row to_nanoseconds msg channel) checked opened
                  e,
            )
            (r, refl)
      | inr e ↦
          rw
            (
              write-if api to_nanoseconds w msg channel checked opened (r.holds.is_closed ∙ e),
              put-if max_bytes max_duration s (asked_row to_nanoseconds msg channel) checked opened
                  e,
            )
            (write_open-Agrees _ _ msg channel (rolled-Refines api keeps checked opened r))
    ]
