-- ===== src/Mcap/Writer/Puts.antt =====
-- A message added under its channel refines a row put to the recording.
use visio_schema.Common.{
  ℕ, ◌+◌, ◌≡◌, refl, subst, ap, ap₂, inl, inr, Bool-cases, nat_eq, string_eq, str_eq, str_eq_iff,
  String, ◌∷◌, Option, none, some, length, arith, ==_refl,
}
use visio_schema.Common.Dict
use visio_schema.Common.Dict.{Dict, get-set, get-set_self}
use visio_schema.Wire.Message.{Message}
use visio_schema.Routing.Channel.{Channel}
use visio_schema.Mcap.Writer.{
  WriterApi, McapWriter, WriterError, or_default, schema_id_of, same_schema, channel_id_of,
  add_message, add_unless,
}
use visio_schema.Mcap.Writer.Contents.{Row, schema_of, rows, noted, Keeps}
use visio_schema.Mcap.Writer.Spec.{Recording, payload_bytes, schema_in, put_row}
use visio_schema.Mcap.Writer.Tables.{
  Resolves, Tables-schema_record, Tables-channel_record, Resolves-new, Tables-message_record,
  Resolves-resolved,
}
use visio_schema.Mcap.Writer.Refines.{Holds, Refines}

module _ {T : Type 0} (to_nanoseconds : T → ℕ) where
  -- The row that a write asks for.
  unfoldable pub asked_row : Message T → Channel → Row
  asked_row msg channel = record {
    topic = channel.topic;
    schema_name = channel.schema_name;
    log_time = to_nanoseconds msg.timestamp;
    sequence = msg.seq;
    payload = msg.payload;
  }

-- What a write did and what the recording says, the exceptions alike.
abbrev pub Agrees :
    {P : Type 0} (api : WriterApi P) (max_bytes max_duration : Option ℕ)
    → McapWriter P × Option WriterError
    → Recording × Option WriterError
    → Type 0
Agrees api max_bytes max_duration (w, raised) (s, refused) =
    Refines api max_bytes max_duration w s × (raised ≡ refused)

module _ {P : Type 0} (api : WriterApi P) (keeps : Keeps api)
    {max_bytes max_duration : Option ℕ} where
  pub schema_id_of-Refines :
      (w : McapWriter P) (s : Recording) (channel : Channel) (got : Option ℕ)
      → Dict.get w.schema_ids channel.schema_name ≡ got
      → Refines api max_bytes max_duration w s
      → Refines api max_bytes max_duration (schema_id_of api w channel got).0 s
        × (schema_of
              (schema_id_of api w channel got).1
              (api.records (schema_id_of api w channel got).0.writer)
            ≡ some channel.schema_name)
  unfolding schema_id_of schema_of rows noted
  schema_id_of-Refines w s channel (some id) h r =
      (r, r.holds.tables.known_schemas channel.schema_name id h)
  schema_id_of-Refines w s channel none h r =
      let written =
        keeps.schema w.writer channel.schema_name (or_default channel.schema_encoding)
          channel.schema in
      let fresh =
        keeps.schema_fresh w.writer channel.schema_name (or_default channel.schema_encoding)
          channel.schema in
      (
        record {
          holds = record {
            bytes_limit = r.holds.bytes_limit;
            duration_limit = r.holds.duration_limit;
            rotating = r.holds.rotating;
            is_closed = r.holds.is_closed;
            current = rw written r.holds.current;
            noting = rw written r.holds.noting;
            metadata = r.holds.metadata;
            bytes = r.holds.bytes;
            opened = r.holds.opened;
            tables = rw written (Tables-schema_record r.holds.tables _ _ _ _ fresh);
            files = r.holds.files;
          };
          bound = r.bound;
        },
        rw
            (
              written,
              ==_refl
                  (api.register_schema w.writer channel.schema_name
                    (or_default channel.schema_encoding) channel.schema).1,
            )
            refl,
      )

  module _ {T : Type 0} (to_nanoseconds : T → ℕ) where
    add_message-Holds :
        (w : McapWriter P) (s : Recording) (msg : Message T) (channel : Channel) (id : ℕ)
        → Holds api max_bytes max_duration w s
        → Resolves id channel.topic channel.schema_name (api.records w.writer)
        → Holds api max_bytes max_duration
            (add_message api to_nanoseconds w msg id)
            (record s { current = asked_row to_nanoseconds msg channel ∷ s.current })
    unfolding add_message rows noted payload_bytes asked_row
    add_message-Holds w s msg channel id h known =
        let ts : ℕ = to_nanoseconds msg.timestamp in
        let written = keeps.message w.writer id ts ts msg.seq msg.payload in
        record {
          bytes_limit = h.bytes_limit;
          duration_limit = h.duration_limit;
          rotating = h.rotating;
          is_closed = h.is_closed;
          current =
              rw written
                (ap₂ (λ x y. x ∷ y) (Resolves-resolved known ts msg.seq msg.payload) h.current);
          noting = rw written h.noting;
          metadata = h.metadata;
          bytes = ap (λ (n : ℕ). n + length msg.payload) h.bytes;
          opened = h.opened;
          tables = rw written (Tables-message_record h.tables id ts ts msg.seq msg.payload);
          files = h.files;
        }

    -- A channel of the topic is there, under the same schema or under another.
    pub put_bound :
        (w : McapWriter P) (s : Recording) (msg : Message T) (channel : Channel) (id : ℕ)
        (name : String)
        → Refines api max_bytes max_duration w s
        → Dict.get w.channel_schemas channel.topic ≡ some name
        → Resolves id channel.topic name (api.records w.writer)
        → Agrees api max_bytes max_duration
            (add_unless api to_nanoseconds w msg id (same_schema channel (some name)))
            (put_row s (asked_row to_nanoseconds msg channel) (some name))
    unfolding same_schema put_row add_unless asked_row add_message schema_in
    put_bound w s msg channel id name r bound known =
        elim (Bool-cases (str_eq name channel.schema_name)) [
          | inl e ↦ rw e (
            record {
              holds = add_message-Holds w s msg channel id r.holds (
                  subst (λ n. Resolves id channel.topic n (api.records w.writer))
                    ((str_eq_iff name channel.schema_name).0 e) known);
              bound = λ topic. ground (
                arith,
                bound,
                r.bound topic,
                str_eq_iff channel.topic topic,
                str_eq_iff name channel.schema_name,
                e,
              );
            },
            refl,
          )
          | inr e ↦ rw e (r, refl)
        ]

    -- The topic is new to the part.
    pub put_new :
        (w : McapWriter P) (s : Recording) (msg : Message T) (channel : Channel) (schema_id : ℕ)
        → Refines api max_bytes max_duration w s
        → Dict.get w.channel_ids channel.topic ≡ none
        → schema_of schema_id (api.records w.writer) ≡ some channel.schema_name
        → let u = channel_id_of api w channel schema_id none in
          Agrees api max_bytes max_duration
            (add_unless api to_nanoseconds u.0 msg u.1 u.2)
            (put_row s (asked_row to_nanoseconds msg channel) none)
    unfolding channel_id_of put_row add_unless rows noted add_message schema_in asked_row
    put_new w s msg channel schema_id r free known =
        let p =
          api.register_channel w.writer channel.topic (or_default channel.encoding) schema_id in
        let written =
          keeps.channel w.writer channel.topic (or_default channel.encoding) schema_id in
        let fresh =
          keeps.channel_fresh w.writer channel.topic (or_default channel.encoding) schema_id in
        (
          record {
            holds =
                add_message-Holds _ s msg channel p.1
                  (record {
                    bytes_limit = r.holds.bytes_limit;
                    duration_limit = r.holds.duration_limit;
                    rotating = r.holds.rotating;
                    is_closed = r.holds.is_closed;
                    current = rw written r.holds.current;
                    noting = rw written r.holds.noting;
                    metadata = r.holds.metadata;
                    bytes = r.holds.bytes;
                    opened = r.holds.opened;
                    tables = rw written (
                        Tables-channel_record r.holds.tables p.1 channel.topic
                          (or_default channel.encoding) channel.schema_name schema_id fresh known);
                    files = r.holds.files;
                  })
                  (rw written
                    (Resolves-new p.1 channel.topic _ channel.schema_name schema_id known));
            bound = λ topic. ground (
              arith,
              get-set w.channel_schemas channel.topic topic channel.schema_name,
              str_eq_iff channel.topic topic,
              r.bound topic,
            );
          },
          refl,
        )
