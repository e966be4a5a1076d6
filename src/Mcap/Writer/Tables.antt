-- ===== src/Mcap/Writer/Tables.antt =====
-- The id tables of the recording writer against the records of its file.
use visio_schema.Common.{
  ℕ, ◌≡◌, refl, Bool-cases, nat_eq, string_eq, str_eq, str_eq_iff, String, List, [], ◌∷◌, none,
  some, inl, inr, arith, ==_refl,
}
use visio_schema.Common.Dict
use visio_schema.Common.Dict.{Dict, get-set, get-set_self, get-nil}
use visio_schema.Mcap.Writer.{
  Record, schema_record, channel_record, message_record, metadata_record,
}
use visio_schema.Mcap.Writer.Contents.{schema_of, channel_of, named, attributed}

pub record Resolves (id : ℕ) (topic name : String) (file : List Record) : Type 0 where
  pub schema_id : ℕ
  pub channel : channel_of id file ≡ some (topic, schema_id)
  pub schema : schema_of schema_id file ≡ some name

pub record Tables (file : List Record) (schema_ids channel_ids : Dict String ℕ)
    (channel_schemas : Dict String String) : Type 0 where
  pub known_schemas :
      (name : String) (id : ℕ) → Dict.get schema_ids name ≡ some id → schema_of id file ≡ some name
  pub known_channels :
      (topic : String) (id : ℕ)
      → Dict.get channel_ids topic ≡ some id
      → (name : String) × (Dict.get channel_schemas topic ≡ some name) × Resolves id topic name file
  pub unbound :
      (topic : String) → Dict.get channel_ids topic ≡ none → Dict.get channel_schemas topic ≡ none

pub Resolves-resolved :
    {id : ℕ} {topic name : String} {file : List Record}
    → Resolves id topic name file
    → (log_time sequence : ℕ) (payload : List ℕ)
    → attributed (channel_of id file) file log_time sequence payload
      ≡ some (record {
        topic = topic;
        schema_name = name;
        log_time = log_time;
        sequence = sequence;
        payload = payload;
      })
unfolding attributed named
Resolves-resolved r log_time sequence payload = rw (r.channel, attributed, r.schema, named) refl

pub Resolves-new :
    {file : List Record} (id : ℕ) (topic encoding name : String) (schema_id : ℕ)
    → schema_of schema_id file ≡ some name
    → Resolves id topic name (channel_record id topic encoding schema_id ∷ file)
unfolding schema_of channel_of
Resolves-new id topic encoding name schema_id known = record {
  schema_id = schema_id;
  channel = rw (==_refl id) refl;
  schema = known;
}

pub Tables-empty : (file : List Record) → Tables file [] [] []
Tables-empty file = record {
  known_schemas = λ name id h. absurd (ground (arith, get-nil {V = ℕ} name, h));
  known_channels = λ topic id h. absurd (ground (arith, get-nil {V = ℕ} topic, h));
  unbound = λ topic h. get-nil topic;
}

module _ {file : List Record} {schema_ids channel_ids : Dict String ℕ}
    {channel_schemas : Dict String String}
    (t : Tables file schema_ids channel_ids channel_schemas) where
  Resolves-schema_record :
      {id : ℕ} {topic name : String}
      → Resolves id topic name file
      → (new : ℕ) (schema_name encoding : String) (bytes : List ℕ) → schema_of new file ≡ none
      → Resolves id topic name (schema_record new schema_name encoding bytes ∷ file)
  unfolding schema_of channel_of
  Resolves-schema_record r new schema_name encoding bytes fresh = record {
    schema_id = r.schema_id;
    channel = r.channel;
    schema = ground (arith, r.schema, fresh);
  }

  pub Tables-schema_record :
      (id : ℕ) (name encoding : String) (bytes : List ℕ)
      → schema_of id file ≡ none
      → Tables
          (schema_record id name encoding bytes ∷ file)
          (Dict.set schema_ids name id)
          channel_ids
          channel_schemas
  unfolding schema_of
  Tables-schema_record id name encoding bytes fresh = record {
    known_schemas = λ n i h.
        ground (arith, get-set schema_ids name n id, str_eq_iff name n, t.known_schemas n i, fresh);
    known_channels = λ topic i h.
        let (n, bound, r) = t.known_channels topic i h in
        (n, bound, Resolves-schema_record r id name encoding bytes fresh);
    unbound = t.unbound;
  }

  Resolves-channel_record :
      {id : ℕ} {topic name : String}
      → Resolves id topic name file
      → (new : ℕ) (new_topic encoding : String) (schema_id : ℕ) → channel_of new file ≡ none
      → Resolves id topic name (channel_record new new_topic encoding schema_id ∷ file)
  unfolding schema_of channel_of
  Resolves-channel_record r new new_topic encoding schema_id fresh = record {
    schema_id = r.schema_id;
    channel = ground (arith, r.channel, fresh);
    schema = r.schema;
  }

  pub Tables-channel_record :
      (id : ℕ) (topic encoding name : String) (schema_id : ℕ)
      → channel_of id file ≡ none
      → schema_of schema_id file ≡ some name
      → Tables
          (channel_record id topic encoding schema_id ∷ file)
          schema_ids
          (Dict.set channel_ids topic id)
          (Dict.set channel_schemas topic name)
  unfolding schema_of channel_of
  Tables-channel_record id topic encoding name schema_id fresh known = record {
    known_schemas = t.known_schemas;
    known_channels = λ other i h. elim (Bool-cases (str_eq topic other)) [
      | inl e ↦ (
        name,
        ground (arith, get-set channel_schemas topic other name, e),
        record {
          schema_id = schema_id;
          channel =
              ground (arith, get-set channel_ids topic other id, str_eq_iff topic other, e, h);
          schema = known;
        },
      )
      | inr e ↦
          let (n, bound, r) =
            t.known_channels other i (ground (arith, get-set channel_ids topic other id, e, h)) in
          (
            n,
            ground (arith, get-set channel_schemas topic other name, e, bound),
            Resolves-channel_record r id topic encoding schema_id fresh,
          )
    ];
    unbound = λ other h. ground (
      arith,
      get-set channel_ids topic other id,
      get-set channel_schemas topic other name,
      t.unbound other,
    );
  }

  pub Tables-message_record :
      (id log_time publish_time sequence : ℕ) (payload : List ℕ)
      → Tables
          (message_record id log_time publish_time sequence payload ∷ file)
          schema_ids
          channel_ids
          channel_schemas
  unfolding schema_of channel_of
  Tables-message_record id log_time publish_time sequence payload = record {
    known_schemas = t.known_schemas;
    known_channels = λ topic i h.
        let (n, bound, r) = t.known_channels topic i h in
        (n, bound, record { schema_id = r.schema_id; channel = r.channel; schema = r.schema });
    unbound = t.unbound;
  }

  pub Tables-metadata_record :
      (name : String) (kv : Dict String String)
      → Tables (metadata_record name kv ∷ file) schema_ids channel_ids channel_schemas
  unfolding schema_of channel_of
  Tables-metadata_record name kv = record {
    known_schemas = t.known_schemas;
    known_channels = λ topic i h.
        let (n, bound, r) = t.known_channels topic i h in
        (n, bound, record { schema_id = r.schema_id; channel = r.channel; schema = r.schema });
    unbound = t.unbound;
  }
