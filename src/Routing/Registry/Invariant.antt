-- ===== src/Routing/Registry/Invariant.antt =====
-- The tables of a registry agree, whatever is declared, learned and forgotten.
use visio_schema.Common.{
  ℕ, ◌+◌, ◌<◌, ◌==◌, true, false, nat_eq, string_eq, str_eq_iff, String, ◌≡◌, refl, List, [], ◌∷◌,
  none, some, Option-cases, inl, inr, Bool-cases, Result, ok, err, arith,
}
use visio_schema.Common.Dict
use visio_schema.Common.Dict.{Dict}
use visio_schema.Common.Sets
use visio_schema.Routing.Channel.{Channel}
use visio_schema.Routing.Registry.{
  Registry, RegistryError, Identity, Entry, channel, output, put_channel, declare, declare_new,
  learn, learn_or_log, learn_all, forget_one, forget, free_topic, conflicts, init, declare_entries,
  declare_entry,
}

-- Every channel stands under its own id, and its topic maps to that id.
pub record Agree (by_id : Dict ℕ Channel) (topic_to_id : Dict String ℕ) : Type 0 where
  pub id_of : (cid : ℕ) (ch : Channel) → Dict.get by_id cid ≡ some ch → ch.id ≡ cid
  pub topic_of :
      (cid : ℕ) (ch : Channel)
      → Dict.get by_id cid ≡ some ch
      → Dict.get topic_to_id ch.topic ≡ some cid

-- Every own id has a channel, and no own id is still to be allocated.
pub record Owns (by_id : Dict ℕ Channel) (own_ids : List ℕ) (next_id : ℕ) : Type 0 where
  pub present :
      (cid : ℕ) → Sets.member cid own_ids ≡ true → (ch : Channel) × (Dict.get by_id cid ≡ some ch)
  pub allocated : (cid : ℕ) → Sets.member cid own_ids ≡ true → cid < next_id

-- A topic is therefore live under one id only.
pub record IsValid (r : Registry) : Type 0 where
  pub tables : Agree r.by_id r.topic_to_id
  pub owned : Owns r.by_id r.own_ids r.next_id

module _ {by_id : Dict ℕ Channel} {topics : Dict String ℕ} (a : Agree by_id topics) where
  -- writing a channel under its id, where its topic is free or already maps to that id
  Agree-set :
      (ch : Channel)
      → conflicts (Dict.get topics ch.topic) ch.id ≡ false
      → Agree (Dict.set by_id ch.id ch) (Dict.set topics ch.topic ch.id)
  unfolding conflicts
  Agree-set ch free = record {
    id_of = λ cid c' h. ground (arith, Dict.get-set by_id ch.id cid ch, a.id_of cid c');
    topic_of = λ cid c' h. ground (
      arith,
      Dict.get-set by_id ch.id cid ch,
      Dict.get-set topics ch.topic c'.topic ch.id,
      a.topic_of cid c',
      str_eq_iff ch.topic c'.topic,
    );
  }

  -- dropping a channel, and its topic with it
  Agree-pop : (cid : ℕ) → Agree (Dict.pop by_id cid) (free_topic topics (Dict.get by_id cid) cid)
  unfolding free_topic
  Agree-pop cid = record {
    id_of = λ k ch h. ground (arith, Dict.get-pop by_id cid k, a.id_of k ch);
    topic_of = λ k ch h.
        let kept : Dict.get by_id k ≡ some ch = ground (arith, Dict.get-pop by_id cid k) in
        elim (Option-cases (Dict.get by_id cid)) [
          | inl e ↦ rw e (a.topic_of k ch kept)
          | inr (old, e) ↦ rw e (
              ground (
                arith,
                Dict.get-pop by_id cid k,
                Dict.get-pop topics old.topic ch.topic,
                a.topic_of k ch,
                a.topic_of cid old,
                str_eq_iff old.topic ch.topic,
              ))
        ];
  }

module _ {by_id : Dict ℕ Channel} {own : List ℕ} {next : ℕ} (o : Owns by_id own next) where
  Owns-set : (ch : Channel) → Owns (Dict.set by_id ch.id ch) own next
  Owns-set ch = record {
    present = λ k h.
        let (c', e) = o.present k h in
        elim (Bool-cases (ch.id == k)) [
          | inl same ↦ (ch, rw (Dict.get-set, same) refl)
          | inr other ↦ (c', rw (Dict.get-set, other) e)
        ];
    allocated = o.allocated;
  }

  Owns-pop : (cid : ℕ) → Owns (Dict.pop by_id cid) (Sets.discard cid own) next
  Owns-pop cid = record {
    present = λ k h.
        let kept : (cid == k ≡ false) × (Sets.member k own ≡ true) =
          ground (arith, Sets.member-discard cid k own) in
        let (ch, e) = o.present k kept.1 in (ch, rw (Dict.get-pop, kept.0) e);
    allocated = λ k h. o.allocated k (ground (arith, Sets.member-discard cid k own));
  }

  -- a fresh id becomes an own output
  Owns-declare :
      (ch : Channel) → ch.id ≡ next → Owns (Dict.set by_id ch.id ch) (Sets.add ch.id own) (next + 1)
  Owns-declare ch fresh = record {
    present = λ k h. elim (Bool-cases (ch.id == k)) [
      | inl same ↦ (ch, rw (Dict.get-set, same) refl)
      | inr other ↦
          let (c', e) = o.present k (ground (arith, Sets.member-add ch.id k own)) in
          (c', rw (Dict.get-set, other) e)
    ];
    allocated = λ k h. ground (arith, Sets.member-add ch.id k own, o.allocated k);
  }

-- A channel is learned unless its topic is live under another id.
pub learn-eq-ok :
    (r : Registry) {r' : Registry} (ch : Channel)
    → learn r ch ≡ ok r'
    → (conflicts (Dict.get r.topic_to_id ch.topic) ch.id ≡ false) × (r' ≡ put_channel r ch)
unfolding learn
learn-eq-ok r ch learned = ground arith

put_channel-IsValid :
    {r : Registry} (ch : Channel)
    → IsValid r
    → conflicts (Dict.get r.topic_to_id ch.topic) ch.id ≡ false
    → IsValid (put_channel r ch)
unfolding put_channel
put_channel-IsValid ch v free = record {
  tables = Agree-set v.tables ch free;
  owned = Owns-set v.owned ch;
}

pub learn-IsValid :
    (r : Registry) {r' : Registry} (ch : Channel) → IsValid r → learn r ch ≡ ok r' → IsValid r'
learn-IsValid r ch v learned =
    let (free, same) = learn-eq-ok r ch learned in rw same (put_channel-IsValid ch v free)

pub learn_or_log-IsValid : (r : Registry) (ch : Channel) → IsValid r → IsValid (learn_or_log r ch)
unfolding learn_or_log
learn_or_log-IsValid r ch v = go (learn r ch) refl
  where
    go :
        (result : Result RegistryError Registry) → learn r ch ≡ result → IsValid (learn_or_log r ch)
    go (ok r') e = rw (e, learn_or_log) (learn-IsValid r ch v e)
    go (err x) e = rw (e, learn_or_log) v

pub learn_all-IsValid : (r : Registry) (chs : List Channel) → IsValid r → IsValid (learn_all r chs)
unfolding learn_all
learn_all-IsValid r [] v = v
learn_all-IsValid r (ch ∷ chs) v =
    learn_all-IsValid (learn_or_log r ch) chs (learn_or_log-IsValid r ch v)

pub forget_one-IsValid : {r : Registry} (cid : ℕ) → IsValid r → IsValid (forget_one r cid)
unfolding forget_one
forget_one-IsValid cid v = record { tables = Agree-pop v.tables cid; owned = Owns-pop v.owned cid }

pub forget-IsValid : (r : Registry) (ids : List ℕ) → IsValid r → IsValid (forget r ids)
unfolding forget
forget-IsValid r [] v = v
forget-IsValid r (cid ∷ ids) v = forget-IsValid (forget_one r cid) ids (forget_one-IsValid cid v)

declare_new-IsValid :
    (r : Registry) (topic schema_name : String) (schema : List ℕ)
    (encoding schema_encoding : String)
    → IsValid r
    → Dict.get r.topic_to_id topic ≡ none
    → IsValid (declare_new r topic schema_name schema encoding schema_encoding).1
unfolding declare_new conflicts
declare_new-IsValid r topic schema_name schema encoding schema_encoding v e = record {
  tables = Agree-set v.tables _ (rw (e, conflicts));
  owned = Owns-declare v.owned _ refl;
}

pub declare-IsValid :
    (r : Registry) (topic schema_name : String) (schema : List ℕ)
    (encoding schema_encoding : String)
    → IsValid r
    → IsValid (declare r topic schema_name schema encoding schema_encoding).1
unfolding declare
declare-IsValid r topic schema_name schema encoding schema_encoding v =
    elim (Option-cases (Dict.get r.topic_to_id topic)) [
      | inr (cid, e) ↦ rw (e, declare) v
      | inl e ↦ rw (e, declare) (declare_new-IsValid r topic _ _ _ _ v e)
    ]

module _ (fds : String → List ℕ) where
  declare_entry-IsValid : (r : Registry) (e : Entry) → IsValid r → IsValid (declare_entry fds r e).1
  unfolding declare_entry
  declare_entry-IsValid r (channel ch) v = declare-IsValid r _ _ _ _ _ v
  declare_entry-IsValid r (output topic schema_name) v = declare-IsValid r _ _ _ _ _ v

  declare_entries-IsValid :
      (r : Registry) (es : List Entry) → IsValid r → IsValid (declare_entries fds r es)
  unfolding declare_entries
  declare_entries-IsValid r [] v = v
  declare_entries-IsValid r (e ∷ es) v =
      declare_entries-IsValid (declare_entry fds r e).1 es (declare_entry-IsValid r e v)

  -- A new registry is valid, whatever channels it is given.
  pub init-IsValid :
      (identity : Identity) (entries : List Entry) → IsValid (init fds identity entries)
  unfolding init
  init-IsValid identity entries = declare_entries-IsValid _ entries (record {
    tables = record {
      id_of = λ cid ch h. cc (Dict.get-nil {V = Channel} cid);
      topic_of = λ cid ch h. cc (Dict.get-nil {V = Channel} cid);
    };
    owned = record {
      present = λ cid h. absurd (cc (Sets.member-nil cid));
      allocated = λ cid h. absurd (cc (Sets.member-nil cid));
    };
  })
