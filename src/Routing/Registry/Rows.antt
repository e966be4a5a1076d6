-- ===== src/Routing/Registry/Rows.antt =====
-- The rows that a registry makes of a stream of messages.
use visio_schema.Common.{
  ℕ, ◌+◌, ◌≤◌, ◌<◌, ◌==◌, ltb, if◌then◌else◌, nat_eq, string_eq, ◌≡◌, refl, List, [], ◌∷◌, Option,
  none, some, Option-cases, Bool-cases, inl, inr, ◌≢◌, ◌∙◌, length, length-append, All, All-append,
  arith,
}
use visio_schema.Common.Dict
use visio_schema.Wire.Message.{Message}
use visio_schema.Routing.Channel.{Channel, Routed, first_dynamic, device_info}
use visio_schema.Routing.Registry.{
  Registry, DeviceInfo, conflicts, put_channel, learn, learn_or_log, learn_all,
}
use visio_schema.Routing.Registry.Inbound.{on_announce, accept, row_of, resolved}
use visio_schema.Routing.Registry.Invariant.{IsValid, learn_all-IsValid}

-- An announce leaves the counter alone.
learn_all-dropped :
    (r : Registry) (chs : List Channel) → (learn_all r chs).dropped_unmapped ≡ r.dropped_unmapped
unfolding learn_all learn_or_log learn put_channel
learn_all-dropped r [] = refl
learn_all-dropped r (ch ∷ chs) =
    elim (Bool-cases (conflicts (Dict.get r.topic_to_id ch.topic) ch.id)) [
      | inl e ↦ learn_all-dropped (learn_or_log r ch) chs ∙ rw (e, learn_or_log)
      | inr e ↦ learn_all-dropped (learn_or_log r ch) chs ∙ rw (e, learn_or_log)
    ]

module _ (parse : List ℕ → Option DeviceInfo) where
  pub on_announce-IsValid :
      (r : Registry) (payload : List ℕ) → IsValid r → IsValid (on_announce parse r payload)
  unfolding on_announce
  on_announce-IsValid r payload v = elim (Option-cases (parse payload)) [
    | inl e ↦ rw (e, on_announce) v
    | inr (di, e) ↦ rw (e, on_announce) (learn_all-IsValid r di.channels v)
  ]

  on_announce-dropped :
      (r : Registry) (payload : List ℕ)
      → (on_announce parse r payload).dropped_unmapped ≡ r.dropped_unmapped
  unfolding on_announce
  on_announce-dropped r payload = elim (Option-cases (parse payload)) [
    | inl e ↦ rw (e, on_announce)
    | inr (di, e) ↦ rw (e, on_announce) (learn_all-dropped r di.channels)
  ]

module _ {T : Type 0} (parse : List ℕ → Option DeviceInfo) where
  -- The four outcomes that the method's documentation lists.
  pub data Verdict (r : Registry) (m : Message T) : Routed T × Registry → Type 0 where
    announce :
        m.stream_id ≡ device_info
        → Verdict r m (record { message = none; channel = none }, on_announce parse r m.payload)
    control :
        m.stream_id ≢ device_info
        → m.stream_id < first_dynamic
        → Verdict r m (record { message = some m; channel = none }, r)
    unmapped :
        first_dynamic ≤ m.stream_id
        → Dict.get r.by_id m.stream_id ≡ none
        → Verdict r m (
          record { message = none; channel = none },
          record r { dropped_unmapped = r.dropped_unmapped + 1 },
        )
    row :
        (ch : Channel)
        → first_dynamic ≤ m.stream_id
        → Dict.get r.by_id m.stream_id ≡ some ch
        → Verdict r m (record { message = some m; channel = some ch }, r)

  -- Every message gets the verdict that its id and the registry ask for: announces are learned
  -- and absorbed, other control messages pass, data messages are paired with the channel of
  -- their id or dropped and counted.
  pub accept-Verdict : (r : Registry) (m : Message T) → Verdict r m (accept parse r m)
  unfolding accept
  accept-Verdict r m = elim (Bool-cases (m.stream_id == device_info)) [
    | inl e ↦ rw e (announce (ground arith))
    | inr e ↦ elim (Bool-cases (ltb m.stream_id first_dynamic)) [
      | inl f ↦ rw (e, f) (control (ground arith) (ground arith))
      | inr f ↦ elim (Option-cases (Dict.get r.by_id m.stream_id)) [
        | inl g ↦ rw (e, f, g, accept) (unmapped (ground arith) g)
        | inr (ch, g) ↦ rw (e, f, g, accept) (row ch (ground arith) g)
      ]
    ]
  ]

  pub Verdict-IsValid :
      {r : Registry} {m : Message T} {x : Routed T × Registry}
      → Verdict r m x
      → IsValid r
      → IsValid x.1
  Verdict-IsValid {r} {m} (announce _) v = on_announce-IsValid parse r m.payload v
  Verdict-IsValid (control _ _) v = v
  Verdict-IsValid (unmapped _ _) v = record { tables = v.tables; owned = v.owned }
  Verdict-IsValid (row ch _ _) v = v

  -- A row pairs a data message with the channel that its id stood for.
  abbrev pub IsRow : Option (Message T) × Channel → Type 0
  IsRow (none, ch) = ⊥
  IsRow (some m, ch) = (first_dynamic ≤ m.stream_id) × (ch.id ≡ m.stream_id)

  Verdict-IsRow :
      {r : Registry} {m : Message T} {x : Routed T × Registry}
      → Verdict r m x
      → IsValid r
      → All IsRow (row_of x.0)
  unfolding row_of
  Verdict-IsRow (announce _) v = tt
  Verdict-IsRow (control _ _) v = tt
  Verdict-IsRow (unmapped _ _) v = tt
  Verdict-IsRow {m = m} (row ch data_id found) v =
      ((data_id, v.tables.id_of m.stream_id ch found), tt)

  -- What the message adds to the rows and to the counter.
  Verdict-count :
      {r : Registry} {m : Message T} {x : Routed T × Registry}
      → Verdict r m x
      → length (row_of x.0) + x.1.dropped_unmapped
        ≡ r.dropped_unmapped + (if ltb m.stream_id first_dynamic then 0 else 1)
  unfolding row_of
  Verdict-count {r} {m} (announce e) = ground (arith, on_announce-dropped parse r m.payload)
  Verdict-count (control e f) = ground arith
  Verdict-count (unmapped f g) = ground arith
  Verdict-count (row ch f g) = ground arith

  -- The registry stays valid, and every row that is yielded is a data message beside the channel of its id.
  pub resolved-IsRow :
      (r : Registry) (ms : List (Message T))
      → IsValid r
      → All IsRow (resolved parse r ms).0 × IsValid (resolved parse r ms).1
  unfolding resolved
  resolved-IsRow r [] v = (tt, v)
  resolved-IsRow r (m ∷ ms) v =
      let (rows, last) =
        resolved-IsRow (accept parse r m).1 ms (Verdict-IsValid (accept-Verdict r m) v) in
      (All-append IsRow _ _ (Verdict-IsRow (accept-Verdict r m) v) rows, last)

  -- The messages on dynamic streams.
  unfoldable pub data_count : List (Message T) → ℕ
  data_count [] = 0
  data_count (m ∷ ms) = if ltb m.stream_id first_dynamic then data_count ms else data_count ms + 1

  -- Every data message is yielded or counted as dropped: none vanishes.
  pub resolved-count :
      (r : Registry) (ms : List (Message T))
      → length (resolved parse r ms).0 + (resolved parse r ms).1.dropped_unmapped
        ≡ r.dropped_unmapped + data_count ms
  unfolding resolved data_count
  resolved-count r [] = omega arith
  resolved-count r (m ∷ ms) = ground (
    arith,
    length-append (row_of (accept parse r m).0) (resolved parse (accept parse r m).1 ms).0,
    resolved-count (accept parse r m).1 ms,
    Verdict-count (accept-Verdict r m),
  )
