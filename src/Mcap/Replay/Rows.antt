-- ===== src/Mcap/Replay/Rows.antt =====
-- The rows of a recording, and what a registry hears of one row of its replay.
use visio_schema.Common.{
  ℕ, ◌≤◌, ◌≡◌, refl, ap, ap₂, ◌∙◌, if◌then◌else◌, Bool, true, false, ◌||◌, String, str_eq,
  string_eq, nat_eq, List, [], ◌∷◌, ◌++◌, map, Option, none, some, Result, ok, err, chain, arith,
  beq_iff,
}
use visio_schema.Common.Dict
use visio_schema.Common.Sets
use visio_schema.Common.Sets.{member-add}
use visio_schema.Wire.Message.{Message}
use visio_schema.Routing.Channel.{Channel, Routed}
use visio_schema.Routing.Registry.{
  DeviceInfo, Registry, RegistryError, key_error, local_id_for, own_channels, self_info, learn_all,
}
use visio_schema.Routing.Registry.Inbound.{on_announce, row_of, accept, resolved}
use visio_schema.Mcap.Replay.{
  Played, Replayed, device_info_topic, delivered, left, declared, announce, renumbered, deliver_row,
  paced, announced,
}
use visio_schema.Mcap.Replay.Known.{Declares, Follows}

-- The same test leads to related branches.
pub if-both {ℓ κ} :
    {A B : Type ℓ} (R : A → B → Type κ) (b : Bool) {x y : A} {x' y' : B}
    → R x x'
    → R y y'
    → R (if b then x else y) (if b then x' else y')
if-both R true h k = h
if-both R false h k = k

pub member-added : (t : String) (seen : List String) → Sets.member t (Sets.add t seen) ≡ true
member-added t seen = ground (arith, member-add t t seen, beq_iff t t)

-- A message with the topic of its channel: what a recording says of it.
abbrev pub View : Type 0 → Type 0
View T = Option (String × ℕ × T × List ℕ)

unfoldable pub info_of : Result RegistryError DeviceInfo → List DeviceInfo
info_of (ok info) = info ∷ []
info_of (err e) = []

module _ {T : Type 0} where
  unfoldable pub view : Option (Message T) × Channel → View T
  view (none, ch) = none
  view (some msg, ch) = some (ch.topic, msg.seq, msg.timestamp, msg.payload)

  -- The recorded messages, less the announces, up to a stop.
  unfoldable pub recorded_rows : List (Played T) → List (View T)
  recorded_rows [] = []
  recorded_rows (row ∷ rows) =
      let rest = recorded_rows rows in
      if row.stopped_before
      then []
      else if str_eq row.channel.topic device_info_topic
      then rest
      else if row.stopped_in_delay
      then []
      else view (some row.recorded, row.channel) ∷ rest

  -- What a replay without stops announces.
  unfoldable pub infos : Registry → List String → List (Played T) → List DeviceInfo
  infos reg seen [] = []
  infos reg seen (row ∷ rows) =
      let topic : String = row.channel.topic in
      let known : Bool = Sets.member topic seen in
      let next : Registry = if known then reg else declared reg row.channel in
      let skip : Bool = str_eq topic device_info_topic in
      let rest =
        infos (if skip then reg else next) (if skip || known then seen else Sets.add topic seen)
          rows in
      if skip then rest else if known then rest else info_of (self_info next) ++ rest

  module _ (unstamped : T) (serialize : DeviceInfo → List ℕ)
      (parse : List ℕ → Option DeviceInfo) where
    -- It reads back as it was serialized.
    abbrev pub Parses : DeviceInfo → Type 0
    Parses info = parse (serialize info) ≡ some info

    unfoldable pub Rel : Registry → Replayed T → List (View T) → Type 0
    Rel consumer r views =
        (map view (resolved parse consumer r.inbound).0 ≡ views) × (r.raised ≡ none)

    resolved-cons :
        (consumer : Registry) (m : Message T) (ms : List (Message T)) {routed : Routed T}
        {next : Registry}
        → accept parse consumer m ≡ (routed, next)
        → (resolved parse consumer (m ∷ ms)).0 ≡ row_of routed ++ (resolved parse next ms).0
    unfolding resolved
    resolved-cons consumer m ms e =
        ap (λ (p : Routed T × Registry). row_of p.0 ++ (resolved parse p.1 ms).0) e

    accept-data :
        (consumer : Registry) (m : Message T) (i : ℕ) {ch : Channel}
        → Dict.get consumer.by_id i ≡ some ch
        → 16 ≤ i
        → accept parse consumer (renumbered m i)
          ≡ (record { message = some (renumbered m i); channel = some ch }, consumer)
    unfolding accept renumbered
    accept-data consumer m i at_id high = ground (arith, at_id, high)

    accept-announce :
        (consumer : Registry) (info : DeviceInfo)
        → Parses info
        → accept parse consumer (announce unstamped serialize info)
          ≡ (record { message = none; channel = none }, learn_all consumer info.channels)
    unfolding accept announce on_announce
    accept-announce consumer info parsed =
        ap
          (λ (o : Option DeviceInfo). (
            record { message = none; channel = none },
            elim o [ none ↦ consumer | some di ↦ learn_all consumer di.channels ],
          ))
          parsed

    pub left-Rel : (consumer : Registry) → Rel consumer (left none) []
    unfolding Rel left resolved
    left-Rel consumer = (refl, refl)

    deliver_row-Rel :
        (consumer : Registry) (row : Played T) (i : ℕ) {ch : Channel} (rest : Replayed T)
        (views : List (View T))
        → Dict.get consumer.by_id i ≡ some ch
        → ch.topic ≡ row.channel.topic
        → 16 ≤ i
        → Rel consumer rest views
        → Rel consumer (deliver_row row (ok i) rest) (view (some row.recorded, row.channel) ∷ views)
    unfolding Rel deliver_row delivered row_of view renumbered
    deliver_row-Rel consumer row i rest views at_id same high h = (
      ap (map view) (
            resolved-cons consumer (renumbered row.recorded i) rest.inbound
              (accept-data consumer row.recorded i at_id high))
          ∙ ap₂
              (λ (t : String) vs.
                some (t, row.recorded.seq, row.recorded.timestamp, row.recorded.payload) ∷ vs)
              same h.0,
      h.1,
    )

    pub deliver-Rel :
        (consumer : Registry) (row : Played T) (i : ℕ) {ch : Channel} (rest : Replayed T)
        (views : List (View T))
        → Dict.get consumer.by_id i ≡ some ch
        → ch.topic ≡ row.channel.topic
        → 16 ≤ i
        → Rel consumer rest views
        → Rel consumer
            (paced row (ok i) rest)
            (if row.stopped_in_delay then [] else view (some row.recorded, row.channel) ∷ views)
    unfolding paced
    deliver-Rel consumer row i rest views at_id same high h =
        if-both (Rel consumer) row.stopped_in_delay (left-Rel consumer)
          (deliver_row-Rel consumer row i rest views at_id same high h)

    pub announced-Rel :
        (consumer : Registry) (info : DeviceInfo) (rest : Replayed T) (views : List (View T))
        → Parses info
        → Rel (learn_all consumer info.channels) rest views
        → Rel consumer (announced unstamped serialize (ok info) rest) views
    unfolding Rel announced delivered row_of
    announced-Rel consumer info rest views parsed h = (
      ap (map view) (
            resolved-cons consumer (announce unstamped serialize info) rest.inbound
              (accept-announce consumer info parsed))
          ∙ h.0,
      h.1,
    )

    local_id-live :
        (reg : Registry) (t : String) (i : ℕ)
        → Dict.get reg.topic_to_id t ≡ some i
        → local_id_for reg t ≡ ok i
    unfolding local_id_for
    local_id-live reg t i at_topic =
        ap (λ (o : Option ℕ). elim o [ some cid ↦ ok cid | none ↦ err key_error ]) at_topic

    pub self_info-own :
        (reg : Registry) (chs : List Channel)
        → own_channels reg ≡ ok chs
        → self_info reg ≡ ok (record { identity = reg.identity; channels = chs })
    unfolding self_info
    self_info-own reg chs own =
        ap (chain (λ own. ok (record { identity = reg.identity; channels = own }))) own

    pub known-Rel :
        (reg consumer : Registry) (seen : List String) (row : Played T) (rest : Replayed T)
        (views : List (View T))
        → Declares reg seen
        → Follows reg consumer
        → Sets.member row.channel.topic seen ≡ true
        → Rel consumer rest views
        → Rel consumer
            (paced row (local_id_for reg row.channel.topic) rest)
            (if row.stopped_in_delay then [] else view (some row.recorded, row.channel) ∷ views)
    known-Rel reg consumer seen row rest views d f e h =
        let (i, ch, at_topic, at_id, same, high) = d.live row.channel.topic e in
        rw (local_id-live reg row.channel.topic i at_topic)
          (deliver-Rel consumer row i rest views (f.by_id i ∙ at_id) same high h)
