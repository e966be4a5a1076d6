-- ===== src/Routing/Registry/Inbound.antt =====
-- python/visio_schema/routing/registry.py: announces and the classification of messages.
use visio_schema.Common.{
  ℕ, ◌+◌, ◌==◌, ltb, if◌then◌else◌, nat_eq, List, [], ◌∷◌, ◌++◌, Option, none, some,
}
use visio_schema.Common.Dict
use visio_schema.Wire.Message.{Message}
use visio_schema.Routing.Channel.{Channel, Routed, first_dynamic, device_info}
use visio_schema.Routing.Registry.{Registry, DeviceInfo, learn_all}

-- `parse` is DeviceInfo.ParseFromString, `none` its exception.
module _ (parse : List ℕ → Option DeviceInfo) where
  unfoldable pub on_announce : Registry → List ℕ → Registry
  on_announce r payload = elim (parse payload) [ none ↦ r | some di ↦ learn_all r di.channels ]

-- `if channel is not None: yield message, channel`
unfoldable pub row_of : {T : Type 0} → Routed T → List (Option (Message T) × Channel)
row_of routed = elim routed.channel [ none ↦ [] | some ch ↦ (routed.message, ch) ∷ [] ]

module _ {T : Type 0} (parse : List ℕ → Option DeviceInfo) where
  unfoldable pub accept : Registry → Message T → Routed T × Registry
  accept r msg =
      if msg.stream_id == device_info
      then (record { message = none; channel = none }, on_announce parse r msg.payload)
      else if ltb msg.stream_id first_dynamic
      then (record { message = some msg; channel = none }, r)
      else elim (Dict.get r.by_id msg.stream_id) [
        | none ↦ (
          record { message = none; channel = none },
          record r { dropped_unmapped = r.dropped_unmapped + 1 },
        )
        | some ch ↦ (record { message = some msg; channel = some ch }, r)
      ]

  -- The rows that the generator yields, and the registry after them.
  unfoldable pub resolved :
      Registry → List (Message T) → List (Option (Message T) × Channel) × Registry
  resolved r [] = ([], r)
  resolved r (m ∷ ms) =
      let (routed, r') = accept r m in
      let (rows, last) = resolved r' ms in (row_of routed ++ rows, last)
