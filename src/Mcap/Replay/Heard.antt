-- ===== src/Mcap/Replay/Heard.antt =====
-- What a registry hears of a replay is what was recorded.
use visio_schema.Common.{
  ℕ, ◌≡◌, refl, subst, if◌then◌else◌, Bool, true, false, ◌||◌, String, str_eq, string_eq, nat_eq,
  List, [], ◌∷◌, ◌++◌, map, Option, none, some, All,
}
use visio_schema.Common.Sets
use visio_schema.Common.Sets.{member-add}
use visio_schema.Routing.Registry.{Identity, DeviceInfo, Registry, local_id_for, self_info, init}
use visio_schema.Routing.Registry.Inbound.{resolved}
use visio_schema.Mcap.Replay.{Played, device_info_topic, declared, paced, announced, replay_loop}
use visio_schema.Mcap.Replay.Rows.{
  if-both, member-added, info_of, view, recorded_rows, infos, Parses, Rel, left-Rel, announced-Rel,
  known-Rel, self_info-own,
}
use visio_schema.Mcap.Replay.Known.{Declares, Follows, with_channel}
use visio_schema.Mcap.Replay.Sync.{
  declared_new, with_channel-own, Declares-with_channel, init-Declares,
}
use visio_schema.Mcap.Replay.Follow.{Follows-announce, init-Follows}

module _ {T : Type 0} (unstamped : T) (serialize : DeviceInfo → List ℕ)
    (parse : List ℕ → Option DeviceInfo) where
  Yields : List (Played T) → Type 0
  Yields rows =
      (reg consumer : Registry) (seen : List String)
      → Declares reg seen
      → Follows reg consumer
      → All (Parses unstamped serialize parse) (infos reg seen rows)
      → Rel unstamped serialize parse consumer (replay_loop unstamped serialize reg seen rows)
          (recorded_rows rows)

  new-Rel :
      (reg consumer : Registry) (seen : List String) (row : Played T) (rows : List (Played T))
      → Declares reg seen
      → Follows reg consumer
      → Sets.member row.channel.topic seen ≡ false
      → All (Parses unstamped serialize parse) (
          info_of (self_info (declared reg row.channel))
          ++ infos (declared reg row.channel) (Sets.add row.channel.topic seen) rows)
      → Yields rows
      → let next = declared reg row.channel in
        let added = Sets.add row.channel.topic seen in
        Rel unstamped serialize parse consumer
          (announced unstamped serialize (self_info next) (
            paced row
              (local_id_for next row.channel.topic)
              (replay_loop unstamped serialize next added rows)))
          (if row.stopped_in_delay
            then []
            else view (some row.recorded, row.channel) ∷ recorded_rows rows)
  unfolding Yields info_of
  new-Rel reg consumer seen row rows d f e parsed ih =
      let next = with_channel reg row.channel in
      let added = Sets.add row.channel.topic seen in
      let d' = Declares-with_channel d row.channel e in
      let f' = Follows-announce d consumer row.channel e f in
      let own = self_info-own unstamped serialize parse next _ (with_channel-own d row.channel) in
      let parses =
        subst (λ r. All (Parses unstamped serialize parse) (info_of r ++ infos next added rows)) own
          (subst
            (λ r.
              All (Parses unstamped serialize parse) (info_of (self_info r) ++ infos r added rows))
            (declared_new d row.channel e) parsed) in
      rw (declared_new d row.channel e) (
        rw own (
          announced-Rel unstamped serialize parse consumer _
            (paced row (local_id_for next row.channel.topic)
              (replay_loop unstamped serialize next added rows))
            _ parses.0
            (known-Rel unstamped serialize parse next _ added row
              (replay_loop unstamped serialize next added rows) _ d' f'
              (member-added row.channel.topic seen) (ih next _ added d' f' parses.1))))

  -- Skipped, known or new.
  row-Rel :
      (skip known : Bool) (reg consumer : Registry) (seen : List String) (row : Played T)
      (rows : List (Played T))
      → Declares reg seen
      → Follows reg consumer
      → Sets.member row.channel.topic seen ≡ known
      → (let next : Registry = if known then reg else declared reg row.channel in
          let rest =
            infos
              (if skip then reg else next)
              (if skip || known then seen else Sets.add row.channel.topic seen)
              rows in
          All
            (Parses unstamped serialize parse)
            (if skip then rest else if known then rest else info_of (self_info next) ++ rest))
      → Yields rows
      → let topic = row.channel.topic in
        let next : Registry = if known then reg else declared reg row.channel in
        let rest =
          replay_loop unstamped serialize
            (if skip then reg else next)
            (if skip || known then seen else Sets.add topic seen)
            rows in
        Rel unstamped serialize parse consumer
          (if skip
            then rest
            else if known
            then paced row (local_id_for next topic) rest
            else announced unstamped serialize
                (self_info next)
                (paced row (local_id_for next topic) rest))
          (if skip
            then recorded_rows rows
            else if row.stopped_in_delay
            then []
            else view (some row.recorded, row.channel) ∷ recorded_rows rows)
  unfolding Yields
  row-Rel true known reg consumer seen row rows d f e parsed ih = ih reg consumer seen d f parsed
  row-Rel false true reg consumer seen row rows d f e parsed ih =
      known-Rel unstamped serialize parse reg consumer seen row
        (replay_loop unstamped serialize reg seen rows) _ d f e (ih reg consumer seen d f parsed)
  row-Rel false false reg consumer seen row rows d f e parsed ih =
      new-Rel reg consumer seen row rows d f e parsed ih

  replay_loop-Yields : (rows : List (Played T)) → Yields rows
  unfolding Yields Rel replay_loop recorded_rows resolved infos
  replay_loop-Yields [] reg consumer seen d f parsed = (refl, refl)
  replay_loop-Yields (row ∷ rows) reg consumer seen d f parsed =
      if-both (Rel unstamped serialize parse consumer) row.stopped_before
        (left-Rel unstamped serialize parse consumer)
        (row-Rel (str_eq row.channel.topic device_info_topic) (Sets.member row.channel.topic seen)
          reg consumer seen row rows d f refl parsed (replay_loop-Yields rows))

  -- A registry that starts empty and takes in what a replay delivers yields the recorded
  -- messages, each once and in order, with its topic, sequence number, time and payload: all of
  -- them, or those before a stop, less the announces that were recorded. The replay raises
  -- nothing. Each DeviceInfo that the rows lead to reads back as it was serialized.
  pub replay_loop-heard :
      (fds : String → List ℕ) (device consumer : Identity) (rows : List (Played T))
      → All (Parses unstamped serialize parse) (infos (init fds device []) [] rows)
      → (map view
            (resolved parse
              (init fds consumer [])
              (replay_loop unstamped serialize (init fds device []) [] rows).inbound).0
          ≡ recorded_rows rows)
        × ((replay_loop unstamped serialize (init fds device []) [] rows).raised ≡ none)
  unfolding Yields Rel
  replay_loop-heard fds device consumer rows parsed =
      replay_loop-Yields rows (init fds device []) (init fds consumer []) []
        (init-Declares fds device) (init-Follows fds device consumer) parsed
