-- ===== src/Mcap/Replay/Follow.antt =====
-- A consumer's registry follows the registry of a replay.
use visio_schema.Common.{
  ℕ, ◌≡◌, refl, ap, ◌∙◌, nat_eq, string_eq, if-cases, false, String, List, [], ◌∷◌, Result, ok, err,
  arith,
}
use visio_schema.Common.Dict
use visio_schema.Common.Dict.{Dict, get-set, get-set_self, set_same, get-nil}
use visio_schema.Common.Sets
use visio_schema.Common.Sets.{member-add, member-nil}
use visio_schema.Routing.Channel.{Channel}
use visio_schema.Routing.Registry.{
  Identity, Registry, RegistryError, init, declare_entries, conflicts, put_channel, learn,
  learn_or_log, learn_all,
}
use visio_schema.Mcap.Replay.Known.{
  Declares, Follows, learn_all-known, All-Own_follower, made_channel, with_channel,
}
use visio_schema.Mcap.Replay.Sync.{All-Own}

module _ {reg : Registry} {seen : List String} (d : Declares reg seen) where
  learn-new :
      (consumer : Registry) (ch : Channel)
      → Sets.member ch.topic seen ≡ false
      → Follows reg consumer
      → learn_or_log consumer (made_channel reg ch) ≡ put_channel consumer (made_channel reg ch)
  unfolding learn_or_log learn conflicts made_channel
  learn-new consumer ch unseen f =
      let absent = f.topics ch.topic ∙ d.free ch.topic unseen in
      ap (λ (r : Result RegistryError Registry). elim r [ ok r' ↦ r' | err e ↦ consumer ])
        (if-cases
          (λ (r : Result RegistryError Registry).
            r ≡ ok (put_channel consumer (made_channel reg ch)))
          (conflicts (Dict.get consumer.topic_to_id ch.topic) reg.next_id)
          (λ clash. absurd (ground (arith, absent, clash))) (λ _. refl))

  Follows-put :
      (consumer : Registry) (ch : Channel)
      → Follows reg consumer
      → Follows (with_channel reg ch) (put_channel consumer (made_channel reg ch))
  unfolding with_channel put_channel made_channel
  Follows-put consumer ch f = record {
    by_id = λ i. ground (
      arith,
      get-set reg.by_id reg.next_id i (made_channel reg ch),
      get-set consumer.by_id reg.next_id i (made_channel reg ch),
      f.by_id i,
    );
    topics = λ t. ground (
      arith,
      get-set reg.topic_to_id ch.topic t reg.next_id,
      get-set consumer.topic_to_id ch.topic t reg.next_id,
      f.topics t,
    );
  }

  -- The consumer learns the announce that holds the new channel.
  pub Follows-announce :
      (consumer : Registry) (ch : Channel)
      → Sets.member ch.topic seen ≡ false
      → Follows reg consumer
      → Follows (with_channel reg ch) (learn_all consumer (made_channel reg ch ∷ d.chs))
  unfolding learn_all
  Follows-announce consumer ch unseen f =
      let put = Follows-put consumer ch f in
      rw (learn-new consumer ch unseen f) (
        rw
          (learn_all-known (put_channel consumer (made_channel reg ch)) d.chs
            (All-Own_follower put d.chs (All-Own d ch unseen d.chs d.owned)))
          put)

pub init-Follows :
    (fds : String → List ℕ) (identity other : Identity)
    → Follows (init fds identity []) (init fds other [])
unfolding init declare_entries
init-Follows fds identity other = record { by_id = λ i. refl; topics = λ t. refl }
