-- ===== src/Mcap/Replay/Known.antt =====
-- What a consumer knows of the registry of a replay, and what it learns of channels it has already.
use visio_schema.Common.{
  ℕ, ◌+◌, ◌≤◌, ◌<◌, ◌≡◌, refl, ap, ap₂, ◌∙◌, ==_iff, nat_eq, string_eq, if-cases, true, false,
  String, List, [], ◌∷◌, none, some, Result, ok, err, All, arith,
}
use visio_schema.Common.Dict
use visio_schema.Common.Dict.{Dict, get-set, get-set_self, set_same, get-nil}
use visio_schema.Common.Sets
use visio_schema.Common.Sets.{member-add, member-nil}
use visio_schema.Routing.Channel.{Channel}
use visio_schema.Routing.Registry.{
  Registry, RegistryError, look_up_all, own_channels, conflicts, put_channel, learn, learn_or_log,
  learn_all,
}

-- A channel of the registry's own list stands under its id and its topic.
pub record Own (by_id : Dict ℕ Channel) (topics : Dict String ℕ) (ch : Channel) : Type 0 where
  pub at_id : Dict.get by_id ch.id ≡ some ch
  pub at_topic : Dict.get topics ch.topic ≡ some ch.id

-- The registry of a replay that has declared the topics of `seen`.
pub record Declares (reg : Registry) (seen : List String) : Type 0 where
  pub below : (i : ℕ) (ch : Channel) → Dict.get reg.by_id i ≡ some ch → i < reg.next_id
  pub floor : 16 ≤ reg.next_id
  pub own_below : (i : ℕ) → Sets.member i reg.own_ids ≡ true → i < reg.next_id
  pub chs : List Channel
  pub own : own_channels reg ≡ ok chs
  pub owned : All (Own reg.by_id reg.topic_to_id) chs
  pub live :
      (t : String)
      → Sets.member t seen ≡ true
      → (i : ℕ) × (ch : Channel) × (Dict.get reg.topic_to_id t ≡ some i)
        × (Dict.get reg.by_id i ≡ some ch)
        × (ch.topic ≡ t)
        × (16 ≤ i)
  pub free : (t : String) → Sets.member t seen ≡ false → Dict.get reg.topic_to_id t ≡ none

-- The consumer knows what the replay has declared, and nothing else.
pub record Follows (reg consumer : Registry) : Type 0 where
  pub by_id : (i : ℕ) → Dict.get consumer.by_id i ≡ Dict.get reg.by_id i
  pub topics : (t : String) → Dict.get consumer.topic_to_id t ≡ Dict.get reg.topic_to_id t

-- A channel that the consumer has already changes nothing.
learn-known :
    (consumer : Registry) (ch : Channel)
    → Own consumer.by_id consumer.topic_to_id ch
    → learn consumer ch ≡ ok consumer
unfolding learn put_channel conflicts
learn-known consumer ch h =
    let ids = set_same consumer.by_id ch.id ch h.at_id in
    let topics = set_same consumer.topic_to_id ch.topic ch.id h.at_topic in
    if-cases (λ (r : Result RegistryError Registry). r ≡ ok consumer)
      (conflicts (Dict.get consumer.topic_to_id ch.topic) ch.id)
      (λ clash. absurd (ground (arith, h.at_topic, clash)))
      (λ _. ap ok (ap₂ (λ b t. record consumer { by_id = b; topic_to_id = t }) ids topics))

pub learn_or_log-known :
    (consumer : Registry) (ch : Channel)
    → Own consumer.by_id consumer.topic_to_id ch
    → learn_or_log consumer ch ≡ consumer
unfolding learn_or_log
learn_or_log-known consumer ch h =
    ap (λ (r : Result RegistryError Registry). elim r [ ok r' ↦ r' | err e ↦ consumer ])
      (learn-known consumer ch h)

pub learn_all-known :
    (consumer : Registry) (chs : List Channel)
    → All (Own consumer.by_id consumer.topic_to_id) chs
    → learn_all consumer chs ≡ consumer
unfolding learn_all
learn_all-known consumer [] h = refl
learn_all-known consumer (ch ∷ chs) h =
    rw (learn_or_log-known consumer ch h.0) (learn_all-known consumer chs h.1)

pub look_up_all-set :
    (by_id : Dict ℕ Channel) (ids : List ℕ) (new : ℕ) (ch : Channel)
    → Sets.member new ids ≡ false
    → look_up_all (Dict.set by_id new ch) ids ≡ look_up_all by_id ids
unfolding look_up_all Sets.member
look_up_all-set by_id [] new ch h = refl
look_up_all-set by_id (i ∷ ids) new ch h =
    ground
      (arith, get-set by_id new i ch, look_up_all-set by_id ids new ch, ==_iff i new, ==_iff new i)

pub All-Own_follower :
    {reg consumer : Registry}
    → Follows reg consumer
    → (chs : List Channel) → All (Own reg.by_id reg.topic_to_id) chs
    → All (Own consumer.by_id consumer.topic_to_id) chs
All-Own_follower f [] h = tt
All-Own_follower f (ch ∷ chs) h = (
  record { at_id = f.by_id ch.id ∙ h.0.at_id; at_topic = f.topics ch.topic ∙ h.0.at_topic },
  All-Own_follower f chs h.1,
)

-- The channel that `declare` makes for a new topic.
unfoldable pub made_channel : Registry → Channel → Channel
made_channel reg ch = record {
  id = reg.next_id;
  topic = ch.topic;
  encoding = ch.encoding;
  schema_name = ch.schema_name;
  schema = ch.schema;
  schema_encoding = ch.schema_encoding;
}

unfoldable pub with_channel : Registry → Channel → Registry
with_channel reg ch = record reg {
  next_id = reg.next_id + 1;
  by_id = Dict.set reg.by_id reg.next_id (made_channel reg ch);
  topic_to_id = Dict.set reg.topic_to_id ch.topic reg.next_id;
  own_ids = reg.next_id ∷ reg.own_ids;
}
