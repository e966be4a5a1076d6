-- ===== src/Mcap/Replay/Sync.antt =====
-- The registry of a replay, as it declares the topics of the recording.
use visio_schema.Common.{
  ℕ, ◌+◌, ◌≤◌, ◌≡◌, refl, ap, ◌∙◌, nat_eq, string_eq, str_eq, str_eq_iff, Bool-cases, true, false,
  inl, inr, String, List, [], ◌∷◌, Option, none, some, ok, All, arith, chain,
}
use visio_schema.Common.Dict
use visio_schema.Common.Dict.{Dict, get-set, get-set_self, set_same, get-nil}
use visio_schema.Common.Sets
use visio_schema.Common.Sets.{member-add, member-nil}
use visio_schema.Routing.Channel.{Channel}
use visio_schema.Routing.Registry.{
  Identity, Registry, init, declare_entries, declare, declare_new, alloc, look_up_all, own_channels,
}
use visio_schema.Mcap.Replay.{declared}
use visio_schema.Mcap.Replay.Known.{Own, Declares, look_up_all-set, made_channel, with_channel}

module _ {reg : Registry} {seen : List String} (d : Declares reg seen) where
  next-free : Sets.member reg.next_id reg.own_ids ≡ false
  next-free = elim (Bool-cases (Sets.member reg.next_id reg.own_ids)) [
    | inl e ↦ absurd (omega (arith, d.own_below reg.next_id e))
    | inr e ↦ e
  ]

  add-next : Sets.add reg.next_id reg.own_ids ≡ reg.next_id ∷ reg.own_ids
  unfolding Sets.add
  add-next = rw next-free refl

  declare_new-with_channel :
      (ch : Channel)
      → (declare_new reg ch.topic ch.schema_name ch.schema ch.encoding ch.schema_encoding).1
        ≡ with_channel reg ch
  unfolding declare_new alloc with_channel made_channel
  declare_new-with_channel ch =
      ap
        (λ ids. record reg {
          next_id = reg.next_id + 1;
          by_id = Dict.set reg.by_id reg.next_id (made_channel reg ch);
          topic_to_id = Dict.set reg.topic_to_id ch.topic reg.next_id;
          own_ids = ids;
        })
        add-next

  pub declared_new :
      (ch : Channel) → Sets.member ch.topic seen ≡ false → declared reg ch ≡ with_channel reg ch
  unfolding declared declare
  declared_new ch unseen =
      let choose : Option ℕ → ℕ × Registry = λ found. elim found [
        | some existing ↦ (existing, reg)
        | none ↦ declare_new reg ch.topic ch.schema_name ch.schema ch.encoding ch.schema_encoding
      ] in
      ap (λ (found : Option ℕ). (choose found).1) (d.free ch.topic unseen)
      ∙ declare_new-with_channel ch

  pub with_channel-own :
      (ch : Channel) → own_channels (with_channel reg ch) ≡ ok (made_channel reg ch ∷ d.chs)
  unfolding own_channels with_channel look_up_all
  with_channel-own ch =
      rw
        (
          get-set_self reg.by_id reg.next_id (made_channel reg ch),
          look_up_all-set reg.by_id reg.own_ids reg.next_id (made_channel reg ch) next-free,
        )
        (ap (chain (λ rest. ok (made_channel reg ch ∷ rest))) d.own)

  Own-with_channel :
      (ch : Channel)
      → Sets.member ch.topic seen ≡ false
      → (old : Channel) → Own reg.by_id reg.topic_to_id old
      → Own (with_channel reg ch).by_id (with_channel reg ch).topic_to_id old
  unfolding with_channel
  Own-with_channel ch unseen old h = record {
    at_id = ground (
      arith,
      get-set reg.by_id reg.next_id old.id (made_channel reg ch),
      h.at_id,
      d.below old.id old h.at_id,
    );
    at_topic = ground (
      arith,
      get-set reg.topic_to_id ch.topic old.topic reg.next_id,
      h.at_topic,
      d.free ch.topic unseen,
      str_eq_iff ch.topic old.topic,
    );
  }

  Own-made :
      (ch : Channel)
      → Own (with_channel reg ch).by_id (with_channel reg ch).topic_to_id (made_channel reg ch)
  unfolding with_channel made_channel
  Own-made ch = record {
    at_id = get-set_self reg.by_id reg.next_id (made_channel reg ch);
    at_topic = get-set_self reg.topic_to_id ch.topic reg.next_id;
  }

  pub All-Own :
      (ch : Channel)
      → Sets.member ch.topic seen ≡ false
      → (chs : List Channel) → All (Own reg.by_id reg.topic_to_id) chs
      → All (Own (with_channel reg ch).by_id (with_channel reg ch).topic_to_id) chs
  All-Own ch unseen [] h = tt
  All-Own ch unseen (old ∷ chs) h = (Own-with_channel ch unseen old h.0, All-Own ch unseen chs h.1)

  live-with_channel :
      (ch : Channel)
      → Sets.member ch.topic seen ≡ false
      → (t : String) → Sets.member t (Sets.add ch.topic seen) ≡ true
      → (i : ℕ) × (found : Channel) × (Dict.get (with_channel reg ch).topic_to_id t ≡ some i)
        × (Dict.get (with_channel reg ch).by_id i ≡ some found)
        × (found.topic ≡ t)
        × (16 ≤ i)
  unfolding with_channel made_channel
  live-with_channel ch unseen t h = elim (Bool-cases (str_eq ch.topic t)) [
    | inl e ↦ (
      reg.next_id,
      made_channel reg ch,
      ground (arith, get-set reg.topic_to_id ch.topic t reg.next_id, e),
      get-set_self reg.by_id reg.next_id (made_channel reg ch),
      (str_eq_iff ch.topic t).0 e,
      d.floor,
    )
    | inr e ↦
        let (i, found, at_topic, at_id, same, high) =
          d.live t (ground (arith, member-add ch.topic t seen, e, h)) in
        (
          i,
          found,
          ground (arith, get-set reg.topic_to_id ch.topic t reg.next_id, e, at_topic),
          ground (
            arith,
            get-set reg.by_id reg.next_id i (made_channel reg ch),
            at_id,
            d.below i found at_id,
          ),
          same,
          high,
        )
  ]

  pub Declares-with_channel :
      (ch : Channel)
      → Sets.member ch.topic seen ≡ false
      → Declares (with_channel reg ch) (Sets.add ch.topic seen)
  unfolding with_channel Sets.member
  Declares-with_channel ch unseen = record {
    below = λ i found h.
        ground (arith, get-set reg.by_id reg.next_id i (made_channel reg ch), h, d.below i found);
    floor = omega (arith, d.floor);
    own_below = λ i h. ground (arith, h, d.own_below i);
    chs = made_channel reg ch ∷ d.chs;
    own = with_channel-own ch;
    owned = (Own-made ch, All-Own ch unseen d.chs d.owned);
    live = live-with_channel ch unseen;
    free = λ t h. ground (
      arith,
      get-set reg.topic_to_id ch.topic t reg.next_id,
      member-add ch.topic t seen,
      h,
      d.free t,
    );
  }

pub init-Declares :
    (fds : String → List ℕ) (identity : Identity) → Declares (init fds identity []) []
unfolding init declare_entries own_channels look_up_all Sets.member
init-Declares fds identity = record {
  below = λ i ch h. absurd (ground (arith, get-nil {V = Channel} i, h));
  floor = omega arith;
  own_below = λ i h. absurd (cc);
  chs = [];
  own = refl;
  owned = tt;
  live = λ t h. absurd (cc);
  free = λ t h. get-nil t;
}
