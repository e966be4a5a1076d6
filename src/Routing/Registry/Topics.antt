-- ===== src/Routing/Registry/Topics.antt =====
-- What declaring, learning and forgetting do to the ids and the topics of a registry.
use visio_schema.Common.{
  ℕ, ◌==◌, ==_refl, if◌then◌else◌, true, false, nat_eq, string_eq, str_eq, str_eq_iff, String, ◌≡◌,
  ◌≢◌, refl, ap, ◌↔◌, sym, List, [], ◌∷◌, none, some, Option-cases, inl, inr, ok, err, arith,
}
use visio_schema.Common.Dict
use visio_schema.Common.Sets
use visio_schema.Routing.Channel.{Channel}
use visio_schema.Routing.Registry.{
  Registry, duplicate_topic, declare, declare_new, conflicts, put_channel, learn, forget_one,
  forget, free_topic, own_channels, look_up_all,
}
use visio_schema.Routing.Registry.Invariant.{IsValid, learn-eq-ok}

-- In a valid registry no topic is live under two ids.
pub topic-injective :
    {r : Registry} {i j : ℕ} {a b : Channel}
    → IsValid r
    → Dict.get r.by_id i ≡ some a
    → Dict.get r.by_id j ≡ some b
    → a.topic ≡ b.topic
    → i ≡ j
topic-injective {i = i} {j} {a} {b} v at_i at_j same =
    ground (arith, v.tables.topic_of i a at_i, v.tables.topic_of j b at_j, same)

-- A channel is refused exactly when its topic is live under another id.
pub learn-eq-err_iff :
    (r : Registry) (ch : Channel)
    → (learn r ch ≡ err duplicate_topic)
      ↔ ((k : ℕ) × (Dict.get r.topic_to_id ch.topic ≡ some k) × (k ≢ ch.id))
unfolding learn conflicts
learn-eq-err_iff r ch = (
  λ h. elim (Option-cases (Dict.get r.topic_to_id ch.topic)) [
    | inl e ↦ absurd (ground arith)
    | inr (k, e) ↦ (k, e, ground arith)
  ],
  λ (k, live, other). ground arith,
)

-- Learning a channel makes its id resolve to it, touches no other id or topic, and may be
-- repeated.
pub learn-lookup :
    (r : Registry) {r' : Registry} (ch : Channel)
    → learn r ch ≡ ok r'
    → ((j : ℕ) → Dict.get r'.by_id j ≡ (if ch.id == j then some ch else Dict.get r.by_id j))
      × ((t : String)
          → Dict.get r'.topic_to_id t
            ≡ (if str_eq ch.topic t then some ch.id else Dict.get r.topic_to_id t))
      × (learn r' ch ≡ ok r')
unfolding put_channel learn conflicts
learn-lookup r {r'} ch learned =
    let (free, same) = learn-eq-ok r ch learned in
    rw same (
      λ j. Dict.get-set r.by_id ch.id j ch,
      λ t. Dict.get-set r.topic_to_id ch.topic t ch.id,
      again,
    )
  where
    again : learn (put_channel r ch) ch ≡ ok (put_channel r ch)
    again = rw (
      learn,
      Dict.get-set_self r.topic_to_id ch.topic ch.id,
      conflicts,
      ==_refl ch.id,
      Dict.set-set_self r.by_id ch.id ch,
      Dict.set-set_self r.topic_to_id ch.topic ch.id,
    )

-- Declaring a topic again returns the same id and changes nothing.
pub declare-declare :
    (r : Registry) (topic : String) (name name' : String) (schema schema' : List ℕ)
    (encoding encoding' schema_encoding schema_encoding' : String)
    → declare
        (declare r topic name schema encoding schema_encoding).1
        topic
        name'
        schema'
        encoding'
        schema_encoding'
      ≡ declare r topic name schema encoding schema_encoding
unfolding declare declare_new
declare-declare r topic name name' schema schema' encoding encoding' se se' =
    elim (Option-cases (Dict.get r.topic_to_id topic)) [
      | inr (cid, e) ↦
          let live : declare r topic name schema encoding se ≡ (cid, r) = rw (e, declare) in
          rw live (rw (e, declare))
      | inl e ↦
          let fresh : declare r topic name schema encoding se
              ≡ declare_new r topic name schema encoding se =
            rw (e, declare) in
          rw fresh (rw (Dict.get-set_self r.topic_to_id topic r.next_id, declare))
    ]

-- Forgetting an id frees its topic, and its id; the other channels stay.
pub forget_one-frees :
    {r : Registry} (cid : ℕ) {ch : Channel}
    → IsValid r
    → Dict.get r.by_id cid ≡ some ch
    → (Dict.get (forget_one r cid).topic_to_id ch.topic ≡ none)
      × ((j : ℕ)
          → Dict.get (forget_one r cid).by_id j ≡ (if cid == j then none else Dict.get r.by_id j))
unfolding forget_one free_topic
forget_one-frees {r} cid {ch} v at_cid = (
  rw (at_cid, free_topic, v.tables.topic_of cid ch at_cid, free_topic, ==_refl cid)
      (Dict.get-pop_self r.topic_to_id ch.topic),
  λ j. Dict.get-pop r.by_id cid j,
)

member-head : (cid : ℕ) (ids : List ℕ) → Sets.member cid (cid ∷ ids) ≡ true
unfolding Sets.member
member-head cid ids = ground (arith, ==_refl cid)

member-tail :
    (k cid : ℕ) (ids : List ℕ) → Sets.member k ids ≡ true → Sets.member k (cid ∷ ids) ≡ true
unfolding Sets.member
member-tail k cid ids h = ground arith

look_up_all-cons :
    (r : Registry) (cid : ℕ) (ids : List ℕ) {ch : Channel} {chs : List Channel}
    → Dict.get r.by_id cid ≡ some ch
    → look_up_all r.by_id ids ≡ ok chs
    → look_up_all r.by_id (cid ∷ ids) ≡ ok (ch ∷ chs)
unfolding look_up_all
look_up_all-cons r cid ids found rest = ground arith

look_up_all-total :
    (r : Registry) (ids : List ℕ)
    → ((cid : ℕ) → Sets.member cid ids ≡ true → (ch : Channel) × (Dict.get r.by_id cid ≡ some ch))
    → (chs : List Channel) × (look_up_all r.by_id ids ≡ ok chs)
look_up_all-total r [] present = ([], unfold look_up_all in refl)
look_up_all-total r (cid ∷ ids) present =
    let (ch, found) = present cid (member-head cid ids) in
    let (chs, rest) = look_up_all-total r ids (λ k h. present k (member-tail k cid ids h)) in
    (ch ∷ chs, look_up_all-cons r cid ids found rest)

-- The list of own outputs never meets a missing id.
pub own_channels-total :
    {r : Registry} → IsValid r → (chs : List Channel) × (own_channels r ≡ ok chs)
unfolding own_channels
own_channels-total {r} v = look_up_all-total r r.own_ids v.owned.present

-- A stream that is announced again under another topic leaves its old topic behind: when the id
-- is forgotten, the old topic stays taken, and no other id can announce it.
pub learn-forget_stale :
    (r : Registry) {r₁ r₂ : Registry} (a b : Channel)
    → a.id ≡ b.id
    → a.topic ≢ b.topic
    → learn r a ≡ ok r₁
    → learn r₁ b ≡ ok r₂
    → (c : Channel) → c.topic ≡ a.topic
    → c.id ≢ a.id
    → learn (forget r₂ (a.id ∷ [])) c ≡ err duplicate_topic
unfolding forget forget_one
learn-forget_stale r {r₁} {r₂} a b same_id other first second c same_topic other_id =
    (learn-eq-err_iff _ c).1 (a.id, taken, λ e. other_id (sym e))
  where
    kept : Dict.get r₂.topic_to_id a.topic ≡ some a.id
    kept = ground (
      arith,
      (learn-lookup r a first).1 a.topic,
      (learn-lookup r₁ b second).1 a.topic,
      str_eq_iff a.topic a.topic,
      str_eq_iff b.topic a.topic,
    )

    at_id : Dict.get r₂.by_id a.id ≡ some b
    at_id = ground (arith, (learn-lookup r₁ b second).0 a.id)

    b_at : Dict.get r₂.topic_to_id b.topic ≡ some a.id
    b_at = ground (arith, (learn-lookup r₁ b second).1 b.topic, str_eq_iff b.topic b.topic, same_id)

    different : str_eq b.topic a.topic ≡ false
    different = ground (arith, str_eq_iff b.topic a.topic)

    taken : Dict.get (forget r₂ (a.id ∷ [])).topic_to_id c.topic ≡ some a.id
    taken =
        rw
          (
            same_topic,
            at_id,
            free_topic,
            b_at,
            free_topic,
            ==_refl a.id,
            Dict.get-pop r₂.topic_to_id b.topic a.topic,
            different,
          )
          kept

-- An output that is declared while the next id is a learned channel's takes that channel's id: the
-- id then names the new channel, and the learned topic stays in the table and names it as well,
-- under a topic that is not its own. The new topic is not in the table before.
pub declare-replaces :
    (r : Registry) (topic name : String) (schema : List ℕ) (encoding schema_encoding : String)
    (learned : Channel)
    → Dict.get r.by_id r.next_id ≡ some learned
    → Dict.get r.topic_to_id learned.topic ≡ some r.next_id
    → Dict.get r.topic_to_id topic ≡ none
    → let after : Registry = (declare r topic name schema encoding schema_encoding).1 in
      (new : Channel) × (Dict.get after.by_id r.next_id ≡ some new)
      × (new.topic ≡ topic)
      × (new ≢ learned)
      × (Dict.get after.topic_to_id topic ≡ some r.next_id)
      × (Dict.get after.topic_to_id learned.topic ≡ some r.next_id)
unfolding declare declare_new
declare-replaces r topic name schema encoding se learned at_next at_topic free =
    let other : topic ≢ learned.topic =
      λ same. absurd (ground (arith, at_topic, free, ap (Dict.get r.topic_to_id) same)) in
    rw (free, declare)
      (
        _,
        Dict.get-set_self r.by_id r.next_id _,
        refl,
        (λ same. other (ap (λ (ch : Channel). ch.topic) same)),
        Dict.get-set_self r.topic_to_id topic r.next_id,
        ground (
          arith,
          Dict.get-set r.topic_to_id topic learned.topic r.next_id,
          at_topic,
          str_eq_iff topic learned.topic,
          other,
        ),
      )
