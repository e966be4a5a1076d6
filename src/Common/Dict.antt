-- ===== src/Common/Dict.antt =====
-- Python's `dict` as an association list in insertion order: a write to a present key keeps
-- its place, a write to a new key goes to the end.
use mathlib.Core.Path.{◌≡◌, refl}
use mathlib.Core.List.{List, [], ◌∷◌, map}
use mathlib.Core.Option.{Option, none, some}
use native.Mathlib.Omega.{arith}
use visio_schema.Common.Tests.{if◌then◌else◌}
use visio_schema.Common.Keys.{Eq, beq, beq_iff}

abbrev pub Dict : Type 0 → Type 0 → Type 0
Dict K V = List (K × V)

-- list(d.values())
unfoldable pub values : {K V : Type 0} → Dict K V → List V
values d = map (λ p. p.1) d

module _ {K V : Type 0} ⦃e : Eq K⦄ where
  -- d.get(k)
  unfoldable pub get : Dict K V → K → Option V
  get [] k = none
  get ((j, v) ∷ d) k = if beq j k then some v else get d k

  -- d[k] = v
  unfoldable pub set : Dict K V → K → V → Dict K V
  set [] k v = (k, v) ∷ []
  set ((j, w) ∷ d) k v = if beq j k then (j, v) ∷ d else (j, w) ∷ set d k v

  -- d.pop(k, None)
  unfoldable pub pop : Dict K V → K → Dict K V
  pop [] k = []
  pop ((j, w) ∷ d) k = let rest = pop d k in if beq j k then rest else (j, w) ∷ rest

  pub get-set :
      (d : Dict K V) (k j : K) (v : V) → get (set d k v) j ≡ (if beq k j then some v else get d j)
  unfolding get set
  get-set [] k j v = refl
  get-set ((i, w) ∷ d) k j v =
      ground (arith, beq_iff i k, beq_iff i j, beq_iff k j, get-set d k j v)

  pub get-pop : (d : Dict K V) (k j : K) → get (pop d k) j ≡ (if beq k j then none else get d j)
  unfolding get pop
  get-pop [] k j = ground arith
  get-pop ((i, w) ∷ d) k j = ground (arith, beq_iff i k, beq_iff i j, beq_iff k j, get-pop d k j)

  -- Writing what is there already changes nothing.
  pub set_same : (d : Dict K V) (k : K) (v : V) → get d k ≡ some v → set d k v ≡ d
  unfolding get set
  set_same [] k v h = cc
  set_same ((i, w) ∷ d) k v h = ground (arith, beq_iff i k, set_same d k v)

  pub get-nil : (k : K) → get [] k ≡ none
  unfolding get
  get-nil k = refl

  pub get-set_self : (d : Dict K V) (k : K) (v : V) → get (set d k v) k ≡ some v
  get-set_self d k v = rw (get-set d k k v, (beq_iff k k).1 refl)

  pub set-set_self : (d : Dict K V) (k : K) (v : V) → set (set d k v) k v ≡ set d k v
  set-set_self d k v = set_same (set d k v) k v (get-set_self d k v)

  pub get-pop_self : (d : Dict K V) (k : K) → get (pop d k) k ≡ none
  get-pop_self d k = rw (get-pop d k k, (beq_iff k k).1 refl)
