-- ===== src/Common/Sets.antt =====
-- Python's `set` as a list without repetition.
use mathlib.Core.Path.{◌≡◌, refl}
use mathlib.Core.Bool.{Bool, true, false, ◌||◌}
use mathlib.Core.List.{List, [], ◌∷◌}
use native.Mathlib.Omega.{arith}
use visio_schema.Common.Tests.{if◌then◌else◌}
use visio_schema.Common.Keys.{Eq, beq, beq_iff}

module _ {K : Type 0} ⦃e : Eq K⦄ where
  -- k in s
  unfoldable pub member : K → List K → Bool
  member k [] = false
  member k (j ∷ s) = beq j k || member k s

  -- s.add(k)
  unfoldable pub add : K → List K → List K
  add k s = if member k s then s else k ∷ s

  -- s.discard(k)
  unfoldable pub discard : K → List K → List K
  discard k [] = []
  discard k (j ∷ s) = let rest = discard k s in if beq j k then rest else j ∷ rest

  pub member-add :
      (k j : K) (s : List K) → member j (add k s) ≡ (if beq k j then true else member j s)
  unfolding member add
  member-add k j s = ground (arith, beq_iff k j)

  pub member-discard :
      (k j : K) (s : List K) → member j (discard k s) ≡ (if beq k j then false else member j s)
  unfolding member discard
  member-discard k j [] = ground arith
  member-discard k j (i ∷ s) =
      ground (arith, beq_iff i k, beq_iff i j, beq_iff k j, member-discard k j s)

  pub member-nil : (k : K) → member k [] ≡ false
  unfolding member
  member-nil k = refl
