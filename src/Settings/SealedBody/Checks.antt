-- ===== src/Settings/SealedBody/Checks.antt =====
-- What the checks of a sealed body let through.
use visio_schema.Common.{
  ℕ, ◌==◌, ◌≡◌, ◌⊎◌, ◌↔◌, refl, sym, ap, ◌∙◌, Bool, true, false, not, String, string_eq, List, [],
  ◌∷◌, Option, none, some, ok, raise_if, length, arith, inl, inr, chain-eq-ok, ok-injective, subst,
  Bool-cases, ==_iff,
}
use visio_schema.Common.Dict
use visio_schema.Common.Dict.{Dict}
use visio_schema.Settings.SealedBody.{
  Value, Base64, BodyError, SealedSecrets, all_known, is_text, as_tuple, checked_secret,
  checked_serials, checked_seconds, require_length, require_recording_key, read_recording_key,
  read_old_key, from_body, clears_recording_key, is_some, key_change, validate_recording_key_change,
}
use visio_schema.Settings.SealedBody.RoundTrip.{IsValid}

require_length-eq-ok :
    (o : Option (List ℕ))
    → require_length o ≡ ok tt
    → (key : List ℕ) → o ≡ some key
    → length key ≡ 32
unfolding require_length
require_length-eq-ok none passed key is_key = absurd (cc)
require_length-eq-ok (some k) passed key is_key = elim (Bool-cases (length k == 32)) [
  | inl fits ↦ (let same : k ≡ key = cc in sym (ap length same) ∙ (==_iff (length k) 32).0 fits)
  | inr other ↦ absurd (ground (arith, other))
]

require_recording_key-eq-ok :
    (o : Option (List ℕ))
    → require_recording_key o ≡ ok tt
    → (key : List ℕ) → o ≡ some key
    → (key ≡ []) ⊎ (length key ≡ 32)
unfolding require_recording_key
require_recording_key-eq-ok none passed key is_key = absurd (cc)
require_recording_key-eq-ok (some []) passed key is_key = inl (cc)
require_recording_key-eq-ok (some (b ∷ bs)) passed key is_key =
    inr (require_length-eq-ok (some (b ∷ bs)) passed key is_key)

key_change_iff :
    (recording_key old : Option (List ℕ)) (first_provision : Bool)
    → (key_change recording_key old first_provision ≡ ok tt) ↔ (
        (recording_key ≡ none)
        ⊎ (((k : List ℕ) × (old ≡ some k))
            ⊎ ((first_provision ≡ true) × (clears_recording_key recording_key ≡ false))))
unfolding key_change is_some clears_recording_key
key_change_iff none old first = (λ _. inl refl, λ _. refl)
key_change_iff (some key) (some k) first = (λ _. inr (inl (k, refl)), λ _. refl)
key_change_iff (some []) none first = (
  λ passed. absurd (cc),
  λ h. elim h [
    | inl e ↦ absurd (cc)
    | inr (inl (k, e)) ↦ absurd (cc)
    | inr (inr (f, c)) ↦ absurd (cc)
  ],
)
key_change_iff (some (b ∷ bs)) none true = (λ _. inr (inr (refl, refl)), λ _. refl)
key_change_iff (some (b ∷ bs)) none false = (
  λ passed. absurd (cc),
  λ h. elim h [
    | inl e ↦ absurd (cc)
    | inr (inl (k, e)) ↦ absurd (cc)
    | inr (inr (f, c)) ↦ absurd (cc)
  ],
)

-- A key change is let through exactly if no recording key is named, or the old key is given, or
-- the rigs were never keyed and the new key does not clear.
pub validate_recording_key_change_iff :
    (s : SealedSecrets) (first_provision : Bool)
    → (validate_recording_key_change s first_provision ≡ ok tt) ↔ (
        (s.recording_key ≡ none)
        ⊎ (((old : List ℕ) × (s.old_recording_key ≡ some old))
            ⊎ ((first_provision ≡ true) × (clears_recording_key s.recording_key ≡ false))))
unfolding validate_recording_key_change
validate_recording_key_change_iff s first_provision =
    key_change_iff s.recording_key s.old_recording_key first_provision

module _ (b64 : Base64) where
  -- A body that is read gives secrets whose keys have the lengths that the constructor demands.
  pub from_body-IsValid :
      (body : Dict String Value) {s : SealedSecrets} → from_body b64 body ≡ ok s → IsValid s
  unfolding from_body
  from_body-IsValid body accepted =
      let (_, r0, _) = chain-eq-ok (raise_if (not (all_known body)) _) _ accepted in
      let (recording_key, r1, _) = chain-eq-ok (read_recording_key b64 (Dict.get body "rk")) _ r0 in
      let (_, r2, _) = chain-eq-ok (raise_if (is_text (Dict.get body "dev")) _) _ r1 in
      let (old_key, r3, _) = chain-eq-ok (read_old_key b64 (Dict.get body "rko")) _ r2 in
      let (listed, r4, _) = chain-eq-ok (as_tuple (Dict.get body "dev")) _ r3 in
      let (secret, r5, _) = chain-eq-ok (checked_secret (Dict.get body "sk")) _ r4 in
      let (_, r6, key_fits) = chain-eq-ok (require_recording_key recording_key) _ r5 in
      let (_, r7, old_fits) = chain-eq-ok (require_length old_key) _ r6 in
      let (devices, r8, _) = chain-eq-ok (checked_serials listed) _ r7 in
      let (seconds, last, _) = chain-eq-ok (checked_seconds (Dict.get body "exp")) _ r8 in
      subst IsValid (ok-injective {E = BodyError} last) (record {
        recording_key_length = require_recording_key-eq-ok recording_key key_fits;
        old_key_length = require_length-eq-ok old_key old_fits;
      })
