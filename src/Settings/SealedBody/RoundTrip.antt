-- ===== src/Settings/SealedBody/RoundTrip.antt =====
-- A body that was written reads back.
use visio_schema.Common.{
  ℕ, ◌≡◌, ◌⊎◌, refl, sym, ap, ◌∙◌, if◌then◌else◌, true, false, String, str_eq, str_eq_iff,
  string_eq, List, [], ◌∷◌, Option, none, some, ok, length, arith, Bool-cases, inl, inr,
}
use visio_schema.Common.Dict
use visio_schema.Common.Dict.{Dict, get-set}
use visio_schema.Settings.SealedBody.{
  Value, text, Base64, SealedSecrets, Seconds, after_epoch, before_epoch, put_if, text_value,
  device_items, devices_value, seconds_value, known, all_known, is_text, as_tuple, checked_secret,
  checked_serials, checked_seconds, require_length, require_recording_key, key_text,
  recording_key_value, old_key_value, to_body, canonical, checked_b64_key, some_key, read_text_key,
  read_recording_key, read_old_key, from_body,
}

-- The decoder undoes the encoder, and no bytes are the empty text.
pub record IsLawful (b64 : Base64) : Type 0 where
  pub decode-encode : (bytes : List ℕ) → b64.decode (b64.encode bytes) ≡ some bytes
  pub encode-nil : b64.encode [] ≡ ""

-- The lengths that the constructor accepts.
pub record IsValid (s : SealedSecrets) : Type 0 where
  pub recording_key_length :
      (key : List ℕ) → s.recording_key ≡ some key → (key ≡ []) ⊎ (length key ≡ 32)
  pub old_key_length : (key : List ℕ) → s.old_recording_key ≡ some key → length key ≡ 32

or_else : Option Value → Option Value → Option Value
or_else none d = d
or_else (some v) d = some v

get-put_if :
    (d : Dict String Value) (k j : String) (o : Option Value)
    → Dict.get (put_if d k o) j ≡ (if str_eq k j then or_else o (Dict.get d j) else Dict.get d j)
unfolding put_if or_else
get-put_if d k j none = ground arith
get-put_if d k j (some v) = get-set d k j v

all_known-set :
    (d : Dict String Value) (k : String) (v : Value)
    → known k ≡ true
    → all_known d ≡ true
    → all_known (Dict.set d k v) ≡ true
unfolding all_known Dict.set
all_known-set [] k v here there = ground (arith, here)
all_known-set ((j, w) ∷ d) k v here there = ground (arith, here, there, all_known-set d k v)

all_known-put_if :
    (d : Dict String Value) (k : String) (o : Option Value)
    → known k ≡ true
    → all_known d ≡ true
    → all_known (put_if d k o) ≡ true
unfolding put_if
all_known-put_if d k none here there = there
all_known-put_if d k (some v) here there = all_known-set d k v here there

checked-device_items : (ds : List String) → checked_serials (device_items ds) ≡ ok ds
unfolding checked_serials device_items
checked-device_items [] = refl
checked-device_items (d ∷ ds) = rw (checked-device_items ds) refl

get-put_if_here :
    (d : Dict String Value) (k : String) (o : Option Value)
    → Dict.get d k ≡ none
    → Dict.get (put_if d k o) k ≡ o
unfolding or_else
get-put_if_here d k none absent = get-put_if d k k none ∙ rw ((str_eq_iff k k).1 refl) absent
get-put_if_here d k (some v) absent = get-put_if d k k (some v) ∙ rw ((str_eq_iff k k).1 refl) refl

get-put_if_other :
    (d : Dict String Value) (k j : String) (o : Option Value)
    → str_eq k j ≡ false
    → Dict.get (put_if d k o) j ≡ Dict.get d j
get-put_if_other d k j o other = get-put_if d k j o ∙ rw other refl

module _ (a b c d e : Option Value) where
  filled : Dict String Value
  filled = put_if (put_if (put_if (put_if (put_if [] "sk" a) "rk" b) "rko" c) "dev" d) "exp" e

  get-filled :
      (Dict.get filled "sk" ≡ a)
      × (Dict.get filled "rk" ≡ b)
      × (Dict.get filled "rko" ≡ c)
      × (Dict.get filled "dev" ≡ d)
      × (Dict.get filled "exp" ≡ e)
  unfolding filled Dict.get
  get-filled =
      let one : Dict String Value = put_if [] "sk" a in
      let two : Dict String Value = put_if one "rk" b in
      let three : Dict String Value = put_if two "rko" c in
      let four : Dict String Value = put_if three "dev" d in
      (
        get-put_if_other four "exp" "sk" e refl
            ∙ get-put_if_other three "dev" "sk" d refl
            ∙ get-put_if_other two "rko" "sk" c refl
            ∙ get-put_if_other one "rk" "sk" b refl
            ∙ get-put_if_here [] "sk" a refl,
        get-put_if_other four "exp" "rk" e refl
            ∙ get-put_if_other three "dev" "rk" d refl
            ∙ get-put_if_other two "rko" "rk" c refl
            ∙ get-put_if_here one "rk" b (get-put_if_other [] "sk" "rk" a refl),
        get-put_if_other four "exp" "rko" e refl
            ∙ get-put_if_other three "dev" "rko" d refl
            ∙ get-put_if_here two "rko" c
                (get-put_if_other one "rk" "rko" b refl ∙ get-put_if_other [] "sk" "rko" a refl),
        get-put_if_other four "exp" "dev" e refl
            ∙ get-put_if_here three "dev" d (
                get-put_if_other two "rko" "dev" c refl
                ∙ get-put_if_other one "rk" "dev" b refl
                ∙ get-put_if_other [] "sk" "dev" a refl),
        get-put_if_here four "exp" e (
            get-put_if_other three "dev" "exp" d refl
            ∙ get-put_if_other two "rko" "exp" c refl
            ∙ get-put_if_other one "rk" "exp" b refl
            ∙ get-put_if_other [] "sk" "exp" a refl),
      )

  all_known-filled : all_known filled ≡ true
  unfolding filled known all_known
  all_known-filled = all_known-put_if _ "exp" e refl (
      all_known-put_if _ "dev" d refl (
        all_known-put_if _ "rko" c refl
          (all_known-put_if _ "rk" b refl (all_known-put_if [] "sk" a refl refl))))

checked-text_value : (o : Option String) → checked_secret (text_value o) ≡ ok o
unfolding checked_secret text_value
checked-text_value none = refl
checked-text_value (some s) = refl

checked-seconds_value : (o : Option Seconds) → checked_seconds (seconds_value o) ≡ ok o
unfolding checked_seconds seconds_value
checked-seconds_value none = refl
checked-seconds_value (some (after_epoch n)) = refl
checked-seconds_value (some (before_epoch n)) = refl

as_tuple-devices_value : (ds : List String) → as_tuple (devices_value ds) ≡ ok (device_items ds)
unfolding as_tuple devices_value device_items
as_tuple-devices_value [] = refl
as_tuple-devices_value (d ∷ ds) = refl

devices_value_list : (ds : List String) → is_text (devices_value ds) ≡ false
unfolding is_text devices_value
devices_value_list [] = refl
devices_value_list (d ∷ ds) = refl

module _ (b64 : Base64) (lawful : IsLawful b64) where
  some_key-encode : (key : List ℕ) → some_key b64 (text (b64.encode key)) ≡ ok (some key)
  unfolding some_key checked_b64_key canonical
  some_key-encode key =
      rw (lawful.decode-encode key, (str_eq_iff (b64.encode key) (b64.encode key)).1 refl) refl

  -- Only the empty key has the empty text.
  encode-ne-empty : (b : ℕ) (bs : List ℕ) → str_eq (b64.encode (b ∷ bs)) "" ≡ false
  encode-ne-empty b bs = elim (Bool-cases (str_eq (b64.encode (b ∷ bs)) "")) [
    | inr other ↦ other
    | inl same ↦
        let texts : b64.encode (b ∷ bs) ≡ b64.encode [] =
          (str_eq_iff _ _).0 same ∙ sym lawful.encode-nil in
        let keys : some (b ∷ bs) ≡ some [] =
          sym (lawful.decode-encode (b ∷ bs)) ∙ ap b64.decode texts ∙ lawful.decode-encode [] in
        absurd (cc)
  ]

  read-recording_key_value :
      (o : Option (List ℕ)) → read_recording_key b64 (recording_key_value b64 o) ≡ ok o
  unfolding read_recording_key recording_key_value key_text read_text_key
  read-recording_key_value none = refl
  read-recording_key_value (some []) = refl
  read-recording_key_value (some (b ∷ bs)) = rw (encode-ne-empty b bs) (some_key-encode (b ∷ bs))

  read-old_key_value : (o : Option (List ℕ)) → read_old_key b64 (old_key_value b64 o) ≡ ok o
  unfolding read_old_key old_key_value
  read-old_key_value none = refl
  read-old_key_value (some key) = some_key-encode key

  require-recording_key :
      (o : Option (List ℕ))
      → ((key : List ℕ) → o ≡ some key → (key ≡ []) ⊎ (length key ≡ 32))
      → require_recording_key o ≡ ok tt
  unfolding require_recording_key require_length
  require-recording_key none h = refl
  require-recording_key (some []) h = refl
  require-recording_key (some (b ∷ bs)) h = ground (arith, h (b ∷ bs) refl)

  require-old_key :
      (o : Option (List ℕ))
      → ((key : List ℕ) → o ≡ some key → length key ≡ 32)
      → require_length o ≡ ok tt
  unfolding require_length
  require-old_key none h = refl
  require-old_key (some key) h = ground (arith, h key refl)

  -- With a lawful base64, secrets whose keys have valid lengths are read back from their body as
  -- they were: an absent key
  -- stays absent, an empty one still clears, and no field is mixed up or lost.
  pub from_body-to_body : (s : SealedSecrets) → IsValid s → from_body b64 (to_body b64 s) ≡ ok s
  unfolding from_body to_body filled
  from_body-to_body s valid =
      let a : Option Value = text_value s.storage_secret in
      let b : Option Value = recording_key_value b64 s.recording_key in
      let c : Option Value = old_key_value b64 s.old_recording_key in
      let d : Option Value = devices_value s.devices in
      let e : Option Value = seconds_value s.expires_at in
      let (sk, rk, rko, dev, exp) = get-filled a b c d e in
      rw
        (
          all_known-filled a b c d e,
          sk,
          rk,
          rko,
          dev,
          exp,
          read-recording_key_value s.recording_key,
          devices_value_list s.devices,
          read-old_key_value s.old_recording_key,
          as_tuple-devices_value s.devices,
          checked-text_value s.storage_secret,
          require-recording_key s.recording_key valid.recording_key_length,
          require-old_key s.old_recording_key valid.old_key_length,
          checked-device_items s.devices,
          checked-seconds_value s.expires_at,
        )
        refl
