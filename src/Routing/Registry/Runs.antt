-- ===== src/Routing/Registry/Runs.antt =====
-- Every registry that a run can reach.
use visio_schema.Common.{ℕ, ◌≡◌, nat_eq, string_eq, String, List, Option, some, ok, arith}
use visio_schema.Common.Dict
use visio_schema.Wire.Message.{Message}
use visio_schema.Routing.Channel.{Channel}
use visio_schema.Routing.Registry.{
  Registry, DeviceInfo, Identity, Entry, alloc, declare, learn, forget, init, own_channels,
}
use visio_schema.Routing.Registry.Inbound.{accept}
use visio_schema.Routing.Registry.Invariant.{
  IsValid, declare-IsValid, learn-IsValid, forget-IsValid, init-IsValid,
}
use visio_schema.Routing.Registry.Topics.{topic-injective, own_channels-total}
use visio_schema.Routing.Registry.Rows.{Verdict-IsValid, accept-Verdict}

module _ (T : Type 0) (parse : List ℕ → Option DeviceInfo) where
  -- One call of a public method by its owner: a producer, a bus or a consumer loop.
  pub data Step : Registry → Registry → Type 0 where
    allocated : (r : Registry) → Step r (alloc r).1
    declared :
        (r : Registry) (topic name : String) (schema : List ℕ) (encoding schema_encoding : String)
        → Step r (declare r topic name schema encoding schema_encoding).1
    learned : (r : Registry) (ch : Channel) {r' : Registry} → learn r ch ≡ ok r' → Step r r'
    forgot : (r : Registry) (ids : List ℕ) → Step r (forget r ids)
    heard : (r : Registry) (m : Message T) → Step r (accept parse r m).1

  -- The calls since the registry was made, the last one outermost.
  pub data Run (made : Registry) : Registry → Type 0 where
    fresh : Run made made
    after : {s t : Registry} → Step s t → Run made s → Run made t

  Step-IsValid : {s t : Registry} → Step s t → IsValid s → IsValid t
  unfolding alloc
  Step-IsValid (allocated r) v = record {
    tables = v.tables;
    owned = record {
      present = v.owned.present;
      allocated = λ cid h. omega (arith, v.owned.allocated cid h);
    };
  }
  Step-IsValid (declared r topic name schema encoding se) v =
      declare-IsValid r topic name schema encoding se v
  Step-IsValid (learned r ch e) v = learn-IsValid r ch v e
  Step-IsValid (forgot r ids) v = forget-IsValid r ids v
  Step-IsValid (heard r m) v = Verdict-IsValid parse (accept-Verdict parse r m) v

  Run-IsValid : {made r : Registry} → IsValid made → Run made r → IsValid r
  Run-IsValid v fresh = v
  Run-IsValid v (after step run) = Step-IsValid step (Run-IsValid v run)

  -- Whatever is declared, learned, forgotten and received after construction, in any order: no
  -- topic is live under two ids, every channel is kept under its own id, and the list of own
  -- outputs can be built.
  pub Run-topics :
      (fds : String → List ℕ) (identity : Identity) (entries : List Entry) {r : Registry}
      → Run (init fds identity entries) r
      → ((i j : ℕ) (a b : Channel)
          → Dict.get r.by_id i ≡ some a
          → Dict.get r.by_id j ≡ some b
          → a.topic ≡ b.topic
          → i ≡ j)
        × ((i : ℕ) (a : Channel) → Dict.get r.by_id i ≡ some a → a.id ≡ i)
        × ((chs : List Channel) × (own_channels r ≡ ok chs))
  Run-topics fds identity entries reached =
      let v = Run-IsValid (init-IsValid fds identity entries) reached in
      (
        λ i j a b at_i at_j same. topic-injective v at_i at_j same,
        v.tables.id_of,
        own_channels-total v,
      )
