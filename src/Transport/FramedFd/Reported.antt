-- ===== src/Transport/FramedFd/Reported.antt =====
-- What the reports of a closed link leave true of an endpoint.
use visio_schema.Common.{
  ℕ, suc, ◌≤◌, ◌≡◌, refl, ◌∙◌, sym, inl, inr, Bool, true, false, List, Option, none, some, arith,
  Bool-cases,
}
use visio_schema.Transport.FramedFd.Link.{OsWrite}
use visio_schema.Transport.FramedFd.{
  FramedFd, mark_link_dead, Drained, died, left, drain, pumped, pump, adopt_opened, reopen, tick,
  on_eof,
}

-- What the loop promises of on_closed: never for a reopenable endpoint, and once at most, after
-- which the thread stops.
pub record Reported (heals : Bool) (e : FramedFd) : Type 0 where
  pub kind : e.reopenable ≡ heals
  pub self_healing : heals ≡ true → e.closed_calls ≡ 0
  pub at_most_once : e.closed_calls ≤ 1
  pub then_stopped : e.closed_calls ≡ 1 → e.stopped ≡ true

-- The fields that Reported is about are left alone.
pub record Same (e e' : FramedFd) : Type 0 where
  pub reopenable : e'.reopenable ≡ e.reopenable
  pub closed_calls : e'.closed_calls ≡ e.closed_calls
  pub stopped : e'.stopped ≡ e.stopped

pumped-Same : (e : FramedFd) (d : Drained) → Same e (pumped e d).0
unfolding pumped mark_link_dead
pumped-Same e (died sent) = record { reopenable = refl; closed_calls = refl; stopped = refl }
pumped-Same e (left i o b sent) = record { reopenable = refl; closed_calls = refl; stopped = refl }

pub pump-Same : (write : ℕ → List ℕ → OsWrite) (e : FramedFd) → Same e (pump write e).0
unfolding pump
pump-Same write e = ground (arith, pumped-Same e (drain write 0 e.inflight e.outbox e.outbox_bytes))

adopt_opened-Same : (opened : Option ℕ) (e : FramedFd) → Same e (adopt_opened opened e)
unfolding adopt_opened
adopt_opened-Same none e = record { reopenable = refl; closed_calls = refl; stopped = refl }
adopt_opened-Same (some fd) e = record { reopenable = refl; closed_calls = refl; stopped = refl }

pub tick-Same : (now : ℕ) (opened : Option ℕ) (e : FramedFd) → Same e (tick now opened e)
unfolding tick reopen
tick-Same now opened e = ground (arith, adopt_opened-Same opened e)

on_eof-fixed :
    (e : FramedFd)
    → e.reopenable ≡ false
    → on_eof e ≡ record e { closed_calls = suc e.closed_calls; stopped = true }
unfolding on_eof
on_eof-fixed e fixed = rw fixed refl

on_eof-heals :
    {heals : Bool} (e : FramedFd)
    → e.reopenable ≡ true
    → Reported heals e
    → Reported heals (on_eof e)
unfolding on_eof mark_link_dead
on_eof-heals e self_heals r = record {
  kind = ground (arith, r.kind);
  self_healing = λ heal. ground (arith, r.self_healing heal);
  at_most_once = ground (arith, r.at_most_once);
  then_stopped = λ once. ground (arith, r.then_stopped);
}

pub on_eof-Reported :
    {heals : Bool} (e : FramedFd) → e.stopped ≡ false → Reported heals e → Reported heals (on_eof e)
on_eof-Reported e going r = elim (Bool-cases e.reopenable) [
  | inl self_heals ↦ on_eof-heals e self_heals r
  | inr fixed ↦
      let never : e.closed_calls ≡ 0 = ground (arith, r.at_most_once, r.then_stopped) in
      rw (on_eof-fixed e fixed) (record {
        kind = r.kind;
        self_healing = λ heal. absurd (ground (arith, r.kind));
        at_most_once = omega (arith, never);
        then_stopped = λ _. refl;
      })
]

pub Same-Reported :
    {heals : Bool} (e e' : FramedFd) → Same e e' → Reported heals e → Reported heals e'
Same-Reported e e' same r = record {
  kind = same.reopenable ∙ r.kind;
  self_healing = λ heal. same.closed_calls ∙ r.self_healing heal;
  at_most_once = omega (arith, same.closed_calls, r.at_most_once);
  then_stopped = λ once. same.stopped ∙ r.then_stopped (sym same.closed_calls ∙ once);
}
