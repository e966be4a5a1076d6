-- ===== src/Transport/FramedFd/Closing.antt =====
-- When the I/O thread reports that the link is closed.
use visio_schema.Common.{
  ℕ, ◌≤◌, ◌≡◌, refl, ◌∙◌, inl, inr, Bool, true, false, ◌&&◌, List, [], ◌∷◌, Option, none, some, All,
  arith, Bool-cases, List-cases,
}
use visio_schema.Wire.Header.{Codec}
use visio_schema.Transport.FramedFd.Link.{OsRead, write_some, read_some, write_failed}
use visio_schema.Transport.FramedFd.{
  FramedFd, link_up, mark_link_dead, drain, pumped, pump, conclude, write_inflight, after_write,
  tick, read_inbound, Turn, read_if, iterate, loop,
}
use visio_schema.Transport.FramedFd.Reported.{
  Reported, Same, pump-Same, tick-Same, on_eof-Reported, Same-Reported,
}

module _ {T : Type 0} (c : Codec T) where
  read_inbound-Reported :
      {heals : Bool} (got : Option (List ℕ)) (e : FramedFd)
      → e.stopped ≡ false
      → Reported heals e
      → Reported heals (read_inbound c got e).0
  unfolding read_inbound
  read_inbound-Reported none e going r = on_eof-Reported e going r
  read_inbound-Reported (some []) e going r = r
  read_inbound-Reported (some (b ∷ bs)) e going r = record {
    kind = r.kind;
    self_healing = r.self_healing;
    at_most_once = r.at_most_once;
    then_stopped = r.then_stopped;
  }

  read_if-Reported :
      {heals : Bool} (readable : Bool) (read : OsRead) (e : FramedFd)
      → e.stopped ≡ false
      → Reported heals e
      → Reported heals (read_if c readable read e).0
  unfolding read_if
  read_if-Reported false read e going r = r
  read_if-Reported true read e going r = read_inbound-Reported (read_some read) e going r

  iterate-over : (e : FramedFd) (t : Turn) → e.stopped ≡ true → iterate c e t ≡ (e, [])
  unfolding iterate
  iterate-over e t over = ground arith

  iterate-asked :
      (e : FramedFd) (t : Turn)
      → e.stopped ≡ false
      → t.stop_requested ≡ true
      → iterate c e t ≡ (record e { stopped = true }, [])
  unfolding iterate
  iterate-asked e t going asked = ground arith

  iterate-step :
      (e : FramedFd) (t : Turn)
      → e.stopped ≡ false
      → t.stop_requested ≡ false
      → (iterate c e t).0
        ≡ tick t.now_ns t.opened (read_if c (link_up e && t.readable) t.read (pump t.write e).0).0
  unfolding iterate
  iterate-step e t going unasked = ground arith

  iterate-Reported :
      {heals : Bool} (e : FramedFd) (t : Turn) → Reported heals e → Reported heals (iterate c e t).0
  iterate-Reported e t r = elim (Bool-cases e.stopped) [
    | inl over ↦ rw (iterate-over e t over) r
    | inr going ↦ elim (Bool-cases t.stop_requested) [
      | inl asked ↦ rw (iterate-asked e t going asked) (record {
        kind = r.kind;
        self_healing = r.self_healing;
        at_most_once = r.at_most_once;
        then_stopped = λ _. refl;
      })
      | inr unasked ↦
          let after_pump : FramedFd = (pump t.write e).0 in
          let pumping : Same e after_pump = pump-Same t.write e in
          let after_read : FramedFd = (read_if c (link_up e && t.readable) t.read after_pump).0 in
          rw (iterate-step e t going unasked) (
            Same-Reported after_read (tick t.now_ns t.opened after_read)
              (tick-Same t.now_ns t.opened after_read)
              (read_if-Reported (link_up e && t.readable) t.read after_pump
                (pumping.stopped ∙ going) (Same-Reported e after_pump pumping r)))
    ]
  ]

  loop-Reported :
      {heals : Bool} (e : FramedFd) (ts : List Turn)
      → Reported heals e
      → Reported heals (loop c e ts).0
  unfolding loop
  loop-Reported e [] r = r
  loop-Reported e (t ∷ ts) r = loop-Reported (iterate c e t).0 ts (iterate-Reported e t r)

  -- However reads, writes and reopens go, the thread of an endpoint that has not reported a close
  -- calls on_closed at most once, only if the endpoint is not reopenable, and is stopped once it
  -- has called it.
  pub loop-closed_once :
      (e : FramedFd) (ts : List Turn)
      → e.closed_calls ≡ 0
      → ((loop c e ts).0.closed_calls ≤ 1)
        × (e.reopenable ≡ true → (loop c e ts).0.closed_calls ≡ 0)
        × ((loop c e ts).0.closed_calls ≡ 1 → (loop c e ts).0.stopped ≡ true)
  loop-closed_once e ts never =
      let r = loop-Reported {heals = e.reopenable} e ts (record {
        kind = refl;
        self_healing = λ _. never;
        at_most_once = omega (arith, never);
        then_stopped = λ once. absurd (omega (arith, never));
      }) in
      (r.at_most_once, r.self_healing, r.then_stopped)

  -- The descriptor is gone, nothing will open another, and the thread has not been told to stop.
  abbrev pub Stranded : FramedFd → Type 0
  Stranded e = (e.fd ≡ none) × (e.reopenable ≡ false) × (e.stopped ≡ false)

  iterate-Stranded :
      (e : FramedFd) (t : Turn) → t.stop_requested ≡ false → Stranded e → iterate c e t ≡ (e, [])
  unfolding iterate pump read_if link_up tick
  iterate-Stranded e t unasked (gone, fixed, going) = ground (arith)

  dead-Stranded :
      (e : FramedFd) → e.reopenable ≡ false → e.stopped ≡ false → Stranded (mark_link_dead e)
  unfolding mark_link_dead
  dead-Stranded e fixed going = (refl, fixed, going)

  loop-Stranded :
      (e : FramedFd) (ts : List Turn)
      → All (λ t. t.stop_requested ≡ false) ts
      → Stranded e
      → loop c e ts ≡ (e, [])
  unfolding loop
  loop-Stranded e [] unasked stranded = refl
  loop-Stranded e (t ∷ ts) unasked stranded =
      rw (iterate-Stranded e t unasked.0 stranded, loop-Stranded e ts unasked.1 stranded) refl

  iterate-write_failed :
      (e : FramedFd) (b : ℕ) (bs : List ℕ) (fd : ℕ) (t : Turn)
      → e.fd ≡ some fd
      → e.reopenable ≡ false
      → e.stopped ≡ false
      → e.inflight ≡ b ∷ bs
      → t.write 0 (b ∷ bs) ≡ write_failed
      → t.readable ≡ false
      → t.stop_requested ≡ false
      → iterate c e t ≡ (mark_link_dead e, [])
  unfolding iterate pump pumped drain conclude write_inflight after_write write_some link_up read_if
      tick mark_link_dead
  iterate-write_failed e b bs fd t up fixed going waiting fails unreadable unasked =
      elim (List-cases e.outbox) [
        | inl empty ↦ ground (arith)
        | inr (f, fs, queued) ↦ ground (arith)
      ]

  -- On a fixed link with a frame in flight, where the first write of an iteration fails and select
  -- did not find the link readable, the endpoint is left without a descriptor; from then on the loop
  -- does nothing until stop() is called, and on_closed is not called.
  pub loop-write_failed :
      (e : FramedFd) (b : ℕ) (bs : List ℕ) (fd : ℕ) (t : Turn) (ts : List Turn)
      → e.fd ≡ some fd
      → e.reopenable ≡ false
      → e.stopped ≡ false
      → e.inflight ≡ b ∷ bs
      → t.write 0 (b ∷ bs) ≡ write_failed
      → t.readable ≡ false
      → All (λ u. u.stop_requested ≡ false) (t ∷ ts)
      → loop c e (t ∷ ts) ≡ (mark_link_dead e, [])
  unfolding loop
  loop-write_failed e b bs fd t ts up fixed going waiting fails unreadable unasked =
      rw
        (
          iterate-write_failed e b bs fd t up fixed going waiting fails unreadable unasked.0,
          loop-Stranded (mark_link_dead e) ts unasked.1 (dead-Stranded e fixed going),
        )
        refl
