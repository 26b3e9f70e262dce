-- ===== src/Session/Invariant/Kept.antt =====
-- The other handlers of observer/src/protocol.rs keep what holds of a connection.
use p2p_observer.Common.{
  ℕ, ◌-◌, ◌%◌, ◌^◌, ◌≤◌, ◌≡◌, Bool, true, false, List, [], ◌∷◌, some, arith, length, Option-cases,
  inl, inr, Bool-cases, take,
}
use p2p_observer.Book.Entry.{Gossiped}
use p2p_observer.Session.Bucket.{
  F64, F64Laws, Bucket, addr_burst, addr_rate, getheaders_burst, getheaders_rate,
  may_answer_getheaders, refill,
}
use p2p_observer.Session.Bucket.Spent.{addr_burst-le, getheaders-le, refill-le, value-charge}
use p2p_observer.Session.Dispatch.{
  Library, handle_get_headers, handle_pong, ignore_getheaders, ping_tick, send_ping,
  spend_getheaders,
}
use p2p_observer.Session.Gossip.{
  handle_unknown, hand_over, is_self_announcement, limit, offer_addrv2, offer_gossip, parse_addrv2,
  take_solicited, is_addrv2,
}
use p2p_observer.Session.Invariant.{
  Holds, on_ok, on_ended, Keeps, and_then-Holds, if-Holds, Keeping, served, send-Keeps,
}
use p2p_observer.Session.Lenient.{parse_addrv2_leniently}
use p2p_observer.Session.Messages.{sent_ping, sent_headers, AddrMessage, by_addrv2}
use p2p_observer.Session.State.{
  Error, write_failed, timed_out, Clock, Connection, Handler, emit_event, expect,
}
use p2p_observer.Session.Stats.{
  Command, claim_pong, record_rtt, record_ping, ping_timed_out, inc, ConnectionStats,
}

module _ (f : F64) (l : F64Laws f) where
  may_answer-le :
      (now : ℕ) (b : Bucket)
      → l.value (may_answer_getheaders f now b).0.tokens ≤ l.value (getheaders_burst f)
  unfolding may_answer_getheaders
  may_answer-le now b =
      let full = refill f (getheaders_rate f) (getheaders_burst f) now b in
      ground (
        arith,
        refill-le f l (getheaders_rate f) (getheaders_burst f) now b,
        getheaders-le f l now b,
        l.value-flt full.tokens 1 (omega arith) (omega arith),
        l.value-fsub full.tokens 1,
      )

module _ {Header : Type 0} (lib : Library Header) (l : F64Laws lib.f64)
    (G : ConnectionStats → Type 0) (E : Error → Type 0) (w : E write_failed) where
  abbrev P : Connection Header → Type 0
  P = Keeping lib.bitcoin lib.f64 l G

  abbrev K : {A : Type 0} → Handler Header A → Type 0
  K m = Keeps E P m

  take_solicited-Keeps : (n : ℕ) (parsed : List Gossiped) → K (take_solicited lib.f64 n parsed)
  unfolding take_solicited
  take_solicited-Keeps n parsed s h = elim (Bool-cases (is_self_announcement s.addr n parsed)) [
    | inl e ↦ rw (e, take_solicited) (on_ok h)
    | inr e ↦ rw (e, take_solicited) (on_ok h)
  ]

  limit-Keeps : (solicited : Bool) (n : ℕ) → K (limit lib.f64 solicited n)
  unfolding limit
  limit-Keeps true n s h = on_ok h
  limit-Keeps false n s h = on_ok (
    h.0,
    h.1,
    omega (
      arith,
      h.2,
      value-charge lib.f64 l n s.addr_bucket (omega (arith, h.2, addr_burst-le lib.f64 l)),
    ),
    h.3,
  )

  hand_over-Keeps : (gs : List Gossiped) → K (hand_over lib.f64 gs)
  unfolding hand_over
  hand_over-Keeps [] s h = on_ok h
  hand_over-Keeps (g ∷ gs) s h = on_ok h

  pub offer_gossip-Keeps :
      (now : ℕ) (message : AddrMessage) (n : ℕ) (parsed : List Gossiped)
      → K (offer_gossip lib.f64 now message n parsed)
  unfolding offer_gossip emit_event
  offer_gossip-Keeps now message n parsed s h =
      let f = lib.f64 in
      and_then-Holds (take_solicited-Keeps n parsed s h) λ solicited s1 h1.
        and_then-Holds
          (limit-Keeps solicited (length parsed)
            (record s1 { addr_bucket = refill f (addr_rate f) (addr_burst f) now s1.addr_bucket })
            (h1.0, h1.1, refill-le f l (addr_rate f) (addr_burst f) now s1.addr_bucket, h1.3))
          λ limited s2 h2. hand_over-Keeps (take (length parsed - limited) parsed) _ h2

  pub handle_unknown-Keeps :
      (now : ℕ) (command : Command) (payload : List ℕ)
      → K (handle_unknown lib.f64 lib.wire now command payload)
  unfolding handle_unknown offer_addrv2
  handle_unknown-Keeps now command payload s h =
      let (n, entries) = parse_addrv2_leniently lib.wire payload in
      if-Holds (is_addrv2 command) _ _
        (offer_gossip-Keeps now by_addrv2 n (parse_addrv2 entries) s h) (on_ok h)

  -- The statistics after a pong, with its round trip if it is an answer.
  abbrev pub Answers : Clock → ℕ → Type 0
  Answers now nonce =
      (st : ConnectionStats)
      → G st
      → G (claim_pong now.instant nonce st).0
        × G (record_rtt ((now.unix_ms - nonce) % 2 ^ 32) (claim_pong now.instant nonce st).0)

  pub handle_pong-Keeps : (now : Clock) (nonce : ℕ) → Answers now nonce → K (handle_pong now nonce)
  unfolding handle_pong emit_event
  handle_pong-Keeps now nonce answers s h =
      let (v, v') = answers s.stats h.0 in
      if-Holds (claim_pong now.instant nonce s.stats).1 _ _ (on_ok (v', h.1, h.2, h.3))
        (on_ok (v, h.1, h.2, h.3))

  abbrev pub Pings : Clock → Type 0
  Pings now = (st : ConnectionStats) → G st → G (record_ping now.unix_ms st)

  send_ping-Keeps : (now : Clock) → Pings now → K (send_ping now)
  unfolding send_ping
  send_ping-Keeps now pings s h =
      send-Keeps lib.bitcoin lib.f64 l G E w (sent_ping now.unix_ms) _
        (pings s.stats h.0, h.1, h.2, h.3)

  pub ping_tick-Keeps :
      (now : Clock) (s : Connection Header)
      → Pings now
      → P s
      → ((waited : ℕ) → ping_timed_out now.instant s.stats ≡ some waited → E (timed_out waited))
      → Holds (λ _ s'. P s') (λ e s'. E e × P s') (ping_tick now s)
  unfolding ping_tick
  ping_tick-Keeps now s pings h late = elim (Option-cases (ping_timed_out now.instant s.stats)) [
    | inl e ↦ rw (e, ping_tick) (send_ping-Keeps now pings s h)
    | inr (waited, e) ↦ rw (e, ping_tick) (on_ended (late waited e, h))
  ]

  abbrev pub Ignores : Type 0
  Ignores =
      (st : ConnectionStats)
      → G st
      → G (record st { getheaders_ignored = inc st.getheaders_ignored })

  pub handle_get_headers-Keeps :
      (now : ℕ) (locator : List ℕ) (stop_hash : ℕ)
      → Ignores
      → K (handle_get_headers lib.f64 now locator stop_hash)
  unfolding handle_get_headers spend_getheaders ignore_getheaders
  handle_get_headers-Keeps now locator stop_hash ignores s h =
      let answer = may_answer_getheaders lib.f64 now s.getheaders_bucket in
      let (xs, e) = served lib.bitcoin lib.f64 l s.header_tree (take 101 locator) stop_hash h.1 in
      let h' : P (record s { getheaders_bucket = answer.0 }) =
        (h.0, h.1, h.2, may_answer-le lib.f64 l now s.getheaders_bucket) in
      if-Holds answer.1 _ _
        (rw (e, expect) (send-Keeps lib.bitcoin lib.f64 l G E w (sent_headers xs) _ h'))
        (on_ok (ignores s.stats h.0, h'.1, h'.2, h'.3))
