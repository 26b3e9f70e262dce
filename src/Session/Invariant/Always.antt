-- ===== src/Session/Invariant/Always.antt =====
-- What holds of a session of observer/src/protocol.rs from its start to its end.
use p2p_observer.Common.{ℕ, Bool, true, ◌-◌, ◌%◌, ◌^◌, List, [], ◌∷◌, arith}
use p2p_observer.HeaderTree.Tree.{HeaderTree}
use p2p_observer.PeerAddr.{PeerAddr}
use p2p_observer.Session.Bucket.{F64Laws}
use p2p_observer.Session.Dispatch.{
  Library, Pass, tick, received, handle_message, open_session, pass, run, run_loop,
}
use p2p_observer.Session.Invariant.{
  Holds, on_ok, Keeps, and_then-Holds, IsConnection, loosen-Holds, Sound, send-Keeps,
}
use p2p_observer.Session.Invariant.BlocksKept.{send_getheaders-Keeps}
use p2p_observer.Session.Invariant.Kept.{ping_tick-Keeps}
use p2p_observer.Session.Messages.{
  NetworkMessage, sent_get_addr, sent_send_headers, sent_send_cmpct,
}
use p2p_observer.Session.State.{Result, Error, Clock, Connection, new_connection}
use p2p_observer.Session.Stats.{ConnectionStats, record_message, inc, claim_pong, record_rtt}
use p2p_observer.Session.Stats.Window.{
  IsStats, new_stats-IsStats, record_message-IsStats, claim_pong-IsStats, record_rtt-IsStats,
  record_ping-IsStats,
}
use p2p_observer.Session.Invariant.Dispatched.{CanEnd, dispatch-Handled}

ignored-IsStats :
    (st : ConnectionStats)
    → IsStats st
    → IsStats (record st { getheaders_ignored = inc st.getheaders_ignored })
ignored-IsStats st v = record {
  rtt_short = v.rtt_short;
  pings_short = v.pings_short;
  commands_IsMap = v.commands_IsMap;
  commands_short = v.commands_short;
  other_lt = v.other_lt;
  pongs_lt = v.pongs_lt;
}

answered-IsStats :
    (now : Clock) (nonce : ℕ) (st : ConnectionStats)
    → IsStats st
    → IsStats (claim_pong now.instant nonce st).0
      × IsStats (record_rtt ((now.unix_ms - nonce) % 2 ^ 32) (claim_pong now.instant nonce st).0)
answered-IsStats now nonce st v =
    let v' = claim_pong-IsStats now.instant nonce st v in
    (v', record_rtt-IsStats ((now.unix_ms - nonce) % 2 ^ 32) (claim_pong now.instant nonce st).0 v')

module _ {Header : Type 0} (lib : Library Header) (l : F64Laws lib.f64) where
  -- Any message at any time, in a connection that is as it should be and whose tree has no
  -- checkpoints, is handled without a panic, and leaves the connection so: the statistics within
  -- their limits, the tree's headers linked and its best chain leading to the tip with the most
  -- work, and no bucket over its burst. It ends the session only where a write fails, where an
  -- empty HEADERS ends the initial sync, with a verdict that says that the peer is on another
  -- chain, or as a violation that counts the items of an INV that has more than the protocol's
  -- limit.
  pub handle_message-IsConnection :
      (now : Clock) (msg : NetworkMessage Header) (s : Connection Header)
      → IsConnection lib.bitcoin lib.f64 l s
      → Holds
          (λ _ s'. IsConnection lib.bitcoin lib.f64 l s')
          (λ e s'. CanEnd lib l msg s e × IsConnection lib.bitcoin lib.f64 l s')
          (handle_message lib now msg s)
  unfolding handle_message
  handle_message-IsConnection now msg s h =
      dispatch-Handled lib l IsStats now msg
        (record s { stats = record_message (lib.command msg) s.stats }) ignored-IsStats
        (λ nonce _. answered-IsStats now nonce)
        (record_message-IsStats (lib.command msg) s.stats h.0, h.1, h.2, h.3)

  abbrev P : Connection Header → Type 0
  P = IsConnection lib.bitcoin lib.f64 l

  abbrev Fine : Error → Connection Header → Type 0
  Fine e s = P s

  forget :
      {r : Result (Connection Header) Unit} (G : Error → Type 0)
      → Holds (λ _ s. P s) (λ e s. G e × P s) r
      → Holds (λ _ s. P s) Fine r
  forget G h = loosen-Holds h (λ _ s p. p) λ e s p. p.1

  abbrev Any : Error → Type 0
  Any e = Unit

  pass-Fine :
      (p : Pass Header) (s : Connection Header) → P s → Holds (λ _ s'. P s') Fine (pass lib p s)
  unfolding pass
  pass-Fine (tick now) s h = forget Any (
      ping_tick-Keeps lib l IsStats Any tt now s (record_ping-IsStats now.unix_ms) h λ waited e. tt)
  pass-Fine (received now msg) s h =
      forget (CanEnd lib l msg s) (handle_message-IsConnection now msg s h)

  run_loop-Fine :
      (ps : List (Pass Header)) (s : Connection Header)
      → P s
      → Holds (λ _ s'. P s') Fine (run_loop lib ps s)
  unfolding run_loop
  run_loop-Fine [] s h = on_ok h
  run_loop-Fine (p ∷ ps) s h = and_then-Holds (pass-Fine p s h) λ _. run_loop-Fine ps

  open_session-Keeps : Keeps Any P open_session
  unfolding open_session
  open_session-Keeps s h =
      let send_it = send-Keeps lib.bitcoin lib.f64 l IsStats Any tt in
      and_then-Holds (send_it (sent_send_cmpct true 2) s h) λ _ s1 h1.
        and_then-Holds (send_it sent_get_addr (record s1 { getaddr_outstanding = true }) h1)
          λ _ s2 h2.
            and_then-Holds (send_it sent_send_headers s2 h2)
              λ _. send_getheaders-Keeps lib.bitcoin lib.f64 l IsStats Any tt

  -- Let a tree without checkpoints have its headers linked, its best chain lead to the tip, and its
  -- tip the most work. A session over it, whatever the peer sends, whenever the ping timer fires
  -- and whichever write fails, never panics, and leaves the statistics within their limits, the
  -- tree sound, and no bucket over its burst.
  pub run-IsConnection :
      (now : ℕ) (peer : PeerAddr) (syncs probes : Bool) (room : ℕ) (t : HeaderTree Header)
      (ps : List (Pass Header))
      → Sound lib.bitcoin t
      → Holds
          (λ _ s. IsConnection lib.bitcoin lib.f64 l s)
          (λ _ s. IsConnection lib.bitcoin lib.f64 l s)
          (run lib ps (new_connection lib.f64 now peer syncs probes room t))
  unfolding run new_connection
  run-IsConnection now peer syncs probes room t ps v =
      and_then-Holds
        (forget Any (
          open_session-Keeps (new_connection lib.f64 now peer syncs probes room t)
            (new_stats-IsStats now, v, omega arith, omega arith)))
        λ _. run_loop-Fine ps
