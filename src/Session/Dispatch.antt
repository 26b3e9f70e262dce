-- ===== src/Session/Dispatch.antt =====
-- `run` of observer/src/protocol.rs: what opens a session, the pings, and the dispatch of the
-- messages.
use p2p_observer.Common.{
  ℕ, ◌-◌, ◌%◌, ◌^◌, Bool, true, List, [], ◌∷◌, none, some, if◌then◌else◌, take,
}
use p2p_observer.HeaderTree.Locator.{get_headers_from_locator}
use p2p_observer.HeaderTree.Tree.{Bitcoin}
use p2p_observer.Session.Blocks.{send_getheaders}
use p2p_observer.Session.Bucket.{F64, may_answer_getheaders}
use p2p_observer.Session.Gossip.{handle_addr, handle_addrv2, handle_unknown}
use p2p_observer.Session.Headers.{handle_headers, handle_cmpct_block, handle_blocktxn}
use p2p_observer.Session.Inv.{handle_inv}
use p2p_observer.Session.Lenient.{Wire}
use p2p_observer.Session.Messages.{
  NetworkMessage, ping, pong, fee_filter, block_txn, inv, headers, cmpct_block, addr, addrv2,
  send_cmpct, get_headers, unknown, sent_get_addr, sent_send_headers, sent_send_cmpct, sent_ping,
  sent_pong, sent_headers, ping_rtt, event_send_cmpct, event_fee_filter, refreshed,
}
use p2p_observer.Session.Stats.{
  Command, ConnectionStats, counters, claim_pong, record_rtt, record_ping, record_message,
  ping_timed_out, inc,
}
use p2p_observer.Session.State.{
  Clock, Connection, timed_out, Handler, ◌>>=◌, ◌>>◌, pure, done, fail, gets, update, expect, note,
  emit_event, send,
}

-- What the model takes from outside: floats, the bitcoin library's blocks and wire formats, the p2p
-- library's limit on an INV, and its command of a message.
pub record Library (Header : Type 0) : Type 0 where
  pub f64 : F64
  pub bitcoin : Bitcoin Header
  pub wire : Wire
  pub max_inv_size : ℕ
  pub command : NetworkMessage Header → Command

abbrev pub max_locator_sz : ℕ
max_locator_sz = 101

module _ {Header : Type 0} where
  abbrev set_stats : ConnectionStats → Connection Header → Connection Header
  set_stats stats s = record s { stats = stats }

  unfoldable pub handle_ping : ℕ → Handler Header Unit
  handle_ping nonce = send (sent_pong nonce)

  -- The round trip is cast to `u32` for the window.
  unfoldable pub handle_pong : Clock → ℕ → Handler Header Unit
  unfolding claim_pong record_rtt
  handle_pong now nonce = do
    claimed ← gets λ s. claim_pong now.instant nonce s.stats
    update (set_stats claimed.0)
    if claimed.1
        then (do
          update λ s. record s { stats = record_rtt ((now.unix_ms - nonce) % 2 ^ 32) s.stats }
          emit_event (ping_rtt (now.unix_ms - nonce)))
        else done

  unfoldable pub send_ping : Clock → Handler Header Unit
  unfolding record_ping counters
  send_ping now = do
    update λ s. record s { stats = record_ping now.unix_ms s.stats }
    update λ s. note (refreshed (counters s.stats) now.unix_ms) s
    send (sent_ping now.unix_ms)

  -- The ping timer fired.
  unfoldable pub ping_tick : Clock → Handler Header Unit
  unfolding ping_timed_out send_ping
  ping_tick now = λ s. elim (ping_timed_out now.instant s.stats) [
    | some waited ↦ (fail (timed_out waited)) s
    | none ↦ (send_ping now) s
  ]

  -- Whether a GETHEADERS is answered.
  unfoldable pub spend_getheaders : F64 → ℕ → Handler Header Bool
  unfolding may_answer_getheaders
  spend_getheaders f now = do
    answer ← gets λ s. may_answer_getheaders f now s.getheaders_bucket
    update λ s. record s { getheaders_bucket = answer.0 }
    pure answer.1

  unfoldable pub ignore_getheaders : Handler Header Unit
  ignore_getheaders = update λ s. record s {
    stats = record s.stats { getheaders_ignored = inc s.stats.getheaders_ignored };
  }

  unfoldable pub handle_get_headers : F64 → ℕ → List ℕ → ℕ → Handler Header Unit
  unfolding spend_getheaders ignore_getheaders get_headers_from_locator
  handle_get_headers f now locator stop_hash = do
    answers ← spend_getheaders f now
    if answers
        then (do
          xs ←
              expect
                λ s. get_headers_from_locator s.header_tree (take max_locator_sz locator) stop_hash
          send (sent_headers xs))
        else ignore_getheaders

  -- What `run` sends before its loop.
  unfoldable pub open_session : Handler Header Unit
  unfolding send_getheaders
  open_session = do
    send (sent_send_cmpct true 2)
    update λ s. record s { getaddr_outstanding = true }
    send sent_get_addr
    send sent_send_headers
    send_getheaders

module _ {Header : Type 0} (lib : Library Header) where
  -- The `match` of `handle_message`.
  unfoldable pub dispatch : Clock → NetworkMessage Header → Handler Header Unit
  unfolding handle_ping handle_pong handle_inv handle_headers handle_cmpct_block handle_addr
      handle_addrv2 handle_get_headers handle_blocktxn handle_unknown
  dispatch now (ping nonce) = handle_ping nonce
  dispatch now (pong nonce) = handle_pong now nonce
  dispatch now (inv items) = handle_inv lib.max_inv_size now.instant items
  dispatch now (headers xs) = handle_headers lib.bitcoin now.instant xs
  dispatch now (cmpct_block header shape) = handle_cmpct_block lib.bitcoin now.instant header shape
  dispatch now (addr addrs) = handle_addr lib.f64 now.instant addrs
  dispatch now (addrv2 addrs) = handle_addrv2 lib.f64 now.instant addrs
  dispatch now (send_cmpct high_bandwidth v) = emit_event (event_send_cmpct high_bandwidth v)
  dispatch now (fee_filter rate) = emit_event (event_fee_filter rate)
  dispatch now (get_headers locator stop_hash) =
      handle_get_headers lib.f64 now.instant locator stop_hash
  dispatch now (block_txn hash) = handle_blocktxn hash
  dispatch now (unknown command payload) =
      handle_unknown lib.f64 lib.wire now.instant command payload
  dispatch now _ = done

  unfoldable pub handle_message : Clock → NetworkMessage Header → Handler Header Unit
  unfolding dispatch record_message
  handle_message now msg = do
    update λ s. record s { stats = record_message (lib.command msg) s.stats }
    dispatch now msg

-- One pass of the loop: the ping timer, or a message.
pub data Pass (Header : Type 0) : Type 0 where
  tick : Clock → Pass Header
  received : Clock → NetworkMessage Header → Pass Header

module _ {Header : Type 0} (lib : Library Header) where
  unfoldable pub pass : Pass Header → Handler Header Unit
  unfolding ping_tick handle_message
  pass (tick now) = ping_tick now
  pass (received now msg) = handle_message lib now msg

  -- The loop over the passes that there are; an error ends it.
  unfoldable pub run_loop : List (Pass Header) → Handler Header Unit
  unfolding pass
  run_loop [] = done
  run_loop (p ∷ ps) = do pass p; run_loop ps

  unfoldable pub run : List (Pass Header) → Handler Header Unit
  unfolding open_session run_loop
  run ps = do open_session; run_loop ps
