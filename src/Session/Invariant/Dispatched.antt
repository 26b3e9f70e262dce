-- ===== src/Session/Invariant/Dispatched.antt =====
-- `handle_message` of observer/src/protocol.rs keeps what holds of a connection, and the errors
-- that it can end a session with.
use p2p_observer.Common.{ℕ, refl, ap, ◌<◌, ◌≡◌, true, List, [], length}
use p2p_observer.HeaderTree.Rejected.{is_other_chain}
use p2p_observer.Session.Bucket.{F64Laws}
use p2p_observer.Session.Dispatch.{Library, dispatch, handle_ping}
use p2p_observer.Session.Gossip.{handle_addr, handle_addrv2, offer_addrv2, parse_addr, parse_addrv2}
use p2p_observer.Session.Headers.{handle_blocktxn}
use p2p_observer.Session.Invariant.{Holds, on_ok, Keeping, send-Keeps}
use p2p_observer.Session.Invariant.BlocksKept.{
  handle_cmpct_block-Keeps, handle_headers-Keeps, handle_inv-Keeps,
}
use p2p_observer.Session.Invariant.Kept.{
  Answers, Ignores, handle_get_headers-Keeps, handle_pong-Keeps, handle_unknown-Keeps,
  offer_gossip-Keeps,
}
use p2p_observer.Session.Messages.{
  Inventory, NetworkMessage, ping, pong, fee_filter, block_txn, inv, headers, cmpct_block, addr,
  addrv2, send_cmpct, get_headers, send_headers, send_addr_v2, unknown, wtxid_relay, verack,
  version, other, sent_pong, by_addr, by_addrv2,
}
use p2p_observer.Session.State.{
  Result, Error, write_failed, sync_complete, other_chain, timed_out, protocol_violation, Clock,
  Connection, emit_event,
}
use p2p_observer.Session.Stats.{ConnectionStats}

module _ {Header : Type 0} (lib : Library Header) (l : F64Laws lib.f64) where
  -- The errors that a message can end a session with.
  abbrev pub CanEnd : NetworkMessage Header → Connection Header → Error → Type 0
  CanEnd msg s write_failed = Unit
  CanEnd msg s sync_complete = (msg ≡ headers []) × (s.sync_headers ≡ true)
  CanEnd msg s (other_chain e) = is_other_chain e ≡ true
  CanEnd msg s (timed_out waited) = ⊥
  CanEnd msg s (protocol_violation n) =
      (items : List Inventory) × (msg ≡ inv items)
      × (n ≡ length items)
      × (lib.max_inv_size < length items)

  module _ (G : ConnectionStats → Type 0) where
    abbrev P : Connection Header → Type 0
    P = Keeping lib.bitcoin lib.f64 l G

    abbrev Handled :
        NetworkMessage Header → Connection Header → Result (Connection Header) Unit → Type 0
    Handled msg s r = Holds (λ _ s'. P s') (λ e s'. CanEnd msg s e × P s') r

    pub dispatch-Handled :
        (now : Clock) (msg : NetworkMessage Header) (s : Connection Header)
        → Ignores lib l G (CanEnd msg s) tt
        → ((nonce : ℕ) → msg ≡ pong nonce → Answers lib l G (CanEnd msg s) tt now nonce)
        → P s
        → Handled msg s (dispatch lib now msg s)
    unfolding dispatch handle_ping handle_addr handle_addrv2 offer_addrv2 handle_blocktxn emit_event
    dispatch-Handled now (ping nonce) s ignores answers h =
        send-Keeps lib.bitcoin lib.f64 l G (CanEnd (ping nonce) s) tt (sent_pong nonce) s h
    dispatch-Handled now (pong nonce) s ignores answers h =
        handle_pong-Keeps lib l G (CanEnd (pong nonce) s) tt now nonce (answers nonce refl) s h
    dispatch-Handled now (inv items) s ignores answers h =
        handle_inv-Keeps lib.bitcoin lib.f64 l G (CanEnd (inv items) s) tt lib.max_inv_size
          now.instant items (λ over. (items, refl, refl, over)) s h
    dispatch-Handled now (headers xs) s ignores answers h =
        handle_headers-Keeps lib.bitcoin lib.f64 l G (CanEnd (headers xs) s) tt (λ e o. o)
          now.instant xs s h (λ e syncs. (ap headers e, syncs))
    dispatch-Handled now (cmpct_block header shape) s ignores answers h =
        handle_cmpct_block-Keeps lib.bitcoin lib.f64 l G (CanEnd (cmpct_block header shape) s) tt
          (λ e o. o) now.instant header shape s h
    dispatch-Handled now (addr addrs) s ignores answers h =
        offer_gossip-Keeps lib l G (CanEnd (addr addrs) s) tt now.instant by_addr (length addrs)
          (parse_addr addrs) s h
    dispatch-Handled now (addrv2 addrs) s ignores answers h =
        offer_gossip-Keeps lib l G (CanEnd (addrv2 addrs) s) tt now.instant by_addrv2 (length addrs)
          (parse_addrv2 addrs) s h
    dispatch-Handled now (send_cmpct high_bandwidth v) s ignores answers h = on_ok h
    dispatch-Handled now (fee_filter rate) s ignores answers h = on_ok h
    dispatch-Handled now (get_headers locator stop_hash) s ignores answers h =
        handle_get_headers-Keeps lib l G (CanEnd (get_headers locator stop_hash) s) tt now.instant
          locator stop_hash ignores s h
    dispatch-Handled now (block_txn hash) s ignores answers h = on_ok h
    dispatch-Handled now (unknown command payload) s ignores answers h =
        handle_unknown-Keeps lib l G (CanEnd (unknown command payload) s) tt now.instant command
          payload s h
    dispatch-Handled now send_headers s ignores answers h = on_ok h
    dispatch-Handled now send_addr_v2 s ignores answers h = on_ok h
    dispatch-Handled now wtxid_relay s ignores answers h = on_ok h
    dispatch-Handled now verack s ignores answers h = on_ok h
    dispatch-Handled now (version v) s ignores answers h = on_ok h
    dispatch-Handled now (other command) s ignores answers h = on_ok h
