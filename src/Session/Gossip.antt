-- ===== src/Session/Gossip.antt =====
-- The handlers of observer/src/protocol.rs for ADDR and ADDRV2, and the limit on the addresses that
-- they hand to the address manager.
pub mod Totals
pub mod Learnt
use p2p_observer.Common.{
  ℕ, zero, suc, ◌+◌, ◌-◌, Bool, true, false, not, ◌&&◌, List, [], ◌∷◌, ◌++◌, Option, none, some,
  ◌==◌, ltb, if◌then◌else◌, length, take,
}
use p2p_observer.Book.Entry.{Gossiped}
use p2p_observer.PeerAddr.{PeerAddr, PeerAddr-discrete, IpAddr, try_from, from_socket_addr}
use p2p_observer.Session.Bucket.{F64, Bucket, addr_burst, addr_rate, refill, charge}
use p2p_observer.Session.Lenient.{Wire, parse_addrv2_leniently}
use p2p_observer.Session.Messages.{
  Address, AddrV2Message, AddrMessage, by_addr, by_addrv2, AddressAnnouncement,
  address_announcement, gossiped,
}
use p2p_observer.Session.Stats.{Command, Command-discrete}
use p2p_observer.Session.State.{
  Connection, Handler, ◌>>=◌, ◌>>◌, done, gets, update, note, emit_event,
}

-- A message of one entry that is the peer's own address.
unfoldable pub is_self_announcement : PeerAddr → ℕ → List Gossiped → Bool
unfolding PeerAddr-discrete
is_self_announcement peer received (g ∷ []) =
    received == 1 && elim (PeerAddr-discrete g.addr peer) [ yes _ ↦ true | no _ ↦ false ]
is_self_announcement peer received _ = false

unfoldable pub announced : AddrMessage → ℕ → List Gossiped → Bool → ℕ → ℕ → AddressAnnouncement
announced message received parsed solicited rate_limited tokens = record {
  message = message;
  unparsed = received - length parsed;
  addresses = parsed;
  solicited = solicited;
  rate_limited = rate_limited;
  rate_limit_tokens = tokens;
}

unfoldable pub parse_addr : List (ℕ × Address) → List Gossiped
unfolding from_socket_addr
parse_addr [] = []
parse_addr ((ntime, a) ∷ xs) = elim a.socket_addr [
  | none ↦ parse_addr xs
  | some (i, p) ↦
      record { addr = from_socket_addr i p; services = a.services; ntime = ntime } ∷ parse_addr xs
]

unfoldable pub parse_addrv2 : List AddrV2Message → List Gossiped
unfolding try_from
parse_addrv2 [] = []
parse_addrv2 (m ∷ ms) = elim (try_from m.addr m.port) [
  | none ↦ parse_addrv2 ms
  | some a ↦ record { addr = a; services = m.services; ntime = m.time } ∷ parse_addrv2 ms
]

-- The characters of "addrv2".
abbrev pub addrv2_command : Command
addrv2_command = 97 ∷ 100 ∷ 100 ∷ 114 ∷ 118 ∷ 50 ∷ []

unfoldable pub is_addrv2 : Command → Bool
unfolding Command-discrete
is_addrv2 command = elim (Command-discrete command addrv2_command) [ yes _ ↦ true | no _ ↦ false ]

module _ {Header : Type 0} (f : F64) where
  -- Whether the message is the reply to our own GETADDR: the flag is taken by the first message
  -- that is not the peer's own address.
  unfoldable pub take_solicited : ℕ → List Gossiped → Handler Header Bool
  unfolding is_self_announcement
  take_solicited received parsed = λ s.
      if is_self_announcement s.addr received parsed
      then (gets λ _. false) s
      else ((gets λ s. s.getaddr_outstanding) >>= λ solicited.
            update (λ s. record s { getaddr_outstanding = false }) >> gets λ _. solicited)
          s

  -- How many the limit discards.
  unfoldable pub limit : Bool → ℕ → Handler Header ℕ
  unfolding charge
  limit true n = gets λ _. 0
  limit false n = do
    charged ← gets λ s. charge f n s.addr_bucket
    update λ s. record s { addr_bucket = charged.0 }
    gets λ _. charged.1

  unfoldable pub hand_over : List Gossiped → Handler Header Unit
  hand_over [] = done
  hand_over (g ∷ gs) = update (note (gossiped (g ∷ gs)))

  unfoldable pub offer_gossip : ℕ → AddrMessage → ℕ → List Gossiped → Handler Header Unit
  unfolding take_solicited refill limit announced hand_over
  offer_gossip now message received parsed = do
    solicited ← take_solicited received parsed
    update λ s. record s { addr_bucket = refill f (addr_rate f) (addr_burst f) now s.addr_bucket }
    tokens ← gets λ s. s.addr_bucket.tokens
    rate_limited ← limit solicited (length parsed)
    emit_event
        (address_announcement (announced message received parsed solicited rate_limited tokens))
    hand_over (take (length parsed - rate_limited) parsed)

  unfoldable pub handle_addr : ℕ → List (ℕ × Address) → Handler Header Unit
  unfolding parse_addr offer_gossip
  handle_addr now addrs = offer_gossip now by_addr (length addrs) (parse_addr addrs)

  unfoldable pub offer_addrv2 : ℕ → ℕ → List AddrV2Message → Handler Header Unit
  unfolding parse_addrv2 offer_gossip
  offer_addrv2 now received addrs = offer_gossip now by_addrv2 received (parse_addrv2 addrs)

  unfoldable pub handle_addrv2 : ℕ → List AddrV2Message → Handler Header Unit
  unfolding offer_addrv2
  handle_addrv2 now addrs = offer_addrv2 now (length addrs) addrs

  unfoldable pub handle_unknown : Wire → ℕ → Command → List ℕ → Handler Header Unit
  unfolding is_addrv2 parse_addrv2_leniently offer_addrv2
  handle_unknown w now command payload =
      let (received, entries) = parse_addrv2_leniently w payload in
      if is_addrv2 command then offer_addrv2 now received entries else done
