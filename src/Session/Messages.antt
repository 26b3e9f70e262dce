-- ===== src/Session/Messages.antt =====
-- What goes over a session of observer/src/protocol.rs: the messages that it receives and sends
-- (those that a session sees, of the p2p library's `NetworkMessage`), and the events that it
-- publishes. Block hashes are numbers, user agents and commands lists of characters. An event's TCP
-- sample and the fields that it shares with every other event of the session are left out.
use p2p_observer.Common.{ℕ, Bool, List, Option}
use p2p_observer.PeerAddr.{IpAddr, AddrV2}
use p2p_observer.Book.Entry.{Gossiped}
use p2p_observer.Session.Stats.{Command, Counters}

pub data Inventory : Type 0 where
  inv_block inv_witness_block inv_compact_block : ℕ → Inventory
  -- Transactions, errors, and the kinds that the library does not know.
  inv_other : Inventory

-- An entry of `addr`: its services, and what the library's `socket_addr` gives for it.
pub record Address : Type 0 where
  pub services : ℕ
  pub socket_addr : Option (IpAddr × ℕ)

pub record AddrV2Message : Type 0 where
  pub time : ℕ
  pub services : ℕ
  pub addr : AddrV2
  pub port : ℕ

pub record CompactBlockShape : Type 0 where
  pub short_ids : ℕ
  pub prefilled_txs : ℕ

pub record VersionMessage : Type 0 where
  pub version : ℕ
  pub services : ℕ
  pub timestamp : ℕ
  pub user_agent : List ℕ
  pub start_height : ℕ
  pub relay : Bool
  pub nonce : ℕ

pub data NetworkMessage (Header : Type 0) : Type 0 where
  ping pong fee_filter block_txn : ℕ → NetworkMessage Header
  inv : List Inventory → NetworkMessage Header
  headers : List Header → NetworkMessage Header
  cmpct_block : Header → CompactBlockShape → NetworkMessage Header
  addr : List (ℕ × Address) → NetworkMessage Header
  addrv2 : List AddrV2Message → NetworkMessage Header
  send_cmpct : Bool → ℕ → NetworkMessage Header
  get_headers : List ℕ → ℕ → NetworkMessage Header
  send_headers send_addr_v2 wtxid_relay verack : NetworkMessage Header
  version : VersionMessage → NetworkMessage Header
  unknown : Command → List ℕ → NetworkMessage Header
  -- Any other message, by its command.
  other : Command → NetworkMessage Header

-- What we send.
pub data Sent (Header : Type 0) : Type 0 where
  sent_version : ℕ → Sent Header
  sent_send_addr_v2 sent_wtxid_relay sent_verack sent_get_addr sent_send_headers : Sent Header
  sent_send_cmpct : Bool → ℕ → Sent Header
  sent_get_headers : List ℕ → Sent Header
  sent_ping sent_pong sent_get_block_txn : ℕ → Sent Header
  sent_get_data : List Inventory → Sent Header
  sent_headers : List Header → Sent Header

pub data AnnouncementType : Type 0 where
  by_inv by_headers by_compact_block : AnnouncementType

pub data Unplaced : Type 0 where
  no_header orphan weaker_chain invalid_pow checkpoint_mismatch fork_below_checkpoint : Unplaced

pub record BlockAnnouncement : Type 0 where
  pub block_hash : ℕ
  pub announcement_type : AnnouncementType
  pub batch_size : ℕ
  pub height : Option ℕ
  pub new_to_us : Bool
  pub compact_block : Option CompactBlockShape
  pub unplaced : Option Unplaced

pub data AddrMessage : Type 0 where
  by_addr by_addrv2 : AddrMessage

pub record AddressAnnouncement : Type 0 where
  pub message : AddrMessage
  pub unparsed : ℕ
  pub addresses : List Gossiped
  pub solicited : Bool
  pub rate_limited : ℕ
  pub rate_limit_tokens : ℕ

pub data ProbeStage : Type 0 where
  requested answered : ProbeStage

pub data Event : Type 0 where
  block_announcement : BlockAnnouncement → Event
  address_announcement : AddressAnnouncement → Event
  compact_block_probe : ℕ → ProbeStage → Event
  ping_rtt : ℕ → Event
  event_send_cmpct : Bool → ℕ → Event
  event_fee_filter : ℕ → Event

-- What a session does, in order.
pub data Effect (Header : Type 0) : Type 0 where
  sent : Sent Header → Effect Header
  published : Event → Effect Header
  -- Addresses for the address manager.
  gossiped : List Gossiped → Effect Header
  -- The totals for the registry.
  refreshed : Counters → ℕ → Effect Header
