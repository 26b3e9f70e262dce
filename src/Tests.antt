-- ===== src/Tests.antt =====
-- Runs of the model on concrete inputs, and the values that they share.
mod Dialing
mod Keeping
mod Rules
mod Headers
mod Sessions
mod Messages
mod Streams
mod Attempts
use p2p_observer.Common.{ℕ, refl, ◌≡◌, true, false, List, [], ◌∷◌, none, some, ℕ_discrete, arith}
use p2p_observer.Common.Map.{get, IsMap}
use p2p_observer.Banlist.{BanEntry}
use p2p_observer.PeerAddr.{PeerAddr, PeerAddr-discrete, ipv4, tor_v3, IpAddr, v4}
use p2p_observer.PeerAddr.Display.{Renderer}
use p2p_observer.Policy.{manual, gossip}
use p2p_observer.Book.Entry.{Entry, EnabledNets, Gossiped, hint_unknown, hint_v1_only}
use p2p_observer.Book.State.{Book, IsBook, Shares}

-- A renderer that hashes and prints nothing.
abbrev pub plain : Renderer
plain = record { sha3_256 = λ b. b; ipv6_text = λ b. b }

abbrev pub all_nets : EnabledNets
all_nets = record { ipv4 = true; ipv6 = true; tor = true; cjdns = true; i2p = true }

abbrev pub alice : PeerAddr
alice = ipv4 (11 ∷ 22 ∷ 33 ∷ 44 ∷ []) 8333

abbrev pub bob : PeerAddr
bob = ipv4 (55 ∷ 66 ∷ 77 ∷ 88 ∷ []) 8333

abbrev pub carol : PeerAddr
carol = ipv4 (99 ∷ 88 ∷ 77 ∷ 66 ∷ []) 8333

-- A gossiped peer whose last session went well.
abbrev pub good_peer : Entry
good_peer = record {
  services = 1;
  last_announced = 50;
  last_attempt = 60;
  last_success = 60;
  next_attempt = 90;
  failures = 0;
  short_sessions = 0;
  last_attempt_failed = false;
  origin = gossip;
  transport = hint_v1_only;
}

-- The operator's peer, never tried.
abbrev pub operators_peer : Entry
operators_peer = record good_peer {
  last_attempt = 0;
  last_success = 0;
  next_attempt = 0;
  origin = manual;
  transport = hint_unknown;
}

abbrev pub no_credit : Shares ℕ
no_credit = record { of_unknown = 0; of_was_good = 0; of_bad = 0 }

abbrev pub two_peers : Book
two_peers = record {
  entries = (alice, good_peer) ∷ (bob, operators_peer) ∷ [];
  active = [];
  credit = no_credit;
  capacity = 2;
  eviction_passes = 0;
  rng = 1;
}

pub two_peers-IsBook : IsBook two_peers
unfolding get PeerAddr-discrete ℕ_discrete
two_peers-IsBook = record { entries_IsMap = (refl, (refl, tt)); active_IsMap = tt }

abbrev pub from_carol : List Gossiped
from_carol = record { addr = carol; services = 9; ntime = 100 } ∷ []

abbrev pub ban_of_alice : BanEntry
ban_of_alice = record {
  comment = none;
  nets = record { addr = v4 (11 ∷ 22 ∷ 0 ∷ 0 ∷ []); prefix_len = 16 } ∷ [];
  hosts = [];
}
