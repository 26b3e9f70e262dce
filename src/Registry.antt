-- ===== src/Registry.antt =====
-- observer/src/connections.rs: the registry of the live sessions, by connection id. Its lock makes
-- each operation one step; a poisoned lock is recovered, and the map with it. A guard that is
-- dropped is an operation, `release`.
pub mod Shown
use p2p_observer.Common.{ℕ, Bool, List, [], ◌∷◌, leb, if◌then◌else◌, ℕ_discrete}
use p2p_observer.Common.Map.{insert, modify, remove}
use p2p_observer.PeerAddr.{PeerAddr}
use p2p_observer.Session.Stats.{Counters}

pub record Live : Type 0 where
  pub addr : PeerAddr
  pub transport_version : ℕ
  pub connected_ms : ℕ
  pub user_agent : List ℕ
  pub protocol_version : ℕ
  pub services : ℕ
  pub start_height : ℕ
  pub relay : Bool
  pub sendaddrv2 : Bool
  pub wtxid_relay : Bool
  pub addr_recv : List ℕ
  pub peer_timestamp : ℕ
  pub counters : Counters
  pub updated_ms : ℕ

abbrev pub Registry : Type 0
Registry = List (ℕ × Live)

unfoldable pub register : ℕ → Live → Registry → Registry
unfolding insert
register id live m = insert ℕ_discrete id live m

abbrev pub with_counters : Counters → ℕ → Live → Live
with_counters counters now_ms live = record live { counters = counters; updated_ms = now_ms }

-- Nothing is done for a session that is gone.
unfoldable pub refresh : ℕ → Counters → ℕ → Registry → Registry
unfolding modify
refresh id counters now_ms m = modify ℕ_discrete id (with_counters counters now_ms) m

unfoldable pub release : ℕ → Registry → Registry
unfolding remove
release id m = remove ℕ_discrete id m

unfoldable pub insert_by_id : ℕ → Live → Registry → Registry
insert_by_id id live [] = (id, live) ∷ []
insert_by_id id live ((j, w) ∷ m) =
    if leb id j then (id, live) ∷ (j, w) ∷ m else (j, w) ∷ insert_by_id id live m

-- Every live session, the oldest id first.
unfoldable pub snapshot : Registry → List (ℕ × Live)
unfolding insert_by_id
snapshot [] = []
snapshot ((id, live) ∷ m) = insert_by_id id live (snapshot m)
