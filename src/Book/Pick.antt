-- ===== src/Book/Pick.antt =====
-- `pick` of observer/src/addresses/book.rs: one walk over the book fills five reservoirs, and the
-- addresses to dial are taken from them and marked as dialling.
pub mod Eligible
pub mod Apart
pub mod Nodup
pub mod Effect
pub mod Bound
use p2p_observer.Common.{
  ℕ, ◌+◌, Bool, true, false, not, ◌||◌, ◌&&◌, List, [], ◌∷◌, ◌++◌, ltb, if◌then◌else◌, length, take,
}
use p2p_observer.Common.Map.{get, has}
use p2p_observer.Float.{F32}
use p2p_observer.Banlist.{BanEntry, contains}
use p2p_observer.PeerAddr.{PeerAddr, PeerAddr-discrete, net}
use p2p_observer.PeerAddr.Display.{Renderer}
use p2p_observer.Policy.{unknown, good, was_good, bad, max_reconnects_per_tick}
use p2p_observer.Book.Allocate.{allocate}
use p2p_observer.Book.Entry.{Entry, Dial, EnabledNets, allows, class_of}
use p2p_observer.Book.Evict.{is_manual}
use p2p_observer.Book.Outcomes.{record_dialing}
use p2p_observer.Book.Reservoir
use p2p_observer.Book.Reservoir.{Reservoir}
use p2p_observer.Book.State.{Book, Entries, Active, Shares}

-- The reservoirs, and which of them an entry goes to.
pub data Pool : Type 0 where
  pool_manual pool_reconnect pool_unknown pool_was_good pool_bad : Pool

unfoldable pub pool_of : Entry → Pool
pool_of e = if is_manual e then pool_manual else elim (class_of e) [
  | good ↦ pool_reconnect
  | unknown ↦ pool_unknown
  | was_good ↦ pool_was_good
  | bad ↦ pool_bad
]

pub record Pools : Type 0 where
  pub rng : ℕ
  pub manual : Reservoir Dial
  pub reconnect : Reservoir Dial
  pub unknown : Reservoir Dial
  pub was_good : Reservoir Dial
  pub bad : Reservoir Dial

unfoldable pub start_pools : ℕ → ℕ → Pools
start_pools rng budget = record {
  rng = rng;
  manual = Reservoir.empty budget;
  reconnect = Reservoir.empty max_reconnects_per_tick;
  unknown = Reservoir.empty budget;
  was_good = Reservoir.empty budget;
  bad = Reservoir.empty budget;
}

abbrev pub pool : Pools → Pool → Reservoir Dial
pool s pool_manual = s.manual
pool s pool_reconnect = s.reconnect
pool s pool_unknown = s.unknown
pool s pool_was_good = s.was_good
pool s pool_bad = s.bad

abbrev pub with_pool : Pools → Pool → ℕ × Reservoir Dial → Pools
with_pool s pool_manual (rng, r) = record s { rng = rng; manual = r }
with_pool s pool_reconnect (rng, r) = record s { rng = rng; reconnect = r }
with_pool s pool_unknown (rng, r) = record s { rng = rng; unknown = r }
with_pool s pool_was_good (rng, r) = record s { rng = rng; was_good = r }
with_pool s pool_bad (rng, r) = record s { rng = rng; bad = r }

unfoldable pub offer_to : Pools → Pool → Dial → Pools
offer_to s p dial = with_pool s p (Reservoir.offer s.rng (pool s p) dial)

module _ (r : Renderer) (bans : List BanEntry) (nets : EnabledNets) (now : ℕ) where
  -- No task for it, due, on an enabled network and not banned.
  unfoldable pub dialable : Active → PeerAddr → Entry → Bool
  dialable active a e =
      if has PeerAddr-discrete a active
      then false
      else if ltb now e.next_attempt
      then false
      else not (not (allows nets (net a)) || contains r bans a)

  unfoldable pub walk : Active → Entries → Pools → Pools
  walk active [] s = s
  walk active ((a, e) ∷ rest) s = walk active rest (
      if dialable active a e
      then offer_to s (pool_of e) (record { addr = a; transport = e.transport })
      else s)

unfoldable pub record_all : List Dial → ℕ → Book → Book
record_all [] now b = b
record_all (d ∷ ds) now b = record_all ds now (record_dialing d.addr now b)

abbrev pub chosen : Pools → Shares ℕ → List Dial
chosen s taken =
    s.manual.items
    ++ (s.reconnect.items
        ++ (take taken.of_unknown s.unknown.items
            ++ (take taken.of_was_good s.was_good.items ++ take taken.of_bad s.bad.items)))

abbrev pub candidates : Pools → Shares ℕ
candidates s = record {
  of_unknown = length s.unknown.items;
  of_was_good = length s.was_good.items;
  of_bad = length s.bad.items;
}

module _ (f : F32) (r : Renderer) (bans : List BanEntry) (nets : EnabledNets) (now budget : ℕ) where
  unfoldable pub pools_of : Book → Pools
  pools_of b = walk r bans nets now b.active b.entries (start_pools b.rng budget)

  unfoldable pub dials_of : Book → List Dial
  dials_of b = let s = pools_of b in chosen s (allocate f budget (candidates s) b.credit).1

  -- The book after the pick, and the addresses to dial.
  unfoldable pub pick : Book → Book × List Dial
  pick b =
      let s = pools_of b in
      let credit = (allocate f budget (candidates s) b.credit).0 in
      (record_all (dials_of b) now (record b { credit = credit; rng = s.rng }), dials_of b)
