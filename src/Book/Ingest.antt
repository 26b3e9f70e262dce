-- ===== src/Book/Ingest.antt =====
-- `ingest` and `insert_manual` of observer/src/addresses/book.rs: how addresses enter the book.
pub mod Admits
pub mod Spares
use p2p_observer.Common.{
  ℕ, ◌+◌, Bool, true, false, not, ◌||◌, ◌&&◌, List, [], ◌∷◌, Option, none, some, ltb, leb,
  if◌then◌else◌, length,
}
use p2p_observer.Common.Map.{get, insert, modify, has}
use p2p_observer.Banlist.{BanEntry, contains}
use p2p_observer.PeerAddr.{PeerAddr, PeerAddr-discrete, is_routable}
use p2p_observer.PeerAddr.Display.{Renderer}
use p2p_observer.Policy.{Origin, manual, gossip}
use p2p_observer.Book.Entry.{Entry, Gossiped, new_entry, refreshed}
use p2p_observer.Book.Evict.{evict_batch, is_manual}
use p2p_observer.Book.State.{Book}

abbrev pub add_new : ℕ → Gossiped → Book → Book
add_new now g b = record b {
  entries = insert PeerAddr-discrete g.addr (new_entry now g.services gossip) b.entries;
}

-- An address that is not in the book: added if there is room, or if a batch can be evicted.
unfoldable pub ingest_new : ℕ → Gossiped → Book → Book × ℕ
ingest_new now g b =
    if leb b.capacity (length b.entries)
    then (let (b', room) = evict_batch now b in if room then (add_new now g b', 1) else (b', 0))
    else (add_new now g b, 1)

unfoldable pub ingest_one : Renderer → List BanEntry → ℕ → Gossiped → Book → Book × ℕ
ingest_one r bans now g b =
    if not (is_routable g.addr) || contains r bans g.addr
    then (b, 0)
    else if has PeerAddr-discrete g.addr b.entries
    then (
      record b { entries = modify PeerAddr-discrete g.addr (refreshed now g.services) b.entries },
      0,
    )
    else ingest_new now g b

unfoldable pub ingest : Renderer → List BanEntry → ℕ → List Gossiped → Book → Book × ℕ
ingest r bans now [] b = (b, 0)
ingest r bans now (g ∷ gs) b =
    let (b', n) = ingest_one r bans now g b in
    let (b'', m) = ingest r bans now gs b' in (b'', n + m)

unfoldable pub insert_manual_one : ℕ → PeerAddr → Book → Book × ℕ
insert_manual_one now a b = elim (get PeerAddr-discrete a b.entries) [
  | some e ↦
      (if is_manual e then (b, 0) else (
        record b {
          entries = modify PeerAddr-discrete a (λ x. record x { origin = manual }) b.entries;
        },
        1,
      ))
  | none ↦ (record b { entries = insert PeerAddr-discrete a (new_entry now 0 manual) b.entries }, 1)
]

unfoldable pub insert_manual : ℕ → List PeerAddr → Book → Book × ℕ
insert_manual now [] b = (b, 0)
insert_manual now (a ∷ addrs) b =
    let (b', n) = insert_manual_one now a b in
    let (b'', m) = insert_manual now addrs b' in (b'', n + m)
