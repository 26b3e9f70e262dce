-- ===== src/Book/Evict.antt =====
-- `evict_batch` of observer/src/addresses/book.rs: one walk over the table, then up to a batch of
-- removals.
pub mod Kept
use p2p_observer.Common.{
  ℕ, ◌+◌, ◌-◌, ◌/◌, min, max, Bool, true, false, ◌||◌, List, [], ◌∷◌, ◌++◌, ltb, leb, if◌then◌else◌,
  length, take,
}
use p2p_observer.Common.Map.{get, remove, has}
use p2p_observer.PeerAddr.{PeerAddr, PeerAddr-discrete}
use p2p_observer.Policy.{Origin, manual, gossip, Class, unknown, good, was_good, bad}
use p2p_observer.Book.Entry.{Entry, Dial, hint_unknown, class_of, forget_due}
use p2p_observer.Book.Reservoir
use p2p_observer.Book.Reservoir.{Reservoir}
use p2p_observer.Book.State.{Book, Entries, Active}

abbrev pub eviction_batch : ℕ
eviction_batch = 1024

abbrev pub eviction_batch_share : ℕ
eviction_batch_share = 16

abbrev pub batch_of : ℕ → ℕ
batch_of capacity = max (min eviction_batch (capacity / eviction_batch_share)) 1

abbrev pub is_manual : Entry → Bool
is_manual e = elim e.origin [ manual ↦ true | gossip ↦ false ]

abbrev pub is_unknown : Entry → Bool
is_unknown e = elim (class_of e) [ unknown ↦ true | good ↦ false | was_good ↦ false | bad ↦ false ]

pub record Scan : Type 0 where
  pub rng : ℕ
  pub forgettable : List PeerAddr
  pub sample : Reservoir Dial

-- One round of the walk, and whether it ends the walk.
unfoldable pub scan_entry : ℕ → ℕ → Active → PeerAddr → Entry → Scan → Scan × Bool
scan_entry now batch active addr e s =
    if is_manual e || has PeerAddr-discrete addr active
    then (s, false)
    else if forget_due now e
    then (
      record s { forgettable = s.forgettable ++ addr ∷ [] },
      leb batch (length (s.forgettable ++ addr ∷ [])),
    )
    else if is_unknown e
    then (
      (let (rng, sample) =
            Reservoir.offer s.rng s.sample (record { addr = addr; transport = hint_unknown }) in
          record s { rng = rng; sample = sample }),
      false,
    )
    else (s, false)

unfoldable pub scan : ℕ → ℕ → Active → Entries → Scan → Scan
unfolding scan_entry
scan now batch active [] s = s
scan now batch active ((addr, e) ∷ rest) s =
    let (s', stop) = scan_entry now batch active addr e s in
    let more = scan now batch active rest s' in if stop then s' else more

-- Remove each key, and count those that were there.
unfoldable pub remove_all : List PeerAddr → Entries → Entries × ℕ
remove_all [] m = (m, 0)
remove_all (a ∷ keys) m =
    let (m', n) = remove_all keys (remove PeerAddr-discrete a m) in
    (m', (if has PeerAddr-discrete a m then n + 1 else n))

abbrev pub dial_addrs : List Dial → List PeerAddr
dial_addrs [] = []
dial_addrs (d ∷ ds) = d.addr ∷ dial_addrs ds

abbrev pub start_scan : ℕ → ℕ → Scan
start_scan rng batch = record { rng = rng; forgettable = []; sample = Reservoir.empty batch }

abbrev pub scan_of : ℕ → Book → Scan
scan_of now b =
    scan now (batch_of b.capacity) b.active b.entries (start_scan b.rng (batch_of b.capacity))

-- The book after the pass, and whether there is room.
unfoldable pub evict_batch : ℕ → Book → Book × Bool
evict_batch now b =
    let batch = batch_of b.capacity in
    let s = scan_of now b in
    let (m, removed) = remove_all s.forgettable b.entries in
    let (m', more) = remove_all (take (batch - removed) (dial_addrs s.sample.items)) m in
    (
      record b { entries = m'; eviction_passes = b.eviction_passes + 1; rng = s.rng },
      ltb 0 (removed + more),
    )
