-- ===== src/Book/Outcomes.antt =====
-- The `record_…` operations of observer/src/addresses/book.rs: what a connection task reports.
pub mod Ended
pub mod Hint
use p2p_observer.Common.{ℕ, Bool, true, false, List, Option, none, some, if◌then◌else◌}
use p2p_observer.Common.Map.{get, insert, modify, remove}
use p2p_observer.Float.{F32}
use p2p_observer.PeerAddr.{PeerAddr, PeerAddr-discrete}
use p2p_observer.Policy.{Outcome}
use p2p_observer.Book.Entry.{
  Entry, dialing, connected, TransportHint, hint_unknown, hint_v2, hint_v1_only, after_handshake,
  after_end, forget_due,
}
use p2p_observer.Book.Rng.{next_f32}
use p2p_observer.Book.State.{Book}

unfoldable pub record_dialing : PeerAddr → ℕ → Book → Book
record_dialing a now b = record b {
  active = insert PeerAddr-discrete a dialing b.active;
  entries = modify PeerAddr-discrete a (λ e. record e { last_attempt = now }) b.entries;
}

unfoldable pub record_connected : PeerAddr → ℕ → ℕ → ℕ → Book → Book
record_connected a now services transport_version b = record b {
  active = insert PeerAddr-discrete a connected b.active;
  entries = modify PeerAddr-discrete a (after_handshake now services transport_version) b.entries;
}

unfoldable pub record_ended : F32 → PeerAddr → ℕ → Outcome → Book → Book
record_ended f a now outcome b =
    let (rng, r) = next_f32 f b.rng in
    let active = remove PeerAddr-discrete a b.active in
    elim (get PeerAddr-discrete a b.entries) [
      | none ↦ record b { active = active; rng = rng }
      | some e ↦ record b {
        active = active;
        rng = rng;
        entries =
            (if forget_due now (after_end f now r outcome e)
              then remove PeerAddr-discrete a b.entries
              else modify PeerAddr-discrete a (after_end f now r outcome) b.entries);
      }
    ]

abbrev pub v1_only : Entry → Entry
v1_only e = elim e.transport [
  | hint_unknown ↦ record e { transport = hint_v1_only }
  | hint_v2 ↦ e
  | hint_v1_only ↦ e
]

unfoldable pub record_v1_only : PeerAddr → Book → Book
record_v1_only a b = record b { entries = modify PeerAddr-discrete a v1_only b.entries }
