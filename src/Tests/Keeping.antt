-- ===== src/Tests/Keeping.antt =====
-- What stays in a book through gossip, evictions and the ends of attempts.
use p2p_observer.Common.{
  ℕ, List, ◌∷◌, ◌≢◌, ◌≤◌, ◌≡◌, refl, inr, [], none, some, length, max, arith, ℕ_discrete,
}
use p2p_observer.Common.Map.{get, remove, modify}
use p2p_observer.Float.{whole}
use p2p_observer.PeerAddr.{PeerAddr-discrete}
use p2p_observer.Policy.{
  Reason, failed, other, jitter, retry_delay_secs, exp_backoff, should_forget,
}
use p2p_observer.Book.Entry.{Entry, counted, after_end, after_handshake, refreshed, hint_v2}
use p2p_observer.Book.Evict.{evict_batch}
use p2p_observer.Book.Evict.Kept.{Victim, evict_batch-spares}
use p2p_observer.Book.Ingest.{ingest}
use p2p_observer.Book.Ingest.Admits.{ingest-size}
use p2p_observer.Book.Ingest.Spares.{Kept, ingest-Kept}
use p2p_observer.Book.Outcomes.{record_ended, v1_only}
use p2p_observer.Book.Outcomes.Ended.{Judged, record_failures, record_failures-Judged}
use p2p_observer.Book.Outcomes.Hint.{hint_v2_stays}
use p2p_observer.Book.Rng.{next_f32, next_u64}
use p2p_observer.Book.State.{Book, IsBook}
use p2p_observer.Tests.{
  plain, alice, bob, good_peer, operators_peer, two_peers, two_peers-IsBook, from_carol,
}

-- The book is full, and carol is announced.
ingest-Kept_example : Kept (ingest plain [] 100 from_carol two_peers).0 alice good_peer
unfolding get PeerAddr-discrete ℕ_discrete
ingest-Kept_example =
    ingest-Kept plain [] 100 from_carol two_peers alice good_peer two_peers-IsBook refl
      (inr (inr (omega arith, omega arith)))

ingest-size_example :
    IsBook (ingest plain [] 100 from_carol two_peers).0
    × (length (ingest plain [] 100 from_carol two_peers).0.entries ≤ max 2 2)
    × ((ingest plain [] 100 from_carol two_peers).0.active ≡ [])
ingest-size_example = ingest-size plain [] 100 from_carol two_peers two_peers-IsBook

not_Victim-bob : ¬ Victim 100 [] two_peers.entries bob
unfolding get PeerAddr-discrete ℕ_discrete
not_Victim-bob w = ground (arith, w.known, w.gossiped)

evict_batch-spares_example :
    get PeerAddr-discrete bob (evict_batch 100 two_peers).0.entries ≡ some operators_peer
unfolding get PeerAddr-discrete ℕ_discrete
evict_batch-spares_example = evict_batch-spares 100 two_peers two_peers-IsBook bob not_Victim-bob

-- A peer of gossip that never connected, and failed once, beside the operator's.
abbrev new_peer : Entry
new_peer = record good_peer { last_success = 0; failures = 1 }

abbrev new_and_manual : Book
new_and_manual = record two_peers { entries = (alice, new_peer) ∷ (bob, operators_peer) ∷ [] }

-- Its last announcement was forty days ago when it fails for the third time.
abbrev failures : List (ℕ × Reason)
failures = (3500000, other) ∷ []

third_is_last :
    get PeerAddr-discrete alice
      (record_failures whole alice ((100, other) ∷ failures) new_and_manual).entries
    ≡ none
unfolding record_failures record_ended get remove modify PeerAddr-discrete ℕ_discrete next_f32
    next_u64 after_end counted jitter retry_delay_secs exp_backoff should_forget
third_is_last = refl

alice_is_not_bob : alice ≢ bob
alice_is_not_bob e = cc e

record_failures-Judged_example :
    let after = record_failures whole alice ((100, other) ∷ failures) new_and_manual in
    Judged 3 (get PeerAddr-discrete alice after.entries)
    × (get PeerAddr-discrete bob after.entries ≡ some operators_peer)
unfolding get PeerAddr-discrete ℕ_discrete
record_failures-Judged_example =
    record_failures-Judged whole alice bob 100 other failures new_and_manual new_peer refl refl refl
      alice_is_not_bob

abbrev v2_peer : Entry
v2_peer = record good_peer { transport = hint_v2 }

hint_v2_stays_example :
    ((refreshed 100 9 v2_peer).transport ≡ hint_v2)
    × ((after_handshake 100 9 1 v2_peer).transport ≡ hint_v2)
    × ((v1_only v2_peer).transport ≡ hint_v2)
    × ((after_end whole 100 0 (failed other) v2_peer).transport ≡ hint_v2)
hint_v2_stays_example = hint_v2_stays whole v2_peer 100 9 1 0 (failed other) refl
