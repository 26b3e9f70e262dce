-- ===== src/Tests/Dialing.antt =====
-- A manager that dials, and what its picks and its tasks come to.
use p2p_observer.Common.{
  ℕ, ◌+◌, ◌*◌, ◌-◌, ◌≤◌, ◌≡◌, refl, ◌≢◌, false, [], ◌∷◌, some, length, All, min, arith, ℕ_discrete,
}
use p2p_observer.Common.Map.{get}
use p2p_observer.Float.{whole}
use p2p_observer.PeerAddr.{PeerAddr-discrete, net, ip}
use p2p_observer.Policy.{disconnected}
use p2p_observer.Banlist.{contains, contains_ip}
use p2p_observer.Book.Allocate.{allocate, Fits, total_of, allocate-Shared}
use p2p_observer.Book.Entry.{Dial, dialing, allows, class_of}
use p2p_observer.Book.Pick.{pick}
use p2p_observer.Book.Pick.Effect.{pick_twice, pick-marks, phase}
use p2p_observer.Book.Pick.Eligible.{Eligible, pick-Eligible}
use p2p_observer.Book.Pick.Apart.{Unique}
use p2p_observer.Book.Pick.Nodup.{pick-Unique}
use p2p_observer.Book.State.{Shares, dialing_count}
use p2p_observer.Manager.{Manager, connected, ended, dial_timer, life, handle, tick}
use p2p_observer.Manager.Ceiling.{length-tick-le, tick_over_ceiling}
use p2p_observer.Manager.Tasks.{Reach-Coherent}
use p2p_observer.Manager.Worlds.{
  World, here, next, dials, reports_connected, reports_end, Coherent, drop_task, with_dials,
}
use p2p_observer.Tests.{
  plain, all_nets, alice, good_peer, no_credit, two_peers, two_peers-IsBook, ban_of_alice,
}

-- The operator's address stays, the banned one does not.
pick-Eligible_example :
    All
      (Eligible plain (ban_of_alice ∷ []) all_nets 100 two_peers)
      (pick whole plain (ban_of_alice ∷ []) all_nets 100 1 two_peers).1
pick-Eligible_example =
    pick-Eligible plain (ban_of_alice ∷ []) all_nets 100 whole 1 two_peers two_peers-IsBook

pick-Unique_example : Unique (pick whole plain [] all_nets 100 1 two_peers).1
pick-Unique_example = pick-Unique whole plain [] all_nets 100 1 two_peers two_peers-IsBook

pick_twice_example :
    let first = pick whole plain [] all_nets 100 1 two_peers in
    let second = pick whole plain [] all_nets 200 5 first.0 in
    All (λ (d : Dial). All (λ (e : Dial). e.addr ≢ d.addr) second.1) first.1
pick_twice_example = pick_twice whole plain [] all_nets 100 1 200 5 two_peers two_peers-IsBook

pick-marks_example :
    All
      (λ (d : Dial). phase d.addr (pick whole plain [] all_nets 100 1 two_peers).0 ≡ some dialing)
      (pick whole plain [] all_nets 100 1 two_peers).1
pick-marks_example = pick-marks whole plain [] all_nets 100 1 two_peers

abbrev candidates : Shares ℕ
candidates = record { of_unknown = 3; of_was_good = 0; of_bad = 1 }

allocate-Shared_example :
    Fits whole (allocate whole 2 candidates no_credit).1 candidates
    × (total_of whole (allocate whole 2 candidates no_credit).1 ≡ min 2 (total_of whole candidates))
allocate-Shared_example = allocate-Shared whole 2 candidates no_credit

-- A manager with one task, for alice.
abbrev manager : Manager
manager = record {
  book = record two_peers { active = (alice, dialing) ∷ [] };
  bans = [];
  cfg = record { dials_per_tick = 10; max_dialing = 100; capacity = 2; nets = all_nets };
}

abbrev world : World
world = record { manager = manager; tasks = alice ∷ [] }

world-Coherent : Coherent world
unfolding get
world-Coherent = record {
  valid = record { entries_IsMap = two_peers-IsBook.entries_IsMap; active_IsMap = (refl, tt) };
  exclusive = (refl, tt);
  same = λ a. ground arith;
}

abbrev later : Manager
later =
    (handle whole plain 110 (life (ended alice (disconnected 40 false)))
      ((handle whole plain 100 (life (connected alice 9 2)) manager).0)).0

-- Alice connects, her session ends, and the manager dials again.
Reach-Coherent_example : Coherent (record {
  manager = (handle whole plain 120 dial_timer later).0;
  tasks = with_dials (handle whole plain 120 dial_timer later).1 (drop_task alice (alice ∷ []));
})
unfolding PeerAddr-discrete ℕ_discrete
Reach-Coherent_example =
    Reach-Coherent whole plain
      (next
        (next (next here (reports_connected 100 alice 9 2 refl))
          (reports_end 110 alice (disconnected 40 false) refl))
        (dials 120))
      world-Coherent

length-tick-le_example :
    (length (tick whole plain 100 manager).1 ≤ 2 * manager.cfg.dials_per_tick + 25)
    × (length (tick whole plain 100 manager).1
        ≤ 2 * (manager.cfg.max_dialing - dialing_count manager.book) + 25)
length-tick-le_example = length-tick-le whole plain 100 manager

-- No attempt is allowed, and alice is dialled.
abbrev closed : Manager
closed = record {
  book = record two_peers { entries = (alice, good_peer) ∷ [] };
  bans = [];
  cfg = record { dials_per_tick = 10; max_dialing = 0; capacity = 2; nets = all_nets };
}

tick_over_ceiling_example :
    (tick whole plain 100 closed).1 ≡ record { addr = alice; transport = good_peer.transport } ∷ []
unfolding allows net contains ip contains_ip class_of
tick_over_ceiling_example =
    tick_over_ceiling whole plain 100 closed alice good_peer refl refl refl (omega arith) refl refl
      refl refl
