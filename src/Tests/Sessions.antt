-- ===== src/Tests/Sessions.antt =====
-- Sessions over a tree of numbered blocks, with floats of fixed point: what holds of them always,
-- how they end, and what a peer can make of them.
use p2p_observer.Common.{
  ℕ, ◌+◌, ◌*◌, ◌≤◌, ◌≡◌, refl, All, true, false, List, [], ◌∷◌, ◌++◌, arith, length, take,
}
use p2p_observer.HeaderTree.Tree.{new_tree}
use p2p_observer.Session.Bucket.{
  addr_burst, fixed, fixed_one, fixed_laws, getheaders_rate, may_answer_getheaders, Bucket,
  getheaders_burst,
}
use p2p_observer.Session.Bucket.Spent.{IsTime, answer_all, answered, elapsed, answered-answer_all}
use p2p_observer.Session.Dispatch.{Library, Pass, tick, received, handle_message, run, run_loop}
use p2p_observer.Session.Gossip.Learnt.{learnt-offer_all}
use p2p_observer.Session.Gossip.Totals.{Offer, learnt, offer_all, replies, spared, times}
use p2p_observer.Session.Inv.{handle_inv}
use p2p_observer.Session.Inv.Announced.{announced, hashes, announced-handle_inv}
use p2p_observer.Session.Invariant.{Holds, IsConnection, Keeping, Sound}
use p2p_observer.Session.Invariant.Always.{handle_message-IsConnection, run-IsConnection}
use p2p_observer.Session.Invariant.Dispatched.{CanEnd}
use p2p_observer.Session.Messages.{
  Inventory, NetworkMessage, ping, pong, inv, headers, inv_block, inv_compact_block, inv_other,
  by_addrv2,
}
use p2p_observer.Session.Silence.{Early, Owes, Unanswered, run_loop-ends}
use p2p_observer.Session.State.{Clock, Connection, Error, ended, new_connection}
use p2p_observer.Session.Stats.{new_stats}
use p2p_observer.Session.Stats.Window.{new_stats-IsStats}
use p2p_observer.Tests.{alice, bob, carol, from_carol}
use p2p_observer.Tests.Headers.{numbered, new_tree-IsTree, new_tree-Led}
use p2p_observer.Tests.Messages.{one_octet}

abbrev pub lib : Library ℕ
lib = record {
  f64 = fixed;
  bitcoin = numbered;
  wire = one_octet;
  max_inv_size = 9;
  command = λ m. [];
}

abbrev pub start : Connection ℕ
start = new_connection fixed 1000 carol false false 20 (new_tree numbered)

new_tree-Sound : Sound numbered (new_tree numbered)
unfolding new_tree
new_tree-Sound = (new_tree-IsTree, new_tree-Led, refl)

pub start-IsConnection : IsConnection numbered fixed fixed_laws start
unfolding new_connection
start-IsConnection = (new_stats-IsStats 1000, new_tree-Sound, omega arith, omega arith)

abbrev at_second : ℕ → Clock
at_second n = record { instant = n * 1000; unix_ms = 5000000 + n * 1000 }

abbrev some_blocks : NetworkMessage ℕ
some_blocks = inv (inv_block 1 ∷ inv_other ∷ inv_compact_block 2 ∷ [])

abbrev passes : List (Pass ℕ)
passes =
    received (at_second 2) some_blocks
    ∷ received (at_second 3) (headers (1 ∷ 3 ∷ 2 ∷ []))
    ∷ tick (at_second 60)
    ∷ received (at_second 61) (pong 5060000)
    ∷ received (at_second 62) (ping 7)
    ∷ []

run-IsConnection_example :
    Holds
      (λ _ s. IsConnection numbered fixed fixed_laws s)
      (λ _ s. IsConnection numbered fixed fixed_laws s)
      (run lib passes (new_connection fixed 1000 carol false false 20 (new_tree numbered)))
run-IsConnection_example =
    run-IsConnection lib fixed_laws 1000 carol false false 20 (new_tree numbered) passes
      new_tree-Sound

handle_message-IsConnection_example :
    Holds
      (λ _ s. IsConnection numbered fixed fixed_laws s)
      (λ e s. CanEnd lib fixed_laws some_blocks start e × IsConnection numbered fixed fixed_laws s)
      (handle_message lib (at_second 2) some_blocks start)
handle_message-IsConnection_example =
    handle_message-IsConnection lib fixed_laws (at_second 2) some_blocks start start-IsConnection

abbrev nine_blocks : List Inventory
nine_blocks =
    inv_block 1
    ∷ inv_block 2
    ∷ inv_block 3
    ∷ inv_block 4
    ∷ inv_block 5
    ∷ inv_block 6
    ∷ inv_block 7
    ∷ inv_compact_block 8
    ∷ inv_block 9
    ∷ []

announced-handle_inv_example :
    Holds
      (λ _ s.
        (announced s.effects ≡ announced start.effects ++ take 8 (hashes nine_blocks))
        × (11 ≤ s.room))
      (λ _ _. ⊥)
      (handle_inv 9 2000 nine_blocks start)
unfolding new_connection
announced-handle_inv_example =
    announced-handle_inv numbered fixed fixed_laws 9 2000 nine_blocks start 11 start-IsConnection
      (omega arith) (omega arith)

-- Three messages of one address, the first of them the peer's own.
abbrev offers : List Offer
offers =
    record { now = 2000; message = by_addrv2; received = 1; parsed = from_carol }
    ∷ record {
      now = 3000;
      message = by_addrv2;
      received = 2;
      parsed =
          record { addr = alice; services = 1; ntime = 5 }
          ∷ record { addr = bob; services = 1; ntime = 6 }
          ∷ [];
    }
    ∷ record { now = 4000; message = by_addrv2; received = 3; parsed = from_carol }
    ∷ []

abbrev asked : Connection ℕ
asked = record start { getaddr_outstanding = true }

offers-IsTime : All IsTime (times offers)
offers-IsTime = (omega arith, (omega arith, (omega arith, tt)))

asked_small : fixed_laws.value asked.addr_bucket.tokens ≤ 1000 * fixed_laws.one
unfolding new_connection addr_burst fixed_laws
asked_small = omega arith

learnt-offer_all_example :
    Holds
      (λ _ s.
        (10000000000000 * learnt s.effects
          ≤ 10000000000000 * 1000
            + 1000000000 * elapsed asked.addr_bucket.updated (times offers)
            + 10000 * 3
            + 10000000000000 * spared (replies s.effects))
        × (length (replies s.effects) ≤ 1))
      (λ _ _. ⊥)
      (offer_all fixed offers asked)
unfolding new_connection
learnt-offer_all_example =
    learnt-offer_all fixed fixed_laws offers asked 1000 offers-IsTime refl asked_small

-- Five requests at once, and one half a minute later.
abbrev requests : List ℕ
requests = 1000 ∷ 1000 ∷ 1000 ∷ 1000 ∷ 1000 ∷ 31000 ∷ []

abbrev full_bucket : Bucket
full_bucket = record { tokens = 4 * fixed_one; updated = 1000 }

requests_answered :
    (answer_all fixed requests full_bucket).1 ≡ true ∷ true ∷ true ∷ true ∷ false ∷ true ∷ []
unfolding answer_all may_answer_getheaders getheaders_rate getheaders_burst
requests_answered = refl

requests-IsTime : All IsTime requests
requests-IsTime =
    (omega arith, (omega arith, (omega arith, (omega arith, (omega arith, (omega arith, tt))))))

answered-answer_all_example :
    30000000000000 * answered (answer_all fixed requests full_bucket).1
    ≤ 30000000000000 * 4 + 1000000000 * 30000 + 30000 * 6
unfolding fixed_laws
answered-answer_all_example =
    answered-answer_all fixed fixed_laws requests full_bucket 4 requests-IsTime (omega arith)

-- A ping is out since the start, and the peer sends blocks only.
abbrev owing : Connection ℕ
owing = record start { stats = record start.stats { outstanding_pings = 5001000 ∷ [] } }

abbrev silent_passes : List (Pass ℕ)
silent_passes =
    tick (at_second 60) ∷ received (at_second 70) some_blocks ∷ tick (at_second 1201) ∷ []

silent_passes-Unanswered : All Unanswered silent_passes
silent_passes-Unanswered = (tt, (λ nonce e. cc e, (tt, tt)))

silent_passes_late : ¬ All (Early 1000) silent_passes
silent_passes_late h = omega (arith, h.1.1.0)

owing-Keeping : Keeping numbered fixed fixed_laws (Owes 1000) owing
unfolding new_connection new_stats
owing-Keeping = ((refl, refl), start-IsConnection.1, start-IsConnection.2, start-IsConnection.3)

run_loop-ends_example :
    (e : Error) × (s : Connection ℕ) × (run_loop lib silent_passes owing ≡ ended e s)
run_loop-ends_example =
    run_loop-ends lib fixed_laws 1000 silent_passes owing silent_passes-Unanswered
      silent_passes_late owing-Keeping
