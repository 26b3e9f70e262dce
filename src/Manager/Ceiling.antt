-- ===== src/Manager/Ceiling.antt =====
-- How many dials a tick starts, beside the ceiling on the attempts in flight.
use p2p_observer.Common.{ℕ, ◌+◌, ◌-◌, ◌*◌, ◌≤◌, ◌≡◌, true, false, [], ◌∷◌, arith, min, length}
use p2p_observer.Common.Map.{get}
use p2p_observer.Float.{F32}
use p2p_observer.Banlist.{contains}
use p2p_observer.PeerAddr.{PeerAddr, net}
use p2p_observer.PeerAddr.Display.{Renderer}
use p2p_observer.Policy.{gossip, good}
use p2p_observer.Book.Entry.{Entry, allows, class_of}
use p2p_observer.Book.Allocate.{allocate, hand_out}
use p2p_observer.Book.Pick.{
  pick, dials_of, pools_of, walk, dialable, offer_to, pool_of, start_pools,
}
use p2p_observer.Book.Pick.Bound.{length-pick-le}
use p2p_observer.Book.Reservoir
use p2p_observer.Book.State.{dialing_count}
use p2p_observer.Manager.{Manager, tick}

module _ (f : F32) (r : Renderer) where
  -- A tick starts at most twenty-five dials more than twice the per-tick rate, and at most
  -- twenty-five more than twice the room under the ceiling.
  pub length-tick-le :
      (now : ℕ) (m : Manager)
      → (length (tick f r now m).1 ≤ 2 * m.cfg.dials_per_tick + 25)
        × (length (tick f r now m).1 ≤ 2 * (m.cfg.max_dialing - dialing_count m.book) + 25)
  unfolding tick
  length-tick-le now m =
      let k =
        length-pick-le r m.bans m.cfg.nets now
          (min m.cfg.dials_per_tick (m.cfg.max_dialing - dialing_count m.book)) f m.book in
      (omega arith, omega arith)

  -- With a ceiling of no attempt at all, a tick dials a good, gossiped address that is due,
  -- allowed and not banned, and the only one in the book, where there is no task.
  pub tick_over_ceiling :
      (now : ℕ) (m : Manager) (a : PeerAddr) (e : Entry)
      → m.cfg.max_dialing ≡ 0
      → m.book.entries ≡ (a, e) ∷ []
      → m.book.active ≡ []
      → e.next_attempt ≤ now
      → allows m.cfg.nets (net a) ≡ true
      → contains r m.bans a ≡ false
      → e.origin ≡ gossip
      → class_of e ≡ good
      → (tick f r now m).1 ≡ record { addr = a; transport = e.transport } ∷ []
  unfolding tick pick dials_of pools_of walk dialable offer_to pool_of start_pools get
      Reservoir.offer Reservoir.empty allocate hand_out
  tick_over_ceiling now m a e none_allowed entries active due net_ok not_banned origin class =
      ground arith
