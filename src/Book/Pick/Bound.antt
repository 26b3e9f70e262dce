-- ===== src/Book/Pick/Bound.antt =====
-- How many addresses one pick may hand out.
use p2p_observer.Common.{
  ℕ, ◌+◌, ◌*◌, ◌≤◌, ◌≡◌, refl, Bool, true, false, List, [], ◌∷◌, ◌++◌, arith, length, take,
  length-append, length-take, if◌then◌else◌,
}
use p2p_observer.Float.{F32}
use p2p_observer.Banlist.{BanEntry}
use p2p_observer.PeerAddr.Display.{Renderer}
use p2p_observer.Book.Allocate.{allocate, allocate-Shared}
use p2p_observer.Book.Entry.{Dial, EnabledNets}
use p2p_observer.Book.Reservoir
use p2p_observer.Book.Reservoir.{Reservoir, IsSample}
use p2p_observer.Book.State.{Book, Entries, Active, Shares}
use p2p_observer.Book.Pick.{
  Pool, pool_manual, pool_reconnect, pool_unknown, pool_was_good, pool_bad, pool_of, Pools,
  offer_to, start_pools, dialable, walk, chosen, candidates, pools_of, dials_of, pick,
}

-- The sizes that the walk keeps: each reservoir within its own bound.
record Sized (budget : ℕ) (s : Pools) : Type 0 where
  manual_sample : IsSample s.manual
  reconnect_sample : IsSample s.reconnect
  manual_k : s.manual.k ≡ budget
  reconnect_k : s.reconnect.k ≡ 25

offer_to-Sized :
    (budget : ℕ) (s : Pools) (p : Pool) (d : Dial) → Sized budget s → Sized budget (offer_to s p d)
unfolding offer_to
offer_to-Sized budget s pool_manual d h = ground (
  arith,
  Reservoir.offer-IsSample s.rng s.manual d h.manual_sample,
  Reservoir.offer-k s.rng s.manual d,
)
offer_to-Sized budget s pool_reconnect d h = ground (
  arith,
  Reservoir.offer-IsSample s.rng s.reconnect d h.reconnect_sample,
  Reservoir.offer-k s.rng s.reconnect d,
)
offer_to-Sized budget s pool_unknown d h = ground arith
offer_to-Sized budget s pool_was_good d h = ground arith
offer_to-Sized budget s pool_bad d h = ground arith

module _ (r : Renderer) (bans : List BanEntry) (nets : EnabledNets) (now budget : ℕ) where
  walk-Sized :
      (active : Active) (m : Entries) (s : Pools)
      → Sized budget s
      → Sized budget (walk r bans nets now active m s)
  unfolding walk
  walk-Sized active [] s h = h
  walk-Sized active ((a, e) ∷ m) s h =
      walk-Sized active m _
        (step (dialable r bans nets now active a e) (offer_to-Sized budget s (pool_of e) _ h))
    where
      step : {t : Pools} (b : Bool) → Sized budget t → Sized budget (if b then t else s)
      step true k = k
      step false k = h

  start-Sized : (rng : ℕ) → Sized budget (start_pools rng budget)
  unfolding start_pools Reservoir.empty
  start-Sized rng = record {
    manual_sample = record { size = omega arith };
    reconnect_sample = record { size = omega arith };
    manual_k = refl;
    reconnect_k = refl;
  }

  module _ (f : F32) where
    pools_of-Sized : (b : Book) → Sized budget (pools_of f r bans nets now budget b)
    unfolding pools_of
    pools_of-Sized b = walk-Sized b.active b.entries _ (start-Sized b.rng)

    length-chosen :
        (s : Pools) (t : Shares ℕ)
        → length (chosen s t)
          ≤ length s.manual.items
            + length s.reconnect.items
            + (t.of_unknown + t.of_was_good + t.of_bad)
    length-chosen s t = omega (
      arith,
      length-append s.manual.items (
          s.reconnect.items
          ++ (take t.of_unknown s.unknown.items
              ++ (take t.of_was_good s.was_good.items ++ take t.of_bad s.bad.items))),
      length-append s.reconnect.items (
          take t.of_unknown s.unknown.items
          ++ (take t.of_was_good s.was_good.items ++ take t.of_bad s.bad.items)),
      length-append (take t.of_unknown s.unknown.items)
          (take t.of_was_good s.was_good.items ++ take t.of_bad s.bad.items),
      length-append (take t.of_was_good s.was_good.items) (take t.of_bad s.bad.items),
      length-take t.of_unknown s.unknown.items,
      length-take t.of_was_good s.was_good.items,
      length-take t.of_bad s.bad.items,
    )

    -- A pick hands out at most the budget three ways: as many manual addresses, twenty-five
    -- reconnects, and as many others.
    pub length-pick-le : (b : Book) → length (pick f r bans nets now budget b).1 ≤ 2 * budget + 25
    unfolding pick dials_of
    length-pick-le b =
        let s = pools_of f r bans nets now budget b in
        let z = pools_of-Sized b in
        omega (
          arith,
          length-chosen s (allocate f budget (candidates s) b.credit).1,
          (allocate-Shared f budget (candidates s) b.credit).1,
          z.manual_sample.size,
          z.reconnect_sample.size,
          z.manual_k,
          z.reconnect_k,
        )
