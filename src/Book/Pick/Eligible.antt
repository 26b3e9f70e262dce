-- ===== src/Book/Pick/Eligible.antt =====
-- Which addresses a pick may hand out, and how many.
use p2p_observer.Common.{
  ℕ, ◌≤◌, ◌≡◌, refl, true, false, List, [], ◌∷◌, none, some, arith, All, All-append, All-take,
  All-imp, Bool-cases, inl, inr,
}
use p2p_observer.Common.Map.{get, get_members}
use p2p_observer.Float.{F32}
use p2p_observer.Banlist.{BanEntry, contains}
use p2p_observer.PeerAddr.{PeerAddr, PeerAddr-discrete, net}
use p2p_observer.PeerAddr.Display.{Renderer}
use p2p_observer.Book.Allocate.{allocate}
use p2p_observer.Book.Entry.{Entry, Dial, EnabledNets, allows}
use p2p_observer.Book.Reservoir
use p2p_observer.Book.Reservoir.{Reservoir, IsSample}
use p2p_observer.Book.State.{Book, Entries, Active, IsBook}
use p2p_observer.Book.Pick.{
  Pool, pool_manual, pool_reconnect, pool_unknown, pool_was_good, pool_bad, pool_of, Pools,
  offer_to, start_pools, dialable, walk, candidates, pools_of, dials_of, pick,
}

-- A property of the dials that may depend on the pool they wait in.
module _ (P : Pool → Dial → Type 0) where
  pub record AllPools (s : Pools) : Type 0 where
    pub in_manual : All (P pool_manual) s.manual.items
    pub in_reconnect : All (P pool_reconnect) s.reconnect.items
    pub in_unknown : All (P pool_unknown) s.unknown.items
    pub in_was_good : All (P pool_was_good) s.was_good.items
    pub in_bad : All (P pool_bad) s.bad.items

  offer_to-AllPools :
      (s : Pools) (p : Pool) (d : Dial) → P p d → AllPools s → AllPools (offer_to s p d)
  unfolding offer_to
  offer_to-AllPools s pool_manual d h k =
      ground (arith, Reservoir.offer-All (P pool_manual) s.rng s.manual d h k.in_manual)
  offer_to-AllPools s pool_reconnect d h k =
      ground (arith, Reservoir.offer-All (P pool_reconnect) s.rng s.reconnect d h k.in_reconnect)
  offer_to-AllPools s pool_unknown d h k =
      ground (arith, Reservoir.offer-All (P pool_unknown) s.rng s.unknown d h k.in_unknown)
  offer_to-AllPools s pool_was_good d h k =
      ground (arith, Reservoir.offer-All (P pool_was_good) s.rng s.was_good d h k.in_was_good)
  offer_to-AllPools s pool_bad d h k =
      ground (arith, Reservoir.offer-All (P pool_bad) s.rng s.bad d h k.in_bad)

  start_pools-AllPools : (rng budget : ℕ) → AllPools (start_pools rng budget)
  unfolding start_pools Reservoir.empty
  start_pools-AllPools rng budget = record {
    in_manual = tt;
    in_reconnect = tt;
    in_unknown = tt;
    in_was_good = tt;
    in_bad = tt;
  }

  module _ (r : Renderer) (bans : List BanEntry) (nets : EnabledNets) (now : ℕ)
      (active : Active) where
    abbrev pub Enters : PeerAddr × Entry → Type 0
    Enters (a, e) =
        dialable r bans nets now active a e ≡ true
        → P (pool_of e) (record { addr = a; transport = e.transport })

    pub walk-AllPools :
        (m : Entries) (s : Pools)
        → All Enters m
        → AllPools s
        → AllPools (walk r bans nets now active m s)
    unfolding walk
    walk-AllPools [] s h k = k
    walk-AllPools ((a, e) ∷ m) s h k = elim (Bool-cases (dialable r bans nets now active a e)) [
      | inl yes_ ↦ rw yes_ (walk-AllPools m _ h.1 (offer_to-AllPools s (pool_of e) _ (h.0 yes_) k))
      | inr no_ ↦ rw no_ (walk-AllPools m s h.1 k)
    ]

  pub pools_of-AllPools :
      (r : Renderer) (bans : List BanEntry) (nets : EnabledNets) (now budget : ℕ) (f : F32)
      (b : Book)
      → All (Enters r bans nets now b.active) b.entries
      → AllPools (pools_of f r bans nets now budget b)
  unfolding pools_of
  pools_of-AllPools r bans nets now budget f b h =
      walk-AllPools r bans nets now b.active b.entries _ h (start_pools-AllPools b.rng budget)

module _ (r : Renderer) (bans : List BanEntry) (nets : EnabledNets) (now : ℕ) where
  -- An address that may be dialled now, and the pool that it waits in.
  pub record Waits (b : Book) (p : Pool) (d : Dial) : Type 0 where
    pub entry : Entry
    pub known : get PeerAddr-discrete d.addr b.entries ≡ some entry
    pub idle : get PeerAddr-discrete d.addr b.active ≡ none
    pub due : entry.next_attempt ≤ now
    pub enabled : allows nets (net d.addr) ≡ true
    pub not_banned : contains r bans d.addr ≡ false
    pub hint : d.transport ≡ entry.transport
    pub slot : pool_of entry ≡ p

  abbrev pub Eligible : Book → Dial → Type 0
  Eligible b d = (p : Pool) × Waits b p d

  dialable_sound :
      (active : Active) (a : PeerAddr) (e : Entry)
      → dialable r bans nets now active a e ≡ true
      → (get PeerAddr-discrete a active ≡ none)
        × (e.next_attempt ≤ now)
        × (allows nets (net a) ≡ true)
        × (contains r bans a ≡ false)
  unfolding dialable
  dialable_sound active a e h = ground arith

  enters : (b : Book) → IsBook b → All (Enters (Waits b) r bans nets now b.active) b.entries
  enters b v =
      All-imp (λ (x : PeerAddr × Entry). get PeerAddr-discrete x.0 b.entries ≡ some x.1)
        (Enters (Waits b) r bans nets now b.active) b.entries enter
        (get_members PeerAddr-discrete b.entries v.entries_IsMap)
    where
      enter :
          (x : PeerAddr × Entry)
          → get PeerAddr-discrete x.0 b.entries ≡ some x.1
          → Enters (Waits b) r bans nets now b.active x
      enter (a, e) known h =
          let s = dialable_sound b.active a e h in
          record {
            entry = e;
            known = known;
            idle = s.0;
            due = s.1;
            enabled = s.2;
            not_banned = s.3;
            hint = refl;
            slot = refl;
          }

  module _ (f : F32) (budget : ℕ) where
    pub pools_of-Waits :
        (b : Book) → IsBook b → AllPools (Waits b) (pools_of f r bans nets now budget b)
    pools_of-Waits b v = pools_of-AllPools (Waits b) r bans nets now budget f b (enters b v)

    from_pool : (b : Book) (p : Pool) (ds : List Dial) → All (Waits b p) ds → All (Eligible b) ds
    from_pool b p ds h = All-imp (Waits b p) (Eligible b) ds (λ d w. (p, w)) h

    -- Where no key stands twice in the book, every address that a pick hands out is in the book,
    -- with no task for it, due, on an enabled network and not banned, and comes with the transport
    -- hint of its entry.
    pub pick-Eligible : (b : Book) → IsBook b → All (Eligible b) (pick f r bans nets now budget b).1
    unfolding pick dials_of
    pick-Eligible b v =
        let s = pools_of f r bans nets now budget b in
        let taken = (allocate f budget (candidates s) b.credit).1 in
        let w = pools_of-Waits b v in
        All-append (Eligible b) _ _ (from_pool b pool_manual _ w.in_manual) (
          All-append (Eligible b) _ _ (from_pool b pool_reconnect _ w.in_reconnect) (
            All-append (Eligible b) _ _
              (from_pool b pool_unknown _
                (All-take (Waits b pool_unknown) taken.of_unknown _ w.in_unknown))
              (All-append (Eligible b) _ _
                (from_pool b pool_was_good _
                  (All-take (Waits b pool_was_good) taken.of_was_good _ w.in_was_good))
                (from_pool b pool_bad _ (All-take (Waits b pool_bad) taken.of_bad _ w.in_bad)))))
