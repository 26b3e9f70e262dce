-- ===== src/Book/Pick/Nodup.antt =====
-- The addresses of the dials that one pick puts together.
use p2p_observer.Common.{
  ℕ, ◌≡◌, refl, sym, ◌≢◌, ◌∙◌, ap, List, [], ◌∷◌, ◌++◌, none, some, arith, All, All-append,
  All-take, All-imp, take, Bool-cases, inl, inr,
}
use p2p_observer.Common.Map.{get, IsMap}
use p2p_observer.Float.{F32}
use p2p_observer.Banlist.{BanEntry}
use p2p_observer.PeerAddr.{PeerAddr, PeerAddr-discrete}
use p2p_observer.PeerAddr.Display.{Renderer}
use p2p_observer.Book.Allocate.{allocate}
use p2p_observer.Book.Entry.{Entry, Dial, EnabledNets}
use p2p_observer.Book.Reservoir
use p2p_observer.Book.Reservoir.{Reservoir}
use p2p_observer.Book.State.{Book, Entries, Active, IsBook}
use p2p_observer.Book.Pick.{
  Pool, pool_manual, pool_reconnect, pool_unknown, pool_was_good, pool_bad, pool_of, Pools,
  offer_to, start_pools, dialable, walk, candidates, pools_of, dials_of, pick,
}
use p2p_observer.Book.Pick.Eligible.{Waits, pools_of-Waits}
use p2p_observer.Book.Pick.Apart.{Apart, Unique, Unique-append, Unique-take, offer-Unique}

-- While the walk has `m` left, no dial that was offered is for an address in `m`.
abbrev Unmet : Entries → Dial → Type 0
Unmet m d = get PeerAddr-discrete d.addr m ≡ none

abbrev Fresh : Entries → List Dial → Type 0
Fresh m ds = Unique ds × All (Unmet m) ds

record FreshPools (m : Entries) (s : Pools) : Type 0 where
  in_manual : Fresh m s.manual.items
  in_reconnect : Fresh m s.reconnect.items
  in_unknown : Fresh m s.unknown.items
  in_was_good : Fresh m s.was_good.items
  in_bad : Fresh m s.bad.items

Unmet-cons :
    (a : PeerAddr) (e : Entry) (m : Entries) (d x : Dial)
    → d.addr ≡ a
    → Unmet ((a, e) ∷ m) x
    → Unmet m x × Apart x d
unfolding get
Unmet-cons a e m d x h k = ground arith

Fresh-tail :
    (a : PeerAddr) (e : Entry) (m : Entries) (ds : List Dial) → Fresh ((a, e) ∷ m) ds → Fresh m ds
Fresh-tail a e m ds h = (
  h.0,
  All-imp (Unmet ((a, e) ∷ m)) (Unmet m) ds
      (λ x k. (Unmet-cons a e m (record { addr = a; transport = e.transport }) x refl k).0) h.1,
)

Fresh-offer :
    (a : PeerAddr) (e : Entry) (m : Entries) (rng : ℕ) (r : Reservoir Dial)
    → get PeerAddr-discrete a m ≡ none
    → Fresh ((a, e) ∷ m) r.items
    → Fresh m (Reservoir.offer rng r (record { addr = a; transport = e.transport })).1.items
Fresh-offer a e m rng r n h =
    let d : Dial = record { addr = a; transport = e.transport } in
    let t = Fresh-tail a e m r.items h in
    (
      offer-Unique rng r d h.0 (
          All-imp (Unmet ((a, e) ∷ m)) (λ x. Apart x d) r.items
            (λ x k. (Unmet-cons a e m d x refl k).1) h.1),
      Reservoir.offer-All (Unmet m) rng r d n t.1,
    )

FreshPools-tail :
    (a : PeerAddr) (e : Entry) (m : Entries) (s : Pools)
    → FreshPools ((a, e) ∷ m) s
    → FreshPools m s
FreshPools-tail a e m s h = record {
  in_manual = Fresh-tail a e m _ h.in_manual;
  in_reconnect = Fresh-tail a e m _ h.in_reconnect;
  in_unknown = Fresh-tail a e m _ h.in_unknown;
  in_was_good = Fresh-tail a e m _ h.in_was_good;
  in_bad = Fresh-tail a e m _ h.in_bad;
}

offer_to-FreshPools :
    (a : PeerAddr) (e : Entry) (m : Entries) (s : Pools) (p : Pool)
    → get PeerAddr-discrete a m ≡ none
    → FreshPools ((a, e) ∷ m) s
    → FreshPools m (offer_to s p (record { addr = a; transport = e.transport }))
unfolding offer_to
offer_to-FreshPools a e m s pool_manual n h =
    ground (arith, FreshPools-tail a e m s h, Fresh-offer a e m s.rng s.manual n h.in_manual)
offer_to-FreshPools a e m s pool_reconnect n h =
    ground (arith, FreshPools-tail a e m s h, Fresh-offer a e m s.rng s.reconnect n h.in_reconnect)
offer_to-FreshPools a e m s pool_unknown n h =
    ground (arith, FreshPools-tail a e m s h, Fresh-offer a e m s.rng s.unknown n h.in_unknown)
offer_to-FreshPools a e m s pool_was_good n h =
    ground (arith, FreshPools-tail a e m s h, Fresh-offer a e m s.rng s.was_good n h.in_was_good)
offer_to-FreshPools a e m s pool_bad n h =
    ground (arith, FreshPools-tail a e m s h, Fresh-offer a e m s.rng s.bad n h.in_bad)

start-FreshPools : (m : Entries) (rng budget : ℕ) → FreshPools m (start_pools rng budget)
unfolding start_pools Reservoir.empty
start-FreshPools m rng budget = record {
  in_manual = (tt, tt);
  in_reconnect = (tt, tt);
  in_unknown = (tt, tt);
  in_was_good = (tt, tt);
  in_bad = (tt, tt);
}

module _ (r : Renderer) (bans : List BanEntry) (nets : EnabledNets) (now : ℕ) where
  walk-FreshPools :
      (active : Active) (m : Entries) (s : Pools)
      → IsMap PeerAddr-discrete m
      → FreshPools m s
      → FreshPools [] (walk r bans nets now active m s)
  unfolding walk
  walk-FreshPools active [] s d h = h
  walk-FreshPools active ((a, e) ∷ m) s d h =
      elim (Bool-cases (dialable r bans nets now active a e)) [
        | inl hit ↦
            rw hit (walk-FreshPools active m _ d.1 (offer_to-FreshPools a e m s (pool_of e) d.0 h))
        | inr miss ↦ rw miss (walk-FreshPools active m s d.1 (FreshPools-tail a e m s h))
      ]

  -- Dials out of two pools are for different addresses: an entry is offered to one pool.
  Waits-Apart :
      (b : Book) (p q : Pool) (d e : Dial)
      → p ≢ q
      → Waits r bans nets now b p d
      → Waits r bans nets now b q e
      → Apart d e
  Waits-Apart b p q d e n w v k =
      let same : get PeerAddr-discrete e.addr b.entries ≡ get PeerAddr-discrete d.addr b.entries =
        ap (λ (a : PeerAddr). get PeerAddr-discrete a b.entries) k in
      n (sym w.slot ∙ ap pool_of (one_entry (sym w.known ∙ sym same ∙ v.known)) ∙ v.slot)
    where
      one_entry : {x y : Entry} → some x ≡ some y → x ≡ y
      one_entry h = cc

  Waits-All :
      (b : Book) (p q : Pool) (ds es : List Dial)
      → p ≢ q
      → All (Waits r bans nets now b p) ds
      → All (Waits r bans nets now b q) es
      → All (λ d. All (Apart d) es) ds
  Waits-All b p q ds es n h k =
      All-imp (Waits r bans nets now b p) (λ d. All (Apart d) es) ds
        (λ d w.
          All-imp (Waits r bans nets now b q) (Apart d) es (λ e v. Waits-Apart b p q d e n w v) k)
        h

All-both : (P Q : Dial → Type 0) (ds : List Dial) → All P ds → All Q ds → All (λ d. P d × Q d) ds
All-both P Q [] h k = tt
All-both P Q (d ∷ ds) h k = ((h.0, k.0), All-both P Q ds h.1 k.1)

-- Two parts, each apart in itself and from the other.
join :
    (xs ys zs : List Dial)
    → All (λ d. All (Apart d) ys) xs
    → All (λ d. All (Apart d) zs) xs
    → All (λ d. All (Apart d) (ys ++ zs)) xs
join xs ys zs h k =
    All-imp (λ d. All (Apart d) ys × All (Apart d) zs) (λ d. All (Apart d) (ys ++ zs)) xs
      (λ d w. All-append (Apart d) ys zs w.0 w.1)
      (All-both (λ d. All (Apart d) ys) (λ d. All (Apart d) zs) xs h k)

module _ (f : F32) (r : Renderer) (bans : List BanEntry) (nets : EnabledNets) (now budget : ℕ) where
  -- Where no key stands twice in the book, one pick hands out no address twice.
  pub pick-Unique : (b : Book) → IsBook b → Unique (pick f r bans nets now budget b).1
  unfolding pick dials_of pools_of
  pick-Unique b v =
      let s = pools_of f r bans nets now budget b in
      let taken = (allocate f budget (candidates s) b.credit).1 in
      let w = pools_of-Waits r bans nets now f budget b v in
      let u =
        walk-FreshPools r bans nets now b.active b.entries (start_pools b.rng budget)
          v.entries_IsMap (start-FreshPools b.entries b.rng budget) in
      let Wait = Waits r bans nets now b in
      let apart = Waits-All r bans nets now b in
      let xs = s.manual.items in
      let ys = s.reconnect.items in
      let us = take taken.of_unknown s.unknown.items in
      let ws = take taken.of_was_good s.was_good.items in
      let bs = take taken.of_bad s.bad.items in
      let wu = All-take (Wait pool_unknown) taken.of_unknown s.unknown.items w.in_unknown in
      let ww = All-take (Wait pool_was_good) taken.of_was_good s.was_good.items w.in_was_good in
      let wb = All-take (Wait pool_bad) taken.of_bad s.bad.items w.in_bad in
      Unique-append xs (ys ++ (us ++ (ws ++ bs))) u.in_manual.0
        (Unique-append ys (us ++ (ws ++ bs)) u.in_reconnect.0
          (Unique-append us (ws ++ bs) (Unique-take taken.of_unknown _ u.in_unknown.0)
            (Unique-append ws bs (Unique-take taken.of_was_good _ u.in_was_good.0)
              (Unique-take taken.of_bad _ u.in_bad.0)
              (apart pool_was_good pool_bad ws bs (λ e. cc) ww wb))
            (join us ws bs (apart pool_unknown pool_was_good us ws (λ e. cc) wu ww)
              (apart pool_unknown pool_bad us bs (λ e. cc) wu wb)))
          (join ys us (ws ++ bs)
            (apart pool_reconnect pool_unknown ys us (λ e. cc) w.in_reconnect wu)
            (join ys ws bs (apart pool_reconnect pool_was_good ys ws (λ e. cc) w.in_reconnect ww)
              (apart pool_reconnect pool_bad ys bs (λ e. cc) w.in_reconnect wb))))
        (join xs ys (us ++ (ws ++ bs))
          (apart pool_manual pool_reconnect xs ys (λ e. cc) w.in_manual w.in_reconnect)
          (join xs us (ws ++ bs) (apart pool_manual pool_unknown xs us (λ e. cc) w.in_manual wu) (
            join xs ws bs (apart pool_manual pool_was_good xs ws (λ e. cc) w.in_manual ww)
              (apart pool_manual pool_bad xs bs (λ e. cc) w.in_manual wb))))
