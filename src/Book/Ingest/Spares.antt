-- ===== src/Book/Ingest/Spares.antt =====
-- Which entries no gossip can displace.
use p2p_observer.Common.{
  ℕ, ◌+◌, ◌≤◌, ◌<◌, ◌≡◌, refl, sym, ◌≢◌, ◌∙◌, ap, ◌⊎◌, inl, inr, true, false, not, ◌||◌, List, [],
  ◌∷◌, none, some, arith, Bool-cases, ite,
}
use p2p_observer.Common.Map.{get, has, modify, get-insert, get-modify_ne, get-modify-some}
use p2p_observer.Banlist.{BanEntry, contains}
use p2p_observer.PeerAddr.{PeerAddr, PeerAddr-discrete, is_routable}
use p2p_observer.PeerAddr.Display.{Renderer}
use p2p_observer.Policy.{
  unknown, manual, gossip, classify, should_forget, was_good_forget_after_secs,
}
use p2p_observer.Book.Entry.{Entry, Gossiped, class_of, forget_due, new_entry, refreshed}
use p2p_observer.Book.Evict.{evict_batch, is_manual}
use p2p_observer.Book.Evict.Kept.{Victim, evict_batch-spares}
use p2p_observer.Book.Ingest.{add_new, ingest_new, ingest_one, ingest}
use p2p_observer.Book.Ingest.Admits.{ingest_one-Keeps}
use p2p_observer.Book.State.{Book, IsBook, Active}

-- An operator's address, one with a task, or one that connected within the last thirty days.
abbrev pub Protected : ℕ → Active → PeerAddr → Entry → Type 0
Protected now active a e =
    (e.origin ≡ manual)
    ⊎ (has PeerAddr-discrete a active ≡ true)
    ⊎ ((0 < e.last_success) × (now ≤ e.last_success + was_good_forget_after_secs))

-- The same address, with what is known of it at least as good.
abbrev pub Same : Entry → Entry → Type 0
Same e e' = (e'.origin ≡ e.origin) × (e'.last_success ≡ e.last_success)

not-Victim :
    (now : ℕ) (b : Book) (a : PeerAddr) (e : Entry)
    → get PeerAddr-discrete a b.entries ≡ some e
    → Protected now b.active a e
    → ¬ Victim now b.active b.entries a
unfolding class_of classify should_forget
not-Victim now b a e known p w =
    let same : e ≡ w.entry = one_entry (sym known ∙ w.known) in
    refute w.entry (w.gossiped) w.worthless (rw same at p) w.idle
  where
    one_entry : {x y : Entry} → some x ≡ some y → x ≡ y
    one_entry h = cc

    refute :
        (x : Entry)
        → is_manual x ≡ false
        → (forget_due now x ≡ true) ⊎ (class_of x ≡ unknown)
        → Protected now b.active a x
        → get PeerAddr-discrete a b.active ≡ none
        → ⊥
    refute x g w q i = ground arith

refreshed-Same : (now services : ℕ) (e : Entry) → Same e (refreshed now services e)
unfolding refreshed
refreshed-Same now services e = ground arith

abbrev pub Kept : Book → PeerAddr → Entry → Type 0
Kept b a e = (e' : Entry) × (get PeerAddr-discrete a b.entries ≡ some e') × Same e e'

add_new-get :
    (now : ℕ) (g : Gossiped) (b : Book) (a : PeerAddr)
    → g.addr ≢ a
    → get PeerAddr-discrete a (add_new now g b).entries ≡ get PeerAddr-discrete a b.entries
add_new-get now g b a n =
    get-insert PeerAddr-discrete g.addr a (new_entry now g.services gossip) b.entries ∙ miss
  where
    miss :
        ite
          (PeerAddr-discrete g.addr a)
          (some (new_entry now g.services gossip))
          (get PeerAddr-discrete a b.entries)
        ≡ get PeerAddr-discrete a b.entries
    miss = ground arith

module _ (now : ℕ) (g : Gossiped) (b : Book) (v : IsBook b) (a : PeerAddr) (e : Entry)
    (known : get PeerAddr-discrete a b.entries ≡ some e) (p : Protected now b.active a e) where
  ingest_new-get :
      has PeerAddr-discrete g.addr b.entries ≡ false
      → get PeerAddr-discrete a (ingest_new now g b).0.entries ≡ some e
  unfolding ingest_new
  ingest_new-get absent =
      let other : g.addr ≢ a =
        λ q. cc (absent, present, ap (λ (x : PeerAddr). has PeerAddr-discrete x b.entries) q) in
      ground (
        arith,
        add_new-get now g b a other,
        add_new-get now g (evict_batch now b).0 a other,
        evict_batch-spares now b v a (not-Victim now b a e known p),
      )
    where
      present : has PeerAddr-discrete a b.entries ≡ true
      present = ground arith

  ingest_one-Kept : (r : Renderer) (bans : List BanEntry) → Kept (ingest_one r bans now g b).0 a e
  unfolding ingest_one
  ingest_one-Kept r bans = elim (Bool-cases (not (is_routable g.addr) || contains r bans g.addr)) [
    | inl refused ↦ rw refused unchanged
    | inr wanted ↦ rw wanted (elim (Bool-cases (has PeerAddr-discrete g.addr b.entries)) [
      | inl old ↦ rw old (modified (PeerAddr-discrete g.addr a))
      | inr new ↦ rw new (e, ingest_new-get new, (refl, refl))
    ])
  ]
    where
      unchanged : Kept b a e
      unchanged = (e, known, (refl, refl))

      modified :
          Dec (g.addr ≡ a)
          → Kept
              (record b {
                entries = modify PeerAddr-discrete g.addr (refreshed now g.services) b.entries;
              })
              a
              e
      modified (yes q) = (
        refreshed now g.services e,
        rw q (get-modify-some PeerAddr-discrete a (refreshed now g.services) b.entries e known),
        refreshed-Same now g.services e,
      )
      modified (no q) =
          (e, get-modify_ne PeerAddr-discrete g.addr a _ b.entries q ∙ known, (refl, refl))

-- Where no key stands twice in the book, an entry of the operator's, one with a task, and one that
-- connected within the last thirty days stay in it through any batch of gossip, with their origin
-- and their last success.
pub ingest-Kept :
    (r : Renderer) (bans : List BanEntry) (now : ℕ) (gs : List Gossiped) (b : Book) (a : PeerAddr)
    (e : Entry)
    → IsBook b
    → get PeerAddr-discrete a b.entries ≡ some e
    → Protected now b.active a e
    → Kept (ingest r bans now gs b).0 a e
unfolding ingest
ingest-Kept r bans now [] b a e v known p = (e, known, (refl, refl))
ingest-Kept r bans now (g ∷ gs) b a e v known p =
    let (e', known', same) = ingest_one-Kept now g b v a e known p r bans in
    let k = ingest_one-Keeps r bans now g b v in
    let (e'', known'', same') =
      ingest-Kept r bans now gs (ingest_one r bans now g b).0 a e' k.valid known'
        (protect e' same (ingest_one r bans now g b).0.active k.active) in
    (e'', known'', (same'.0 ∙ same.0, same'.1 ∙ same.1))
  where
    protect : (x : Entry) → Same e x → (act : Active) → act ≡ b.active → Protected now act a x
    protect x s act q = rw (q, s.0, s.1) p
