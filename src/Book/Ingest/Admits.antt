-- ===== src/Book/Ingest/Admits.antt =====
-- What gossip may do to the book: what enters, what stays, and how large it gets.
use p2p_observer.Common.{
  ℕ, ◌≤◌, ◌≡◌, refl, ◌∙◌, inl, inr, List, [], ◌∷◌, arith, max, length, Bool-cases, leb,
}
use p2p_observer.Common.Map.{modify, length-insert-le, length-modify, insert-IsMap, modify-IsMap}
use p2p_observer.Banlist.{BanEntry}
use p2p_observer.PeerAddr.{PeerAddr-discrete}
use p2p_observer.PeerAddr.Display.{Renderer}
use p2p_observer.Policy.{gossip}
use p2p_observer.Book.Entry.{Gossiped, new_entry, refreshed}
use p2p_observer.Book.Evict.{evict_batch}
use p2p_observer.Book.Evict.Kept.{evict_batch-length, evict_batch-IsBook}
use p2p_observer.Book.Ingest.{add_new, ingest_new, ingest_one, ingest}
use p2p_observer.Book.State.{Book, IsBook}

pub evict_batch-rest :
    (now : ℕ) (b : Book)
    → ((evict_batch now b).0.capacity ≡ b.capacity) × ((evict_batch now b).0.active ≡ b.active)
unfolding evict_batch
evict_batch-rest now b = (refl, refl)

-- What an ingested address leaves as it was, and the size it may reach.
pub record Keeps (b c : Book) : Type 0 where
  pub valid : IsBook c
  pub capacity : c.capacity ≡ b.capacity
  pub active : c.active ≡ b.active
  pub size : length c.entries ≤ max (length b.entries) b.capacity

add_new-IsBook : (now : ℕ) (g : Gossiped) (b : Book) → IsBook b → IsBook (add_new now g b)
add_new-IsBook now g b v = record {
  entries_IsMap = insert-IsMap PeerAddr-discrete g.addr _ b.entries v.entries_IsMap;
  active_IsMap = v.active_IsMap;
}

ingest_new-Keeps : (now : ℕ) (g : Gossiped) (b : Book) → IsBook b → Keeps b (ingest_new now g b).0
unfolding ingest_new
ingest_new-Keeps now g b v =
    let e = (evict_batch now b).0 in
    let w = evict_batch-IsBook now b v in
    let k = evict_batch-length now b v in
    let s = evict_batch-rest now b in
    elim (Bool-cases (leb b.capacity (length b.entries))) [
      | inr small ↦ rw small (record {
        valid = add_new-IsBook now g b v;
        capacity = refl;
        active = refl;
        size = ground (
          arith,
          length-insert-le PeerAddr-discrete g.addr (new_entry now g.services gossip) b.entries,
        );
      })
      | inl full ↦ rw full (elim (Bool-cases (evict_batch now b).1) [
        | inl room ↦ rw room (record {
          valid = add_new-IsBook now g e w;
          capacity = s.0;
          active = s.1;
          size = omega (
            arith,
            length-insert-le PeerAddr-discrete g.addr (new_entry now g.services gossip) e.entries,
            k.0.0 room,
          );
        })
        | inr none_left ↦
            rw none_left
              (record { valid = w; capacity = s.0; active = s.1; size = omega (arith, k.2) })
      ])
    ]

pub ingest_one-Keeps :
    (r : Renderer) (bans : List BanEntry) (now : ℕ) (g : Gossiped) (b : Book)
    → IsBook b
    → Keeps b (ingest_one r bans now g b).0
unfolding ingest_one
ingest_one-Keeps r bans now g b v = ground (arith, ingest_new-Keeps now g b v, same, known)
  where
    same : Keeps b b
    same = record { valid = v; capacity = refl; active = refl; size = omega arith }

    known : Keeps b (record b {
      entries = modify PeerAddr-discrete g.addr (refreshed now g.services) b.entries;
    })
    known = record {
      valid = record {
        entries_IsMap = modify-IsMap PeerAddr-discrete g.addr _ b.entries v.entries_IsMap;
        active_IsMap = v.active_IsMap;
      };
      capacity = refl;
      active = refl;
      size =
          omega
            (arith, length-modify PeerAddr-discrete g.addr (refreshed now g.services) b.entries);
    }

ingest-Keeps :
    (r : Renderer) (bans : List BanEntry) (now : ℕ) (gs : List Gossiped) (b : Book)
    → IsBook b
    → Keeps b (ingest r bans now gs b).0
unfolding ingest
ingest-Keeps r bans now [] b v = record {
  valid = v;
  capacity = refl;
  active = refl;
  size = omega arith;
}
ingest-Keeps r bans now (g ∷ gs) b v =
    let one = ingest_one-Keeps r bans now g b v in
    let more = ingest-Keeps r bans now gs (ingest_one r bans now g b).0 one.valid in
    record {
      valid = more.valid;
      capacity = more.capacity ∙ one.capacity;
      active = more.active ∙ one.active;
      size = omega (arith, one.size, more.size, one.capacity);
    }

-- Where no key stands twice in the book, none does after a batch of gossip, however large; the
-- book grows to its capacity at most, and one that is larger already does not grow; no task is
-- lost or made up.
pub ingest-size :
    (r : Renderer) (bans : List BanEntry) (now : ℕ) (gs : List Gossiped) (b : Book)
    → IsBook b
    → IsBook (ingest r bans now gs b).0
      × (length (ingest r bans now gs b).0.entries ≤ max (length b.entries) b.capacity)
      × ((ingest r bans now gs b).0.active ≡ b.active)
ingest-size r bans now gs b v =
    let k = ingest-Keeps r bans now gs b v in (k.valid, k.size, k.active)
