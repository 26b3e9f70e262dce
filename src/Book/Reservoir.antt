-- ===== src/Book/Reservoir.antt =====
-- `Reservoir` of observer/src/addresses/book.rs: at most `k` items out of a stream.
use p2p_observer.Common.{
  ℕ, ◌+◌, ◌≤◌, ◌≡◌, List, [], ◌∷◌, ◌++◌, arith, ltb, ◌==◌, if◌then◌else◌, length, set, All,
  All-append, All-set, length-append, length-set, min,
}
use p2p_observer.Book.Rng.{below}

pub record Reservoir (A : Type 0) : Type 0 where
  pub items : List A
  pub seen : ℕ
  pub k : ℕ

unfoldable pub empty : {A : Type 0} → ℕ → Reservoir A
empty k = record { items = []; seen = 0; k = k }

-- The generator's new state, and the reservoir.
unfoldable pub offer : {A : Type 0} → ℕ → Reservoir A → A → ℕ × Reservoir A
offer rng r item =
    if r.k == 0
    then (rng, r)
    else if ltb (length r.items) r.k
    then (rng, record r { items = r.items ++ item ∷ []; seen = r.seen + 1 })
    else (
      (below rng (r.seen + 1)).0,
      (if ltb (below rng (r.seen + 1)).1 r.k
          then record r { items = set r.items (below rng (r.seen + 1)).1 item; seen = r.seen + 1 }
          else record r { seen = r.seen + 1 }),
    )

-- Never more than `k` items, and exactly as many as were offered until then.
pub record IsSample {A : Type 0} (r : Reservoir A) : Type 0 where
  pub size : length r.items ≡ min r.seen r.k

pub offer-IsSample :
    {A : Type 0} (rng : ℕ) (r : Reservoir A) (item : A) → IsSample r → IsSample (offer rng r item).1
unfolding offer
offer-IsSample rng r item h =
    ground
      (arith, length-append r.items (item ∷ []), length-set r.items (below rng (r.seen + 1)).1 item)

-- What every item has, every item has after an offer of one that has it.
pub offer-All :
    {A : Type 0} (P : A → Type 0) (rng : ℕ) (r : Reservoir A) (item : A)
    → P item
    → All P r.items
    → All P (offer rng r item).1.items
unfolding offer
offer-All P rng r item p h =
    ground
      (arith, All-append P r.items (item ∷ []), All-set P r.items (below rng (r.seen + 1)).1 item)

pub length-items-le : {A : Type 0} (r : Reservoir A) → IsSample r → length r.items ≤ r.k
length-items-le r h = omega arith

pub offer-k : {A : Type 0} (rng : ℕ) (r : Reservoir A) (item : A) → (offer rng r item).1.k ≡ r.k
unfolding offer
offer-k rng r item = ground arith
