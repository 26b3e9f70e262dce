-- ===== src/Book/Pick/Apart.antt =====
-- Lists of dials for pairwise different addresses, and how a reservoir keeps one.
use p2p_observer.Common.{
  ℕ, zero, suc, ◌+◌, sym, ◌≢◌, List, [], ◌∷◌, ◌++◌, arith, All, All-append, All-take, All-imp, set,
  take,
}
use p2p_observer.Book.Entry.{Dial}
use p2p_observer.Book.Reservoir
use p2p_observer.Book.Reservoir.{Reservoir}
use p2p_observer.Book.Rng.{below}

abbrev pub Apart : Dial → Dial → Type 0
Apart d e = e.addr ≢ d.addr

-- Pairwise different addresses.
abbrev pub Unique : List Dial → Type 0
Unique [] = Unit
Unique (d ∷ ds) = All (Apart d) ds × Unique ds

pub Unique-append :
    (xs ys : List Dial) → Unique xs → Unique ys → All (λ x. All (Apart x) ys) xs → Unique (xs ++ ys)
Unique-append [] ys hx hy h = hy
Unique-append (x ∷ xs) ys hx hy h =
    (All-append (Apart x) xs ys hx.0 h.0, Unique-append xs ys hx.1 hy h.1)

pub Unique-take : (n : ℕ) (xs : List Dial) → Unique xs → Unique (take n xs)
Unique-take zero xs h = tt
Unique-take (suc n) [] h = tt
Unique-take (suc n) (x ∷ xs) h = (All-take (Apart x) n xs h.0, Unique-take n xs h.1)

pub Unique-snoc :
    (xs : List Dial) (d : Dial) → Unique xs → All (λ x. Apart x d) xs → Unique (xs ++ d ∷ [])
Unique-snoc [] d h k = (tt, tt)
Unique-snoc (x ∷ xs) d h k =
    (All-append (Apart x) xs (d ∷ []) h.0 (k.0, tt), Unique-snoc xs d h.1 k.1)

pub All-set-Apart :
    (xs : List Dial) (i : ℕ) (x d : Dial)
    → Apart x d
    → All (Apart x) xs
    → All (Apart x) (set xs i d)
All-set-Apart [] i x d p h = h
All-set-Apart (y ∷ ys) zero x d p h = (p, h.1)
All-set-Apart (y ∷ ys) (suc i) x d p h = (h.0, All-set-Apart ys i x d p h.1)

pub Unique-set :
    (xs : List Dial) (i : ℕ) (d : Dial) → Unique xs → All (λ x. Apart x d) xs → Unique (set xs i d)
Unique-set [] i d h k = h
Unique-set (x ∷ xs) zero d h k =
    (All-imp (λ y. Apart y d) (Apart d) xs (λ y n e. n (sym e)) k.1, h.1)
Unique-set (x ∷ xs) (suc i) d h k = (All-set-Apart xs i x d k.0 h.0, Unique-set xs i d h.1 k.1)

pub offer-Unique :
    (rng : ℕ) (r : Reservoir Dial) (d : Dial)
    → Unique r.items
    → All (λ x. Apart x d) r.items
    → Unique (Reservoir.offer rng r d).1.items
unfolding Reservoir.offer
offer-Unique rng r d h k =
    ground (arith, Unique-snoc r.items d h k, Unique-set r.items (below rng (r.seen + 1)).1 d h k)
