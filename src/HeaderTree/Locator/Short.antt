-- ===== src/HeaderTree/Locator/Short.antt =====
-- How long the locator of `build_locator` is, and where it begins and ends.
use native.Mathlib.Nat.{pow-suc}
use p2p_observer.Common.{
  ℕ, zero, suc, ◌+◌, ◌-◌, ◌*◌, ◌^◌, ◌≤◌, ◌<◌, ◌≡◌, refl, true, List, [], ◌∷◌, ◌++◌, some, arith,
  length, length-append, All, All-append, get_elem?, Bool-cases, Option-cases, inl, inr,
}
use p2p_observer.HeaderTree.Tree.{HeaderTree}
use p2p_observer.HeaderTree.Locator.{visit, hashes_at, last, last_is, build_locator}

-- Once the steps double, they reach the bottom in logarithmically many rounds.
length-visit_doubling :
    (k fuel height step : ℕ)
    → 16 ≤ step
    → height + step ≤ step * 2 ^ k
    → length (visit fuel height step) ≤ k + 1
unfolding visit
length-visit_doubling k zero height step h e = omega arith
length-visit_doubling zero (suc fuel) height step h e = ground arith
length-visit_doubling (suc k) (suc fuel) height step h e = ground (
  arith,
  length-visit_doubling k fuel (height - step) (step * 2) (omega arith) (next (pow-suc 2 k)),
)
  where
    turned : (x : ℕ) → step * (x * 2) ≡ (step * 2) * x
    turned x = grind arith

    more : (a b : ℕ) → 1 ≤ b → a ≤ a * b
    more a b p = grind arith

    pos : (n : ℕ) → 1 ≤ 2 ^ n
    pos zero = omega arith
    pos (suc n) = omega (arith, pow-suc 2 n, pos n)

    next : 2 ^ suc k ≡ 2 ^ k * 2 → (height - step) + step * 2 ≤ (step * 2) * 2 ^ k
    next p =
        let q : step * 2 ^ suc k ≡ (step * 2) * 2 ^ k = rw p (turned (2 ^ k)) in
        omega (arith, q, more (step * 2) (2 ^ k) (pos k))

length-visit :
    (j fuel height step : ℕ)
    → step + j ≡ 16
    → height < 2 ^ 32
    → length (visit fuel height step) ≤ j + 30
unfolding visit
length-visit j zero height step h e = omega arith
length-visit zero (suc fuel) height step h e =
    length-visit_doubling 29 (suc fuel) height step (omega arith) (omega arith)
length-visit (suc j) (suc fuel) height step h e =
    ground (arith, length-visit j fuel (height - step) (step + 1) (omega arith) (omega arith))

length-hashes_at-le : (chain hs : List ℕ) → length (hashes_at chain hs) ≤ length hs
unfolding hashes_at
length-hashes_at-le chain [] = omega arith
length-hashes_at-le chain (h ∷ hs) = ground (arith, length-hashes_at-le chain hs)

last-append : (xs : List ℕ) (g : ℕ) → last (xs ++ g ∷ []) ≡ some g
last-append [] g = refl
last-append (x ∷ []) g = refl
last-append (x ∷ y ∷ ys) g = last-append (y ∷ ys) g

abbrev pub OnChain : List ℕ → ℕ → Type 0
OnChain chain hash = (h : ℕ) × (get_elem? chain h ≡ some hash)

first-append : (xs ys : List ℕ) (x : ℕ) → get_elem? xs 0 ≡ some x → get_elem? (xs ++ ys) 0 ≡ some x
first-append [] ys x h = cc
first-append (y ∷ xs) ys x h = h

begins :
    {Header : Type 0} (t : HeaderTree Header) (top : ℕ)
    → get_elem? t.best_chain t.tip_height ≡ some top
    → get_elem? (hashes_at t.best_chain (visit (t.tip_height + 1) t.tip_height 1)) 0 ≡ some top
unfolding hashes_at visit
begins t top e = ground arith

last_is-last : (g : ℕ) (xs : List ℕ) → last_is g xs ≡ true → last xs ≡ some g
last_is-last g xs h = ground (arith)

All-hashes_at : (chain hs : List ℕ) → All (OnChain chain) (hashes_at chain hs)
unfolding hashes_at
All-hashes_at chain [] = tt
All-hashes_at chain (h ∷ hs) = elim (Option-cases (get_elem? chain h)) [
  | inl e ↦ rw (e, hashes_at) (All-hashes_at chain hs)
  | inr (x, e) ↦ rw (e, hashes_at) ((h, e), All-hashes_at chain hs)
]

-- A locator of a chain of fewer than 2^32 blocks has at most forty-six hashes, all of them on the
-- best chain; it begins with the tip and ends with genesis.
pub build_locator_short :
    {Header : Type 0} (t : HeaderTree Header) (genesis top : ℕ)
    → t.tip_height < 2 ^ 32
    → get_elem? t.best_chain 0 ≡ some genesis
    → get_elem? t.best_chain t.tip_height ≡ some top
    → (locator : List ℕ) × (build_locator t ≡ some locator)
      × (length locator ≤ 46)
      × All (OnChain t.best_chain) locator
      × (get_elem? locator 0 ≡ some top)
      × (last locator ≡ some genesis)
unfolding build_locator
build_locator_short t genesis top h g e =
    let short = hashes_at t.best_chain (visit (t.tip_height + 1) t.tip_height 1) in
    let size : length short ≤ 45 = omega (
      arith,
      length-hashes_at-le t.best_chain (visit (t.tip_height + 1) t.tip_height 1),
      length-visit 15 (t.tip_height + 1) t.tip_height 1 refl h,
    ) in
    let on = All-hashes_at t.best_chain (visit (t.tip_height + 1) t.tip_height 1) in
    elim (Bool-cases (last_is genesis short)) [
      | inl ends ↦ (
        short,
        ground arith,
        omega (arith, size),
        on,
        begins t top e,
        last_is-last genesis short ends,
      )
      | inr other ↦ (
        short ++ genesis ∷ [],
        ground arith,
        omega (arith, size, length-append short (genesis ∷ [])),
        All-append (OnChain t.best_chain) short (genesis ∷ []) on ((0, g), tt),
        first-append short (genesis ∷ []) top (begins t top e),
        last-append short genesis,
      )
    ]
