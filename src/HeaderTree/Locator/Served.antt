-- ===== src/HeaderTree/Locator/Served.antt =====
-- What `get_headers_from_locator` answers a locator with.
use p2p_observer.Common.{
  ℕ, zero, suc, ◌+◌, ◌-◌, ◌≤◌, ◌<◌, ◌≡◌, refl, List, [], ◌∷◌, some, arith, min, length, get_elem?,
  Bool-cases, Option-cases, inl, inr, ◌==◌, ℕ_discrete, not, ◌&&◌, All,
}
use p2p_observer.Common.Map.{get}
use p2p_observer.HeaderTree.Tree.{HeaderTree, HeaderEntry}
use p2p_observer.HeaderTree.Locator.{start_height, serve, get_headers_from_locator}

-- The tree holds a header.
abbrev pub Held : {Header : Type 0} → HeaderTree Header → ℕ → Type 0
Held {Header} t hash = (e : HeaderEntry Header) × (get ℕ_discrete hash t.headers ≡ some e)

-- The headers of the best chain from a height on, one after the other.
abbrev pub Run : {Header : Type 0} → HeaderTree Header → ℕ → List Header → Type 0
Run t h [] = Unit
Run {Header} t h (x ∷ xs) =
    ((hash : ℕ) × (e : HeaderEntry Header) × (get_elem? t.best_chain h ≡ some hash)
      × (get ℕ_discrete hash t.headers ≡ some e)
      × (e.header ≡ x))
    × Run t (h + 1) xs

at_height :
    (P : ℕ → Type 0) (xs : List ℕ) (i : ℕ)
    → i < length xs
    → All P xs
    → (x : ℕ) × (get_elem? xs i ≡ some x) × P x
at_height P [] i h a = absurd (omega arith)
at_height P (x ∷ xs) zero h a = (x, refl, a.0)
at_height P (x ∷ xs) (suc i) h a = at_height P xs i (omega arith) a.1

in_range : (xs : List ℕ) (i x : ℕ) → get_elem? xs i ≡ some x → i < length xs
in_range [] i x h = cc
in_range (y ∷ ys) zero x h = omega arith
in_range (y ∷ ys) (suc i) x h = omega (arith, in_range ys i x h)

serve-Run :
    {Header : Type 0} (t : HeaderTree Header) (stop_hash n h : ℕ)
    → All (Held t) t.best_chain
    → h + n ≤ length t.best_chain
    → (xs : List Header) × (serve t stop_hash h n ≡ some xs) × (length xs ≤ n) × Run t h xs
unfolding serve
serve-Run t stop_hash zero h a l = ([], refl, omega arith, tt)
serve-Run t stop_hash (suc n) h a l =
    let (hash, known, (e, held)) = at_height (Held t) t.best_chain h (omega arith) a in
    let (xs, served, short, run) = serve-Run t stop_hash n (h + 1) a (omega arith) in
    elim (Bool-cases (not (stop_hash == 0) && hash == stop_hash)) [
      | inl stop ↦ (e.header ∷ [], ground arith, omega arith, ((hash, e, known, held, refl), tt))
      | inr go ↦
          (e.header ∷ xs, ground arith, omega (arith, short), ((hash, e, known, held, refl), run))
    ]

start_height-le :
    {Header : Type 0} (t : HeaderTree Header) (locator : List ℕ)
    → 1 ≤ length t.best_chain
    → (1 ≤ start_height t locator) × (start_height t locator ≤ length t.best_chain)
unfolding start_height
start_height-le t [] h = omega arith
start_height-le t (hash ∷ locator) h = elim (Option-cases (get ℕ_discrete hash t.headers)) [
  | inl e ↦ ground (arith, start_height-le t locator h)
  | inr (e, p) ↦ elim (Option-cases (get_elem? t.best_chain e.height)) [
    | inl q ↦ ground (arith, start_height-le t locator h)
    | inr (x, q) ↦ ground (arith, start_height-le t locator h, in_range t.best_chain e.height x q)
  ]
]

-- Where the tree holds its best chain, any locator and any stop hash are answered, and without a
-- panic, with at most two thousand headers: a run of the best chain that begins after genesis.
pub get_headers_from_locator-Run :
    {Header : Type 0} (t : HeaderTree Header) (locator : List ℕ) (stop_hash : ℕ)
    → All (Held t) t.best_chain
    → 1 ≤ length t.best_chain
    → (xs : List Header) × (get_headers_from_locator t locator stop_hash ≡ some xs)
      × (length xs ≤ 2000)
      × (1 ≤ start_height t locator)
      × Run t (start_height t locator) xs
unfolding get_headers_from_locator
get_headers_from_locator-Run t locator stop_hash a l =
    let start = start_height t locator in
    let end = min (start + 2000) (length t.best_chain) in
    let b = start_height-le t locator l in
    let (xs, served, short, run) = serve-Run t stop_hash (end - start) start a (omega (arith, b)) in
    (xs, ground (arith, b, served), omega (arith, short, b), b.0, run)
