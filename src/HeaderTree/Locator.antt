-- ===== src/HeaderTree/Locator.antt =====
-- `build_locator` and `get_headers_from_locator` of observer/src/headertree.rs.
pub mod Short
pub mod Served
use p2p_observer.Common.{
  ℕ, zero, suc, ◌+◌, ◌-◌, ◌*◌, min, Bool, true, false, ◌&&◌, not, List, [], ◌∷◌, ◌++◌, Option, none,
  some, ◌==◌, ltb, if◌then◌else◌, length, get_elem?, ℕ_discrete,
}
use p2p_observer.Common.Map.{get}
use p2p_observer.HeaderTree.Tree.{HeaderTree, Headers}

abbrev pub next_step : ℕ → ℕ
next_step step = if ltb step 16 then step + 1 else step * 2

-- The heights that the loop visits. A height below zero is set to zero, as `-` on ℕ does, and every
-- step is at least one, so the height and one more is fuel enough.
unfoldable pub visit : ℕ → ℕ → ℕ → List ℕ
visit zero height step = []
visit (suc fuel) height step =
    let rest = visit fuel (height - step) (next_step step) in
    height ∷ (if height == 0 then [] else rest)

unfoldable pub hashes_at : List ℕ → List ℕ → List ℕ
hashes_at chain [] = []
hashes_at chain (h ∷ hs) = elim (get_elem? chain h) [
  | none ↦ hashes_at chain hs
  | some hash ↦ hash ∷ hashes_at chain hs
]

abbrev pub last : List ℕ → Option ℕ
last [] = none
last (x ∷ []) = some x
last (x ∷ y ∷ ys) = last (y ∷ ys)

abbrev pub last_is : ℕ → List ℕ → Bool
last_is h xs = elim (last xs) [ none ↦ false | some x ↦ x == h ]

-- An empty best chain has no genesis, and panics.
unfoldable pub build_locator : {Header : Type 0} → HeaderTree Header → Option (List ℕ)
unfolding visit hashes_at
build_locator t =
    let locator = hashes_at t.best_chain (visit (t.tip_height + 1) t.tip_height 1) in
    elim (get_elem? t.best_chain 0) [
      | none ↦ none
      | some genesis ↦ some (if last_is genesis locator then locator else locator ++ genesis ∷ [])
    ]

-- The height after the first hash of the locator that is on the best chain.
unfoldable pub start_height : {Header : Type 0} → HeaderTree Header → List ℕ → ℕ
start_height t [] = 1
start_height t (hash ∷ locator) =
    let rest = start_height t locator in
    elim (get ℕ_discrete hash t.headers) [
      | none ↦ rest
      | some e ↦ elim (get_elem? t.best_chain e.height) [
        | none ↦ rest
        | some x ↦ (if x == hash then e.height + 1 else rest)
      ]
    ]

-- `n` headers of the best chain from a height, or fewer where one is the stop hash.
unfoldable pub serve : {Header : Type 0} → HeaderTree Header → ℕ → ℕ → ℕ → Option (List Header)
serve t stop_hash h zero = some []
serve t stop_hash h (suc n) = elim (get_elem? t.best_chain h) [
  | none ↦ none
  | some hash ↦ elim (get ℕ_discrete hash t.headers) [
    | none ↦ none
    | some e ↦
        (if not (stop_hash == 0) && hash == stop_hash
          then some (e.header ∷ [])
          else elim (serve t stop_hash (h + 1) n) [
            | none ↦ none
            | some rest ↦ some (e.header ∷ rest)
          ])
  ]
]

-- A capacity of a negative number panics.
unfoldable pub get_headers_from_locator :
    {Header : Type 0} → HeaderTree Header → List ℕ → ℕ → Option (List Header)
unfolding start_height serve
get_headers_from_locator t locator stop_hash =
    let start = start_height t locator in
    let end = min (start + 2000) (length t.best_chain) in
    if ltb end start then none else serve t stop_hash start (end - start)
