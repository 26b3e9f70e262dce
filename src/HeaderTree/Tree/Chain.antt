-- ===== src/HeaderTree/Tree/Chain.antt =====
-- The best chain that `rebuild_best_chain` finds.
use p2p_observer.Common.{
  ℕ, zero, suc, ◌+◌, ◌≡◌, refl, List, [], ◌∷◌, ◌++◌, some, arith, length, length-append, ℕ_discrete,
}
use p2p_observer.Common.Map.{get}
use p2p_observer.HeaderTree.Tree.{
  Bitcoin, HeaderEntry, HeaderTree, Headers, chain_to, rebuild_best_chain,
}

module _ {Header : Type 0} (bc : Bitcoin Header) where
  -- Every header but those at height zero stands on a header one below it.
  abbrev pub Linked : Headers Header → Type 0
  Linked m =
      (hash : ℕ) (e : HeaderEntry Header) (below : ℕ)
      → get ℕ_discrete hash m ≡ some e
      → e.height ≡ suc below
      → (parent : HeaderEntry Header) × (get ℕ_discrete (bc.prev_blockhash e.header) m
          ≡ some parent)
        × (parent.height ≡ below)

  -- A list of hashes from height zero up, each the parent of the next, that ends with a hash.
  pub data ChainTo (m : Headers Header) : ℕ → List ℕ → Type 0 where
    genesis :
        (hash : ℕ) (e : HeaderEntry Header)
        → get ℕ_discrete hash m ≡ some e
        → e.height ≡ 0
        → ChainTo m hash (hash ∷ [])
    child :
        (hash : ℕ) (e : HeaderEntry Header) (chain : List ℕ)
        → get ℕ_discrete hash m ≡ some e
        → ChainTo m (bc.prev_blockhash e.header) chain
        → ChainTo m hash (chain ++ hash ∷ [])

  chain_to-ChainTo :
      (m : Headers Header)
      → Linked m
      → (height hash : ℕ) (e : HeaderEntry Header) → get ℕ_discrete hash m ≡ some e
      → e.height ≡ height
      → (chain : List ℕ) × (chain_to bc (height + 1) m hash ≡ some chain)
        × (length chain ≡ height + 1)
        × ChainTo m hash chain
  unfolding chain_to
  chain_to-ChainTo m l zero hash e known h = (hash ∷ [], ground arith, refl, genesis hash e known h)
  chain_to-ChainTo m l (suc height) hash e known h =
      let (parent, held, below) = l hash e height known h in
      let (chain, found, size, links) =
        chain_to-ChainTo m l height (bc.prev_blockhash e.header) parent held below in
      (
        chain ++ hash ∷ [],
        ground (arith, found),
        omega (arith, length-append chain (hash ∷ []), size),
        child hash e chain known links,
      )

  -- In a tree whose headers are linked, the best chain is found without a panic: it leads from a
  -- header at height zero to the tip, each the parent of the next, with one hash for each height.
  pub rebuild_best_chain-ChainTo :
      (t : HeaderTree Header) (e : HeaderEntry Header)
      → Linked t.headers
      → get ℕ_discrete t.tip t.headers ≡ some e
      → e.height ≡ t.tip_height
      → (chain : List ℕ) × (rebuild_best_chain bc t ≡ some (record t { best_chain = chain }))
        × (length chain ≡ t.tip_height + 1)
        × ChainTo t.headers t.tip chain
  unfolding rebuild_best_chain
  rebuild_best_chain-ChainTo t e l known h =
      let (chain, found, size, links) = chain_to-ChainTo t.headers l t.tip_height t.tip e known h in
      (chain, ground (arith, found), size, links)
