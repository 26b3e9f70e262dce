-- ===== src/HeaderTree/Prune.antt =====
-- `note_checkpoint` and `prune_below_checkpoint` of observer/src/headertree.rs.
use p2p_observer.Common.{
  ℕ, zero, suc, ◌+◌, ◌-◌, Bool, true, false, ◌||◌, ◌&&◌, List, [], ◌∷◌, Option, none, some, ◌==◌,
  leb, ltb, if◌then◌else◌, any, length, ite, ℕ_discrete,
}
use p2p_observer.Common.Map.{get, has, remove, retain}
use p2p_observer.HeaderTree.Tree.{
  Bitcoin, HeaderEntry, Headers, HeaderTree, checkpoint_at, rebuild_best_chain,
}

abbrev pub contains_hash : ℕ → List ℕ → Bool
contains_hash h [] = false
contains_hash h (x ∷ xs) = ite (ℕ_discrete x h) true (contains_hash h xs)

-- `sort_unstable` of pairs of a height and a hash, which are all different.
abbrev pub insert_sorted : ℕ × ℕ → List (ℕ × ℕ) → List (ℕ × ℕ)
insert_sorted x [] = x ∷ []
insert_sorted x (y ∷ ys) =
    if ltb x.0 y.0 || (x.0 == y.0 && leb x.1 y.1) then x ∷ y ∷ ys else y ∷ insert_sorted x ys

module _ {Header : Type 0} (bc : Bitcoin Header) where
  -- The checkpoint and its ancestors. The height falls with every round, so the checkpoint's and
  -- one more is fuel enough.
  unfoldable pub ancestors : ℕ → Headers Header → ℕ → List ℕ
  ancestors zero m hash = []
  ancestors (suc fuel) m hash = elim (get ℕ_discrete hash m) [
    | none ↦ []
    | some e ↦
        let rest = ancestors fuel m (bc.prev_blockhash e.header) in
        hash ∷ (if e.height == 0 then [] else rest)
  ]

  unfoldable pub above : ℕ → Headers Header → List (ℕ × ℕ)
  above reached [] = []
  above reached ((h, e) ∷ m) =
      let rest = above reached m in
      if ltb reached e.height then insert_sorted (e.height, h) rest else rest

  -- What was built on a pruned header goes too, parents first.
  unfoldable pub drop_orphans : List (ℕ × ℕ) → Headers Header → Option (Headers Header)
  drop_orphans [] m = some m
  drop_orphans ((_, h) ∷ hs) m = elim (get ℕ_discrete h m) [
    | none ↦ none
    | some e ↦
        drop_orphans hs
          (if has ℕ_discrete (bc.prev_blockhash e.header) m then m else remove ℕ_discrete h m)
  ]

  -- `max_by_key`, which returns the last of several.
  unfoldable pub most_work : Headers Header → Option (ℕ × HeaderEntry Header)
  most_work [] = none
  most_work ((h, e) ∷ m) = elim (most_work m) [
    | none ↦ some (h, e)
    | some (g, d) ↦ some (if ltb d.chain_work e.chain_work then (h, e) else (g, d))
  ]

  unfoldable pub move_tip : HeaderTree Header → Option (HeaderTree Header)
  unfolding most_work
  move_tip t = if has ℕ_discrete t.tip t.headers then some t else elim (most_work t.headers) [
    | none ↦ none
    | some (h, e) ↦ some (record t { tip = h; tip_height = e.height; tip_work = e.chain_work })
  ]

  -- The tree without what stands below the checkpoint beside its chain.
  unfoldable pub after_pruning : HeaderTree Header → Headers Header → Option (HeaderTree Header)
  unfolding move_tip rebuild_best_chain
  after_pruning t kept =
      let pruned = length t.headers - length kept in
      if ltb 0 pruned
      then (elim (move_tip
          (record t { headers = kept; pruned = t.pruned + pruned; dirty = true })) [
            | none ↦ none
            | some t' ↦ rebuild_best_chain bc t'
          ])
      else some (record t { headers = kept })

  unfoldable pub prune_below_checkpoint : HeaderTree Header → Option (HeaderTree Header)
  unfolding ancestors above drop_orphans after_pruning
  prune_below_checkpoint t = elim t.reached_checkpoint [
    | none ↦ some t
    | some reached ↦ elim (checkpoint_at reached t.checkpoints) [
      | none ↦ some t
      | some c ↦
          let keep = ancestors (reached + 1) t.headers c.hash in
          let kept =
            retain ℕ_discrete (λ h e. ltb reached e.height || contains_hash h keep) t.headers in
          elim (drop_orphans (above reached kept) kept) [ none ↦ none | some m ↦ after_pruning t m ]
    ]
  ]

  -- Whether a height is at or below the checkpoint that was reached.
  abbrev pub below_reached : HeaderTree Header → ℕ → Bool
  below_reached t height = elim t.reached_checkpoint [
    | none ↦ false
    | some reached ↦ leb height reached
  ]

  unfoldable pub note_checkpoint : ℕ → ℕ → HeaderTree Header → Option (HeaderTree Header)
  unfolding prune_below_checkpoint
  note_checkpoint hash height t =
      let is_checkpoint = any (λ c. c.height == height && c.hash == hash) t.checkpoints in
      if is_checkpoint
      then (if below_reached t height
          then some t
          else prune_below_checkpoint (record t { reached_checkpoint = some height }))
      else some t
