-- ===== src/HeaderTree/Tree.antt =====
-- `HeaderTree` of observer/src/headertree.rs: its state, the walks over it, and the best chain.
-- Headers are the bitcoin library's: a parameter, with the operations that the tree calls. A block
-- hash is a number, and so are works, targets and compact targets. A missing key under `[]` and a
-- failed `expect` are `none`.
pub mod Chain
use p2p_observer.Common.{
  ℕ, zero, suc, ◌+◌, Bool, true, false, List, [], ◌∷◌, ◌++◌, Option, none, some, ◌==◌, ◌&&◌, leb,
  ltb, if◌then◌else◌, any, ℕ_discrete,
}
use p2p_observer.Common.Map.{get, has, insert}
use p2p_observer.HeaderTree.Recovery.{Recovery}
use p2p_observer.HeaderTree.Rejected.{Refusals, no_refusals}

-- What the tree uses of the bitcoin library, for the network that it follows.
pub record Bitcoin (Header : Type 0) : Type 0 where
  pub genesis : Header
  pub block_hash : Header → ℕ
  pub prev_blockhash : Header → ℕ
  pub bits : Header → ℕ
  pub work : Header → ℕ
  pub target : Header → ℕ
  -- `Target::from` of a compact target.
  pub target_of : ℕ → ℕ
  -- Whether `validate_pow` accepts the header for a target.
  pub validate_pow : Header → ℕ → Bool
  -- `from_header_difficulty_adjustment`: by the first and the last block of an epoch.
  pub adjusted : Header → Header → ℕ
  pub max_attainable_target : ℕ
  pub allow_min_difficulty_blocks : Bool
  -- The `f64` that `difficulty_float` gives for a target, and the operations on such floats.
  pub difficulty_float : ℕ → ℕ
  pub f64_of : ℕ → ℕ
  pub f64_mul : ℕ → ℕ → ℕ
  pub f64_lt : ℕ → ℕ → Bool

abbrev pub weaker_chain_factor : ℕ
weaker_chain_factor = 4

pub record Checkpoint : Type 0 where
  pub height : ℕ
  pub hash : ℕ

pub record HeaderEntry (Header : Type 0) : Type 0 where
  pub header : Header
  pub height : ℕ
  pub chain_work : ℕ

abbrev pub Headers : Type 0 → Type 0
Headers Header = List (ℕ × HeaderEntry Header)

pub record HeaderTree (Header : Type 0) : Type 0 where
  pub headers : Headers Header
  -- By height.
  pub best_chain : List ℕ
  pub tip : ℕ
  pub tip_height : ℕ
  pub tip_work : ℕ
  pub dirty : Bool
  pub checkpoints : List Checkpoint
  pub reached_checkpoint : Option ℕ
  pub pruned : ℕ
  pub recovery : Recovery
  pub refusals : Refusals

abbrev pub checkpoint_at : ℕ → List Checkpoint → Option Checkpoint
checkpoint_at height [] = none
checkpoint_at height (c ∷ cs) = if c.height == height then some c else checkpoint_at height cs

-- `BTreeMap::insert`, in the order of the heights.
unfoldable pub insert_checkpoint : Checkpoint → List Checkpoint → List Checkpoint
insert_checkpoint c [] = c ∷ []
insert_checkpoint c (d ∷ ds) =
    if ltb c.height d.height
    then c ∷ d ∷ ds
    else if c.height == d.height
    then c ∷ ds
    else d ∷ insert_checkpoint c ds

unfoldable pub insert_checkpoints : List Checkpoint → List Checkpoint → List Checkpoint
insert_checkpoints [] into = into
insert_checkpoints (c ∷ cs) into = insert_checkpoints cs (insert_checkpoint c into)

unfoldable pub merge_checkpoints : List Checkpoint → List Checkpoint → List Checkpoint
merge_checkpoints builtin configured = insert_checkpoints configured (insert_checkpoints builtin [])

module _ {Header : Type 0} (bc : Bitcoin Header) where
  unfoldable pub new_tree : HeaderTree Header
  unfolding no_refusals
  new_tree =
      let hash = bc.block_hash bc.genesis in
      let work = bc.work bc.genesis in
      record {
        headers = (hash, record { header = bc.genesis; height = 0; chain_work = work }) ∷ [];
        best_chain = hash ∷ [];
        tip = hash;
        tip_height = 0;
        tip_work = work;
        dirty = false;
        checkpoints = [];
        reached_checkpoint = none;
        pruned = 0;
        recovery = [];
        refusals = no_refusals;
      }

  unfoldable pub walk_back : Headers Header → ℕ → ℕ → Option (HeaderEntry Header)
  walk_back m hash zero = get ℕ_discrete hash m
  walk_back m hash (suc steps) = elim (get ℕ_discrete hash m) [
    | none ↦ none
    | some e ↦ walk_back m (bc.prev_blockhash e.header) steps
  ]

  -- The loop of `rebuild_best_chain`, with the list turned round. The height falls with every
  -- round, so the height of the tip and one more is fuel enough.
  unfoldable pub chain_to : ℕ → Headers Header → ℕ → Option (List ℕ)
  chain_to zero m hash = none
  chain_to (suc fuel) m hash = elim (get ℕ_discrete hash m) [
    | none ↦ none
    | some e ↦ elim (chain_to fuel m (bc.prev_blockhash e.header)) [
      | none ↦ (if e.height == 0 then some (hash ∷ []) else none)
      | some chain ↦ some (if e.height == 0 then hash ∷ [] else chain ++ hash ∷ [])
    ]
  ]

  unfoldable pub rebuild_best_chain : HeaderTree Header → Option (HeaderTree Header)
  unfolding chain_to
  rebuild_best_chain t = elim (chain_to (t.tip_height + 1) t.headers t.tip) [
    | none ↦ none
    | some chain ↦ some (record t { best_chain = chain })
  ]

  unfoldable pub weaker_than_our_tip : HeaderTree Header → Header → Bool
  weaker_than_our_tip t header =
      if bc.allow_min_difficulty_blocks then false else elim (get ℕ_discrete t.tip t.headers) [
        | none ↦ false
        | some tip ↦
            let ours = bc.difficulty_float (bc.target tip.header) in
            let theirs = bc.difficulty_float (bc.target header) in
            bc.f64_lt (bc.f64_mul theirs (bc.f64_of weaker_chain_factor)) ours
      ]

abbrev pub height_of : {Header : Type 0} → HeaderTree Header → ℕ → Option ℕ
height_of t hash = elim (get ℕ_discrete hash t.headers) [ none ↦ none | some e ↦ some e.height ]

-- Whether a block has reached the tree at all, accepted or rejected.
abbrev pub seen : {Header : Type 0} → HeaderTree Header → ℕ → Bool
seen t hash = if has ℕ_discrete hash t.headers then true else has ℕ_discrete hash t.refusals.held
