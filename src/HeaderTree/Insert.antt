-- ===== src/HeaderTree/Insert.antt =====
-- `validate_header`, `insert_inner` and `insert_batch` of observer/src/headertree.rs.
pub mod Growth
pub mod Whole
use p2p_observer.Common.{
  ℕ, ◌+◌, ◌%◌, Bool, true, false, ◌&&◌, not, List, [], ◌∷◌, Option, none, some, ◌==◌, ltb,
  if◌then◌else◌, ℕ_discrete,
}
use p2p_observer.Common.Map.{get, has, insert, remove}
use p2p_observer.HeaderTree.Prune.{below_reached, note_checkpoint}
use p2p_observer.HeaderTree.Rejected.{
  HeaderError, orphan_header, weaker_chain, invalid_pow, target_too_easy, checkpoint_mismatch,
  fork_below_checkpoint, remember_rejected, touch_rejected,
}
use p2p_observer.HeaderTree.Tree.{
  Bitcoin, HeaderEntry, Headers, HeaderTree, checkpoint_at, walk_back, weaker_than_our_tip,
  rebuild_best_chain,
}

-- `Result<bool, HeaderError>`.
pub data Inserted : Type 0 where
  inserted known : Inserted
  refused : HeaderError → Inserted

module _ {Header : Type 0} (bc : Bitcoin Header) where
  -- The compact target that the rules ask of the header.
  unfoldable pub expected_bits : HeaderTree Header → Header → ℕ → HeaderEntry Header → Option ℕ
  unfolding walk_back
  expected_bits t header height parent =
      if height % 2016 == 0 && ltb 0 height
      then (elim (walk_back bc t.headers (bc.prev_blockhash header) 2015) [
        | none ↦ none
        | some epoch_start ↦ some (bc.adjusted epoch_start.header parent.header)
      ])
      else some (bc.bits parent.header)

  abbrev pub breaks_checkpoint : HeaderTree Header → Header → ℕ → Bool
  breaks_checkpoint t header height = elim (checkpoint_at height t.checkpoints) [
    | none ↦ false
    | some c ↦ not (c.hash == bc.block_hash header)
  ]

  -- The error, if there is one.
  unfoldable pub validate_header :
      HeaderTree Header → Header → ℕ → HeaderEntry Header → Option HeaderError
  unfolding expected_bits
  validate_header t header height parent =
      if ltb bc.max_attainable_target (bc.target header)
      then some target_too_easy
      else if breaks_checkpoint t header height
      then some checkpoint_mismatch
      else if below_reached bc t height
      then some fork_below_checkpoint
      else elim (expected_bits t header height parent) [
        | none ↦ some orphan_header
        | some bits ↦
            (if bc.validate_pow header (bc.target_of bits) then none else some invalid_pow)
      ]

  -- A header whose parent is not in the tree.
  unfoldable pub unplaceable : HeaderTree Header → Header → HeaderTree Header × Inserted
  unfolding weaker_than_our_tip
  unplaceable t header =
      let hash = bc.block_hash header in
      let prev = bc.prev_blockhash header in
      elim (get ℕ_discrete prev t.refusals.held) [
        | some (reason, _) ↦ (
          record t { refusals = remember_rejected hash reason (touch_rejected prev t.refusals) },
          refused reason,
        )
        | none ↦
            (if weaker_than_our_tip bc t header
              then (
                record t { refusals = remember_rejected hash weaker_chain t.refusals },
                refused weaker_chain,
              )
              else (t, refused orphan_header))
      ]

  abbrev pub new_header_entry : Header → HeaderEntry Header → HeaderEntry Header
  new_header_entry header parent = record {
    header = header;
    height = parent.height + 1;
    chain_work = parent.chain_work + bc.work header;
  }

  abbrev pub with_header : HeaderTree Header → Header → HeaderEntry Header → HeaderTree Header
  with_header t header parent = record t {
    headers = insert ℕ_discrete (bc.block_hash header) (new_header_entry header parent) t.headers;
    recovery = remove ℕ_discrete (bc.block_hash header) t.recovery;
  }

  -- The tip moves to strictly more work.
  unfoldable pub advance : Header → HeaderEntry Header → HeaderTree Header → HeaderTree Header
  advance header e t =
      if ltb t.tip_work e.chain_work
      then record t {
        tip = bc.block_hash header;
        tip_height = e.height;
        tip_work = e.chain_work;
        dirty = true;
      }
      else record t { dirty = true }

  unfoldable pub insert_inner : HeaderTree Header → Header → Option (HeaderTree Header × Inserted)
  unfolding unplaceable validate_header note_checkpoint advance
  insert_inner t header =
      let hash = bc.block_hash header in
      if has ℕ_discrete hash t.headers
      then some (t, known)
      else elim (get ℕ_discrete (bc.prev_blockhash header) t.headers) [
        | none ↦ some (unplaceable t header)
        | some parent ↦ elim (validate_header t header (parent.height + 1) parent) [
          | some e ↦ some (record t { refusals = remember_rejected hash e t.refusals }, refused e)
          | none ↦
              elim (note_checkpoint bc hash (parent.height + 1) (with_header t header parent)) [
                | none ↦ none
                | some t' ↦ some (advance header (new_header_entry header parent) t', inserted)
              ]
        ]
      ]

  -- The tree, how many were accepted, and the first error.
  unfoldable pub insert_all :
      List Header → HeaderTree Header → Option (HeaderTree Header × ℕ × Option HeaderError)
  unfolding insert_inner
  insert_all [] t = some (t, 0, none)
  insert_all (x ∷ xs) t = elim (insert_inner t x) [
    | none ↦ none
    | some (t', outcome) ↦ elim (insert_all xs t') [
      | none ↦ none
      | some (t'', accepted, err) ↦ elim outcome [
        | inserted ↦ some (t'', accepted + 1, err)
        | known ↦ some (t'', accepted, err)
        | refused e ↦ some (t'', accepted, some e)
      ]
    ]
  ]

  unfoldable pub insert_batch :
      List Header → HeaderTree Header → Option (HeaderTree Header × ℕ × Option HeaderError)
  unfolding insert_all rebuild_best_chain
  insert_batch xs t = elim (insert_all xs t) [
    | none ↦ none
    | some (t', accepted, err) ↦
        (if t'.tip == t.tip then some (t', accepted, err) else elim (rebuild_best_chain bc t') [
          | none ↦ none
          | some t'' ↦ some (t'', accepted, err)
        ])
  ]
