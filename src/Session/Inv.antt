-- ===== src/Session/Inv.antt =====
-- `handle_inv` of observer/src/protocol.rs.
pub mod Announced
use p2p_observer.Common.{
  ℕ, zero, suc, ◌+◌, ◌-◌, Bool, true, false, not, ◌&&◌, ◌||◌, List, [], ◌∷◌, ◌++◌, Option, none,
  some, ◌==◌, ltb, leb, if◌then◌else◌, length, is_some, map,
}
use p2p_observer.HeaderTree.Insert.{insert_batch}
use p2p_observer.HeaderTree.Locator.{build_locator}
use p2p_observer.HeaderTree.Recovery.{recovery_due}
use p2p_observer.HeaderTree.Rejected.{HeaderError, is_other_chain, rejection_of}
use p2p_observer.HeaderTree.Tree.{Bitcoin, HeaderTree, height_of, seen}
use p2p_observer.Session.Messages.{
  Inventory, inv_block, inv_witness_block, inv_compact_block, inv_other, CompactBlockShape,
  AnnouncementType, by_inv, by_headers, by_compact_block, Unplaced, BlockAnnouncement, requested,
  answered, block_announcement, compact_block_probe, sent_get_headers, sent_get_data,
  sent_get_block_txn,
}
use p2p_observer.Session.State.{
  Connection, Error, sync_complete, other_chain, protocol_violation, Handler, ◌>>=◌, ◌>>◌, pure,
  done, fail, gets, update, expect, emit_event, send,
}
use p2p_observer.Session.Blocks.{emit_block_announcement, recover_headers}

abbrev pub max_block_invs_announced : ℕ
max_block_invs_announced = 8

-- Whether an item of an INV is a block.
abbrev pub is_block : Inventory → Bool
is_block (inv_block hash) = true
is_block (inv_witness_block hash) = true
is_block (inv_compact_block hash) = true
is_block inv_other = false

abbrev pub count_blocks : List Inventory → ℕ
count_blocks [] = 0
count_blocks (i ∷ is) = if is_block i then suc (count_blocks is) else count_blocks is

-- The block of an item of an INV, and whether it is announced as a compact block.
unfoldable pub block_of : Inventory → Option (ℕ × Bool)
block_of (inv_block hash) = some (hash, false)
block_of (inv_witness_block hash) = some (hash, false)
block_of (inv_compact_block hash) = some (hash, true)
block_of inv_other = none

module _ {Header : Type 0} where
  -- One block of an INV that came with so many.
  unfoldable pub announce_block : ℕ → ℕ → ℕ → Handler Header Unit
  unfolding emit_block_announcement recover_headers
  announce_block now blocks hash = do
    known ← gets λ s. seen s.header_tree hash
    emit_block_announcement hash by_inv blocks (not known) none
    if known then done else recover_headers now hash false

  -- The loop over the items of an INV that came with so many blocks: at most `slots` of the blocks
  -- are acted on. Returns what to ask for with GETDATA.
  unfoldable pub announce_blocks : ℕ → ℕ → ℕ → List Inventory → Handler Header (List Inventory)
  unfolding announce_block block_of
  announce_blocks now blocks slots [] = pure []
  announce_blocks now blocks zero (i ∷ is) = elim (block_of i) [
    | none ↦ announce_blocks now blocks zero is
    | some _ ↦ pure []
  ]
  announce_blocks now blocks (suc slots) (i ∷ is) = elim (block_of i) [
    | none ↦ announce_blocks now blocks (suc slots) is
    | some (hash, compact) ↦ do
      announce_block now blocks hash
      getdata ← announce_blocks now blocks slots is
      pure (if compact then inv_compact_block hash ∷ getdata else getdata)
  ]

  unfoldable pub request_getdata : List Inventory → Handler Header Unit
  request_getdata [] = done
  request_getdata (i ∷ is) = send (sent_get_data (i ∷ is))

  -- The limit on the items of an INV is the p2p library's.
  unfoldable pub handle_inv : ℕ → ℕ → List Inventory → Handler Header Unit
  unfolding announce_blocks request_getdata
  handle_inv max_inv_size now is =
      if ltb max_inv_size (length is) then fail (protocol_violation (length is)) else do
        getdata ← announce_blocks now (count_blocks is) max_block_invs_announced is
        request_getdata getdata
