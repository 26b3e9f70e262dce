-- ===== src/Session/Headers.antt =====
-- The handlers of observer/src/protocol.rs for HEADERS and CMPCTBLOCK, and the probe of how fast a
-- peer has a block in hand.
use p2p_observer.Common.{
  ℕ, Bool, true, false, not, ◌&&◌, ◌||◌, List, [], ◌∷◌, Option, none, some, ltb, if◌then◌else◌,
  length, map,
}
use p2p_observer.HeaderTree.Insert.{insert_batch}
use p2p_observer.HeaderTree.Rejected.{HeaderError, is_other_chain}
use p2p_observer.HeaderTree.Tree.{Bitcoin, HeaderTree, seen}
use p2p_observer.Session.Messages.{
  CompactBlockShape, by_headers, by_compact_block, requested, answered, compact_block_probe,
  sent_get_block_txn,
}
use p2p_observer.Session.State.{
  Connection, sync_complete, other_chain, Handler, ◌>>=◌, ◌>>◌, pure, done, fail, gets, update,
  expect, emit_event, send,
}
use p2p_observer.Session.Blocks.{emit_block_announcement, recover_headers, send_getheaders}

abbrev pub max_headers_announced : ℕ
max_headers_announced = 8

abbrev pub is_orphan : HeaderError → Bool
is_orphan HeaderError.orphan_header = true
is_orphan _ = false

abbrev pub newest {ℓ} : {A : Type ℓ} → List A → Option A
newest [] = none
newest (x ∷ []) = some x
newest (x ∷ y ∷ ys) = newest (y ∷ ys)

module _ {Header : Type 0} where
  unfoldable pub end_on : Option HeaderError → Handler Header Unit
  end_on none = done
  end_on (some reason) = fail (other_chain reason)

  unfoldable pub request_compact_block_coinbase : ℕ → Handler Header Unit
  request_compact_block_coinbase hash = do
    send (sent_get_block_txn hash)
    emit_event (compact_block_probe hash requested)

module _ {Header : Type 0} (bc : Bitcoin Header) where
  abbrev set_tree : HeaderTree Header → Connection Header → Connection Header
  set_tree t s = record s { header_tree = t }

  -- `insert_batch`: how many headers were new, and the first error.
  unfoldable pub insert_headers : List Header → Handler Header (ℕ × Option HeaderError)
  insert_headers xs = do
    (t, accepted, err) ← expect λ s. insert_batch bc xs s.header_tree
    update (set_tree t)
    pure (accepted, err)

  -- The newest header is what the peer announces.
  unfoldable pub judge_newest : ℕ → Option Header → Handler Header (Option HeaderError)
  unfolding recover_headers
  judge_newest now none = pure none
  judge_newest now (some header) = do recover_headers now (bc.block_hash header) true; pure none

  -- What an error of the batch leads to: the verdict on the peer's chain, if it is one.
  unfoldable pub judge :
      ℕ → Bool → List Header → Option HeaderError → Handler Header (Option HeaderError)
  unfolding judge_newest is_other_chain
  judge now syncs xs none = pure none
  judge now syncs xs (some e) =
      if is_orphan e && not syncs
      then judge_newest now (newest xs)
      else pure (if is_other_chain e then some e else none)

  unfoldable pub accept_headers : ℕ → List Header → Handler Header (ℕ × Option HeaderError)
  unfolding insert_headers judge
  accept_headers now xs = do
    (accepted, err) ← insert_headers xs
    syncs ← gets λ s. s.sync_headers
    other ← judge now syncs xs err
    pure (accepted, other)

  -- One announcement for each header, with what was known of it before the batch.
  unfoldable pub announce_headers : ℕ → List (Header × Bool) → Handler Header Unit
  unfolding emit_block_announcement
  announce_headers size [] = done
  announce_headers size ((header, known) ∷ xs) = do
    emit_block_announcement (bc.block_hash header) by_headers size (not known) none
    announce_headers size xs

  abbrev pub with_known : HeaderTree Header → List Header → List (Header × Bool)
  with_known t xs = map (λ x. (x, seen t (bc.block_hash x))) xs

  unfoldable pub handle_headers : ℕ → List Header → Handler Header Unit
  unfolding accept_headers announce_headers end_on send_getheaders
  handle_headers now [] = do
    syncs ← gets λ s. s.sync_headers
    if syncs then fail sync_complete else done
  handle_headers now (x ∷ xs) = do
    known ← gets λ s. with_known s.header_tree (x ∷ xs)
    (accepted, other) ← accept_headers now (x ∷ xs)
    syncs ← gets λ s. s.sync_headers
    if syncs || ltb max_headers_announced (length (x ∷ xs))
        then done
        else announce_headers (length (x ∷ xs)) known
    end_on other
    if syncs && ltb 0 accepted then send_getheaders else done

  unfoldable pub handle_cmpct_block : ℕ → Header → CompactBlockShape → Handler Header Unit
  unfolding accept_headers end_on request_compact_block_coinbase emit_block_announcement
  handle_cmpct_block now header shape = do
    known ← gets λ s. seen s.header_tree (bc.block_hash header)
    (accepted, other) ← accept_headers now (header ∷ [])
    emit_block_announcement (bc.block_hash header) by_compact_block 1 (not known) (some shape)
    end_on other
    probes ← gets λ s. s.probe_compact_blocks
    if probes then request_compact_block_coinbase (bc.block_hash header) else done

unfoldable pub handle_blocktxn : {Header : Type 0} → ℕ → Handler Header Unit
handle_blocktxn hash = emit_event (compact_block_probe hash answered)
