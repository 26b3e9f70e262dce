-- ===== src/Session/Blocks.antt =====
-- What the handlers of observer/src/protocol.rs for blocks share: the announcement that is
-- published, and the request for the headers that the tree lacks.
use p2p_observer.Common.{ℕ, Bool, false, Option, none, some, ◌==◌, if◌then◌else◌, is_some}
use p2p_observer.HeaderTree.Locator.{build_locator}
use p2p_observer.HeaderTree.Recovery.{recovery_due}
use p2p_observer.HeaderTree.Rejected.{HeaderError, rejection_of}
use p2p_observer.HeaderTree.Tree.{HeaderTree, height_of}
use p2p_observer.Session.Messages.{
  CompactBlockShape, AnnouncementType, by_inv, by_headers, by_compact_block, Unplaced,
  BlockAnnouncement, block_announcement, sent_get_headers,
}
use p2p_observer.Session.State.{
  Handler, ◌>>=◌, ◌>>◌, pure, done, gets, update, expect, emit_event, send,
}

unfoldable pub unplaced_for : HeaderError → Unplaced
unplaced_for HeaderError.orphan_header = Unplaced.orphan
unplaced_for HeaderError.weaker_chain = Unplaced.weaker_chain
unplaced_for HeaderError.invalid_pow = Unplaced.invalid_pow
unplaced_for HeaderError.target_too_easy = Unplaced.invalid_pow
unplaced_for HeaderError.checkpoint_mismatch = Unplaced.checkpoint_mismatch
unplaced_for HeaderError.fork_below_checkpoint = Unplaced.fork_below_checkpoint

-- Why a block has no height, by its height, its refusal and how it was announced.
unfoldable pub unplaced_of : Option ℕ → Option HeaderError → AnnouncementType → Option Unplaced
unfolding unplaced_for
unplaced_of (some height) reason by = none
unplaced_of none (some reason) by = some (unplaced_for reason)
unplaced_of none none by_inv = some Unplaced.no_header
unplaced_of none none by_headers = some Unplaced.orphan
unplaced_of none none by_compact_block = some Unplaced.orphan

-- `self.asked_for == Some(missing)`.
abbrev pub asked_already : ℕ → Option ℕ → Bool
asked_already missing none = false
asked_already missing (some h) = h == missing

module _ {Header : Type 0} where
  -- The announcement that `emit_block_announcement` publishes.
  unfoldable pub announcement :
      HeaderTree Header
      → ℕ
      → AnnouncementType
      → ℕ
      → Bool
      → Option CompactBlockShape
      → BlockAnnouncement
  unfolding unplaced_of
  announcement t hash by batch_size new_to_us shape = record {
    block_hash = hash;
    announcement_type = by;
    batch_size = batch_size;
    height = height_of t hash;
    new_to_us = new_to_us;
    compact_block = shape;
    unplaced = unplaced_of (height_of t hash) (rejection_of hash t.refusals) by;
  }

  unfoldable pub emit_block_announcement :
      ℕ → AnnouncementType → ℕ → Bool → Option CompactBlockShape → Handler Header Unit
  unfolding announcement
  emit_block_announcement hash by batch_size new_to_us shape = do
    a ← gets λ s. announcement s.header_tree hash by batch_size new_to_us shape
    emit_event (block_announcement a)

  unfoldable pub send_getheaders : Handler Header Unit
  unfolding build_locator
  send_getheaders = do
    locator ← expect λ s. build_locator s.header_tree
    send (sent_get_headers locator)

  -- The turn through the recovery throttle, which writes to the tree.
  unfoldable pub take_turn : ℕ → ℕ → Bool → Handler Header Bool
  unfolding recovery_due
  take_turn now missing proven = do
    turn ← gets λ s. recovery_due missing proven now s.header_tree.recovery
    update λ s. record s { header_tree = record s.header_tree { recovery = turn.0 } }
    pure turn.1

  unfoldable pub recover_headers : ℕ → ℕ → Bool → Handler Header Unit
  unfolding take_turn rejection_of send_getheaders
  recover_headers now missing proven = do
    asked ← gets λ s. asked_already missing s.asked_for
    refused ← gets λ s. is_some (rejection_of missing s.header_tree.refusals)
    due ← if asked then pure false else if refused then pure false else take_turn now missing proven
    if due then (do update λ s. record s { asked_for = some missing }; send_getheaders) else done
