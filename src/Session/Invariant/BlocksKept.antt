-- ===== src/Session/Invariant/BlocksKept.antt =====
-- The handlers of observer/src/protocol.rs for blocks keep what holds of a connection.
use p2p_observer.Common.{
  ℕ, zero, suc, ◌≡◌, refl, Bool, true, false, not, ◌&&◌, ◌||◌, List, [], ◌∷◌, Option, none, some,
  length, ltb, ltb→lt, ◌<◌, if◌then◌else◌, Option-cases, inl, inr, ◌⊎◌, Bool-cases, is_some,
}
use p2p_observer.HeaderTree.Insert.Whole.{insert_batch-IsTree}
use p2p_observer.HeaderTree.Rejected.{HeaderError, is_other_chain, rejection_of}
use p2p_observer.HeaderTree.Recovery.{recovery_due}
use p2p_observer.HeaderTree.Tree.{Bitcoin, seen}
use p2p_observer.Session.Blocks.{
  asked_already, emit_block_announcement, recover_headers, send_getheaders, take_turn,
}
use p2p_observer.Session.Bucket.{F64, F64Laws}
use p2p_observer.Session.Headers.{
  accept_headers, announce_headers, end_on, handle_headers, handle_cmpct_block, insert_headers,
  is_orphan, judge, judge_newest, with_known, newest, request_compact_block_coinbase,
}
use p2p_observer.Session.Inv.{
  announce_block, announce_blocks, count_blocks, block_of, handle_inv, request_getdata,
}
use p2p_observer.Session.Invariant.{
  Holds, on_ok, on_ended, Keeps, and_then-Holds, if-Holds, Keeping, Sound-recovery, located,
  send-Keeps,
}
use p2p_observer.Session.Messages.{
  AnnouncementType, by_inv, by_headers, by_compact_block, CompactBlockShape, Inventory,
  sent_get_headers, sent_get_data, sent_get_block_txn,
}
use p2p_observer.Session.Stats.{ConnectionStats}
use p2p_observer.Session.State.{
  Error, write_failed, sync_complete, other_chain, protocol_violation, emit_event, expect,
  Connection, Handler,
}

module _ {Header : Type 0} (bc : Bitcoin Header) (f : F64) (l : F64Laws f)
    (G : ConnectionStats → Type 0) (E : Error → Type 0) (w : E write_failed) where
  abbrev P : Connection Header → Type 0
  P = Keeping bc f l G

  abbrev K : {A : Type 0} → Handler Header A → Type 0
  K m = Keeps E P m

  pub send_getheaders-Keeps : K send_getheaders
  unfolding send_getheaders
  send_getheaders-Keeps s h =
      let (locator, e) = located bc f l s.header_tree h.1 in
      rw (e, send_getheaders, expect) (send-Keeps bc f l G E w (sent_get_headers locator) s h)

  take_turn-Keeps : (now missing : ℕ) (proven : Bool) → K (take_turn now missing proven)
  unfolding take_turn
  take_turn-Keeps now missing proven s h =
      let turn = recovery_due missing proven now s.header_tree.recovery in
      on_ok (h.0, Sound-recovery bc f l s.header_tree turn.0 h.1, h.2, h.3)

  recover_headers-Keeps : (now missing : ℕ) (proven : Bool) → K (recover_headers now missing proven)
  unfolding recover_headers
  recover_headers-Keeps now missing proven s h =
      and_then-Holds
        (if-Holds (asked_already missing s.asked_for) _ _ (on_ok h) (
          if-Holds (is_some (rejection_of missing s.header_tree.refusals)) _ _ (on_ok h)
            (take_turn-Keeps now missing proven s h)))
        λ due s' h'.
          if-Holds due _ _ (send_getheaders-Keeps (record s' { asked_for = some missing }) h')
            (on_ok h')

  emit_block_announcement-Keeps :
      (hash : ℕ) (by : AnnouncementType) (size : ℕ) (new : Bool) (shape : Option CompactBlockShape)
      → K (emit_block_announcement hash by size new shape)
  unfolding emit_block_announcement emit_event
  emit_block_announcement-Keeps hash by size new shape s h = on_ok h

  announce_block-Keeps : (now blocks hash : ℕ) → K (announce_block now blocks hash)
  unfolding announce_block
  announce_block-Keeps now blocks hash s h =
      let known = seen s.header_tree hash in
      and_then-Holds (emit_block_announcement-Keeps hash by_inv blocks (not known) none s h)
        λ _ s' h'. if-Holds known _ _ (on_ok h') (recover_headers-Keeps now hash false s' h')

  announce_blocks-Keeps :
      (now blocks slots : ℕ) (items : List Inventory) → K (announce_blocks now blocks slots items)
  unfolding announce_blocks
  announce_blocks-Keeps now blocks slots [] s h = on_ok h
  announce_blocks-Keeps now blocks zero (i ∷ items) s h = elim (Option-cases (block_of i)) [
    | inl e ↦ rw (e, announce_blocks) (announce_blocks-Keeps now blocks zero items s h)
    | inr (x, e) ↦ rw (e, announce_blocks) (on_ok h)
  ]
  announce_blocks-Keeps now blocks (suc slots) (i ∷ items) s h = elim (Option-cases (block_of i)) [
    | inl e ↦ rw (e, announce_blocks) (announce_blocks-Keeps now blocks (suc slots) items s h)
    | inr ((hash, compact), e) ↦
        rw (e, announce_blocks)
          (and_then-Holds (announce_block-Keeps now blocks hash s h) λ _ s' h'.
            and_then-Holds (announce_blocks-Keeps now blocks slots items s' h')
              λ getdata s'' h''. on_ok h'')
  ]

  request_getdata-Keeps : (items : List Inventory) → K (request_getdata items)
  unfolding request_getdata
  request_getdata-Keeps [] s h = on_ok h
  request_getdata-Keeps (i ∷ items) s h = send-Keeps bc f l G E w (sent_get_data (i ∷ items)) s h

  pub handle_inv-Keeps :
      (max_inv_size now : ℕ) (items : List Inventory)
      → (max_inv_size < length items → E (protocol_violation (length items)))
      → K (handle_inv max_inv_size now items)
  unfolding handle_inv
  handle_inv-Keeps max_inv_size now items v s h =
      elim (Bool-cases (ltb max_inv_size (length items))) [
        | inl over ↦ rw (over, handle_inv) (on_ended (v (ltb→lt _ _ over), h))
        | inr within ↦
            rw (within, handle_inv)
              (and_then-Holds (announce_blocks-Keeps now (count_blocks items) 8 items s h)
                λ getdata. request_getdata-Keeps getdata)
      ]

  insert_headers-Keeps : (xs : List Header) → K (insert_headers bc xs)
  unfolding insert_headers
  insert_headers-Keeps xs s h =
      let (t, accepted, err, e, v, led, none_set) =
        insert_batch-IsTree bc xs s.header_tree h.1.0 h.1.1 h.1.2 in
      rw (e, insert_headers, expect) (on_ok (h.0, (v, led, none_set), h.2, h.3))

  -- A verdict is an error that says that the peer is on another chain.
  abbrev Verdict : Option HeaderError → Type 0
  Verdict none = Unit
  Verdict (some e) = is_other_chain e ≡ true

  Verdict-is_other_chain :
      (e : HeaderError)
      → (is_other_chain e ≡ true) ⊎ (is_other_chain e ≡ false)
      → Verdict (if is_other_chain e then some e else none)
  Verdict-is_other_chain e (inl yes_it_is) = rw yes_it_is yes_it_is
  Verdict-is_other_chain e (inr behind) = rw behind tt

  judge_newest-Keeps :
      (now : ℕ) (x : Option Header) (s : Connection Header)
      → P s
      → Holds (λ verdict s'. Verdict verdict × P s') (λ e s'. E e × P s') (judge_newest bc now x s)
  unfolding judge_newest
  judge_newest-Keeps now none s h = on_ok (tt, h)
  judge_newest-Keeps now (some header) s h =
      and_then-Holds (recover_headers-Keeps now (bc.block_hash header) true s h)
        λ _ s' h'. on_ok (tt, h')

  judge-Keeps :
      (now : ℕ) (syncs : Bool) (xs : List Header) (err : Option HeaderError)
      → (s : Connection Header) → P s
      → Holds
          (λ verdict s'. Verdict verdict × P s')
          (λ e s'. E e × P s')
          (judge bc now syncs xs err s)
  unfolding judge
  judge-Keeps now syncs xs none s h = on_ok (tt, h)
  judge-Keeps now syncs xs (some e) s h =
      if-Holds (is_orphan e && not syncs) _ _ (judge_newest-Keeps now (newest xs) s h)
        (on_ok (Verdict-is_other_chain e (Bool-cases (is_other_chain e)), h))

  accept_headers-Keeps :
      (now : ℕ) (xs : List Header) (s : Connection Header)
      → P s
      → Holds (λ r s'. Verdict r.1 × P s') (λ e s'. E e × P s') (accept_headers bc now xs s)
  unfolding accept_headers
  accept_headers-Keeps now xs s h = and_then-Holds (insert_headers-Keeps xs s h) λ r s' h'.
      and_then-Holds (judge-Keeps now s'.sync_headers xs r.1 s' h') λ other s'' h''. on_ok h''

  announce_headers-Keeps : (size : ℕ) (xs : List (Header × Bool)) → K (announce_headers bc size xs)
  unfolding announce_headers
  announce_headers-Keeps size [] s h = on_ok h
  announce_headers-Keeps size ((header, known) ∷ xs) s h =
      and_then-Holds
        (emit_block_announcement-Keeps (bc.block_hash header) by_headers size (not known) none s h)
        λ _. announce_headers-Keeps size xs

  request_compact_block_coinbase-Keeps : (hash : ℕ) → K (request_compact_block_coinbase hash)
  unfolding request_compact_block_coinbase emit_event
  request_compact_block_coinbase-Keeps hash s h =
      and_then-Holds (send-Keeps bc f l G E w (sent_get_block_txn hash) s h) λ _ s' h'. on_ok h'

  module _ (o : (e : HeaderError) → is_other_chain e ≡ true → E (other_chain e)) where
    end_on-Keeps : (verdict : Option HeaderError) → Verdict verdict → K (end_on verdict)
    unfolding end_on
    end_on-Keeps none v s h = on_ok h
    end_on-Keeps (some e) v s h = on_ended (o e v, h)

    pub handle_headers-Keeps :
        (now : ℕ) (xs : List Header) (s : Connection Header)
        → P s
        → (xs ≡ [] → s.sync_headers ≡ true → E sync_complete)
        → Holds (λ _ s'. P s') (λ e s'. E e × P s') (handle_headers bc now xs s)
    unfolding handle_headers
    handle_headers-Keeps now [] s h c = elim (Bool-cases s.sync_headers) [
      | inl syncs ↦ rw (syncs, handle_headers) (on_ended (c refl syncs, h))
      | inr runs ↦ rw (runs, handle_headers) (on_ok h)
    ]
    handle_headers-Keeps now (x ∷ xs) s h c =
        let size = length (x ∷ xs) in
        let known = with_known bc s.header_tree (x ∷ xs) in
        and_then-Holds (accept_headers-Keeps now (x ∷ xs) s h) λ r s1 (v, h1).
          and_then-Holds
            (if-Holds (s1.sync_headers || ltb 8 size) _ _ (on_ok h1)
              (announce_headers-Keeps size known s1 h1))
            λ _ s2 h2. and_then-Holds (end_on-Keeps r.1 v s2 h2) λ _ s3 h3.
              if-Holds (s1.sync_headers && ltb 0 r.0) _ _ (send_getheaders-Keeps s3 h3) (on_ok h3)

    pub handle_cmpct_block-Keeps :
        (now : ℕ) (header : Header) (shape : CompactBlockShape)
        → K (handle_cmpct_block bc now header shape)
    unfolding handle_cmpct_block
    handle_cmpct_block-Keeps now header shape s h =
        let hash = bc.block_hash header in
        and_then-Holds (accept_headers-Keeps now (header ∷ []) s h) λ r s1 (v, h1).
          and_then-Holds
            (emit_block_announcement-Keeps hash by_compact_block 1 (not (seen s.header_tree hash))
              (some shape) s1 h1)
            λ _ s2 h2. and_then-Holds (end_on-Keeps r.1 v s2 h2) λ _ s3 h3.
              if-Holds s3.probe_compact_blocks _ _ (request_compact_block_coinbase-Keeps hash s3 h3)
                (on_ok h3)
