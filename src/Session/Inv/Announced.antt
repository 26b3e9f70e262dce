-- ===== src/Session/Inv/Announced.antt =====
-- What `handle_inv` of observer/src/protocol.rs announces of an INV.
use mathlib.Core.List.{append_assoc, append-nil}
use p2p_observer.Common.{
  ℕ, zero, suc, ◌+◌, ◌≤◌, ◌≡◌, refl, sym, ap, ◌∙◌, Bool, false, not, List, [], ◌∷◌, ◌++◌, Option,
  none, some, arith, length, take, ltb, is_some, Option-cases, inl, inr,
}
use p2p_observer.HeaderTree.Recovery.{recovery_due}
use p2p_observer.HeaderTree.Rejected.{rejection_of}
use p2p_observer.HeaderTree.Tree.{Bitcoin, seen}
use p2p_observer.Session.Blocks.{
  asked_already, emit_block_announcement, recover_headers, send_getheaders, take_turn, announcement,
}
use p2p_observer.Session.Bucket.{F64, F64Laws}
use p2p_observer.Session.Inv.{
  announce_block, announce_blocks, block_of, count_blocks, handle_inv, request_getdata,
}
use p2p_observer.Session.Invariant.{
  Holds, on_ok, on_ended, and_then-Holds, if-Holds, IsConnection, Sound-recovery, located,
}
use p2p_observer.Session.Messages.{
  AnnouncementType, by_inv, CompactBlockShape, Effect, sent, published, gossiped, refreshed,
  block_announcement, Event, Inventory, Sent, sent_get_headers, sent_get_data,
}
use p2p_observer.Session.State.{Connection, Result, emit_event, expect, send, write}

abbrev pub hash_of : Event → List ℕ
hash_of (block_announcement a) = a.block_hash ∷ []
hash_of _ = []

-- The blocks that were announced, in order.
abbrev pub announced : {Header : Type 0} → List (Effect Header) → List ℕ
announced [] = []
announced (published e ∷ es) = hash_of e ++ announced es
announced (_ ∷ es) = announced es

-- The blocks of an INV, in order.
abbrev pub hashes : List Inventory → List ℕ
hashes [] = []
hashes (i ∷ items) = elim (block_of i) [
  | none ↦ hashes items
  | some (hash, _) ↦ hash ∷ hashes items
]

announced-append :
    {Header : Type 0} (es ds : List (Effect Header))
    → announced (es ++ ds) ≡ announced es ++ announced ds
announced-append [] ds = refl
announced-append (published e ∷ es) ds =
    ap (λ xs. hash_of e ++ xs) (announced-append es ds)
    ∙ sym (append_assoc (hash_of e) (announced es) (announced ds))
announced-append (sent m ∷ es) ds = announced-append es ds
announced-append (gossiped g ∷ es) ds = announced-append es ds
announced-append (refreshed c n ∷ es) ds = announced-append es ds

not_over : (n m : ℕ) → n ≤ m → ltb m n ≡ false
not_over n m h = ground arith

module _ {Header : Type 0} (bc : Bitcoin Header) (f : F64) (l : F64Laws f) where
  -- The blocks announced so far, and the messages that the socket takes still, at least.
  abbrev Within : List ℕ → ℕ → Connection Header → Type 0
  Within a n s = IsConnection bc f l s × (announced s.effects ≡ a) × (n ≤ s.room)

  -- The handler returns, with so much announced and so much room left.
  abbrev Leaves : {A : Type 0} → List ℕ → ℕ → Result (Connection Header) A → Type 0
  Leaves a n r = Holds (λ _ s. Within a n s) (λ _ _. ⊥) r

  write-Leaves :
      (a : List ℕ) (n : ℕ) (msg : Sent Header) (room : ℕ) (s : Connection Header)
      → IsConnection bc f l s
      → announced s.effects ≡ a
      → suc n ≤ room
      → Leaves a n (write room msg s)
  write-Leaves a n msg zero s h e r = absurd (omega (arith, r))
  write-Leaves a n msg (suc room) s h e r =
      on_ok (h, announced-append s.effects (sent msg ∷ []) ∙ append-nil _ ∙ e, omega (arith, r))

  send-Leaves :
      (a : List ℕ) (n : ℕ) (msg : Sent Header) (s : Connection Header)
      → Within a (suc n) s
      → Leaves a n (send msg s)
  unfolding send
  send-Leaves a n msg s h = write-Leaves a n msg s.room s h.0 h.1 h.2

  emit-Leaves :
      (a : List ℕ) (n hash : ℕ) (by : AnnouncementType) (size : ℕ) (new : Bool)
      (shape : Option CompactBlockShape) (s : Connection Header)
      → Within a n s
      → Leaves (a ++ hash ∷ []) n (emit_block_announcement hash by size new shape s)
  unfolding emit_block_announcement emit_event announcement
  emit-Leaves a n hash by size new shape s h =
      let b = announcement s.header_tree hash by size new shape in
      on_ok (
        h.0,
        announced-append s.effects (published (block_announcement b) ∷ [])
            ∙ ap (λ xs. xs ++ hash ∷ []) h.1,
        h.2,
      )

  send_getheaders-Leaves :
      (a : List ℕ) (n : ℕ) (s : Connection Header)
      → Within a (suc n) s
      → Leaves a n (send_getheaders s)
  unfolding send_getheaders
  send_getheaders-Leaves a n s h =
      let (locator, e) = located bc f l s.header_tree h.0.1 in
      rw (e, send_getheaders, expect) (send-Leaves a n (sent_get_headers locator) s h)

  recover_headers-Leaves :
      (a : List ℕ) (n now missing : ℕ) (proven : Bool) (s : Connection Header)
      → Within a (suc n) s
      → Leaves a n (recover_headers now missing proven s)
  unfolding recover_headers take_turn
  recover_headers-Leaves a n now missing proven s h =
      let turn = recovery_due missing proven now s.header_tree.recovery in
      and_then-Holds {Q = λ _ s'. Within a (suc n) s'}
        (if-Holds (asked_already missing s.asked_for) _ _ (on_ok h) (
          if-Holds (is_some (rejection_of missing s.header_tree.refusals)) _ _ (on_ok h) (
            on_ok
              ((h.0.0, Sound-recovery bc f l s.header_tree turn.0 h.0.1, h.0.2, h.0.3), h.1, h.2))))
        λ due s' h'.
          if-Holds due _ _ (send_getheaders-Leaves a n (record s' { asked_for = some missing }) h')
            (on_ok (h'.0, h'.1, omega (arith, h'.2)))

  announce_block-Leaves :
      (a : List ℕ) (n now blocks hash : ℕ) (s : Connection Header)
      → Within a (suc n) s
      → Leaves (a ++ hash ∷ []) n (announce_block now blocks hash s)
  unfolding announce_block
  announce_block-Leaves a n now blocks hash s h =
      let known = seen s.header_tree hash in
      and_then-Holds (emit-Leaves a (suc n) hash by_inv blocks (not known) none s h) λ _ s' h'.
        if-Holds known _ _ (on_ok (h'.0, h'.1, omega (arith, h'.2)))
          (recover_headers-Leaves (a ++ hash ∷ []) n now hash false s' h')

  announce_blocks-Leaves :
      (a : List ℕ) (n now blocks slots : ℕ) (items : List Inventory) (s : Connection Header)
      → Within a (slots + n) s
      → Leaves (a ++ take slots (hashes items)) n (announce_blocks now blocks slots items s)
  unfolding announce_blocks
  announce_blocks-Leaves a n now blocks zero [] s h =
      on_ok (h.0, h.1 ∙ sym (append-nil a), omega (arith, h.2))
  announce_blocks-Leaves a n now blocks (suc slots) [] s h =
      on_ok (h.0, h.1 ∙ sym (append-nil a), omega (arith, h.2))
  announce_blocks-Leaves a n now blocks zero (i ∷ items) s h = elim (Option-cases (block_of i)) [
    | inl e ↦ rw (e, announce_blocks) (announce_blocks-Leaves a n now blocks zero items s h)
    | inr (x, e) ↦
        rw (e, announce_blocks) (on_ok (h.0, h.1 ∙ sym (append-nil a), omega (arith, h.2)))
  ]
  announce_blocks-Leaves a n now blocks (suc slots) (i ∷ items) s h =
      elim (Option-cases (block_of i)) [
        | inl e ↦
            rw (e, announce_blocks, hashes)
              (announce_blocks-Leaves a n now blocks (suc slots) items s h)
        | inr ((hash, compact), e) ↦
            rw
              (
                e,
                announce_blocks,
                hashes,
                sym (append_assoc a (hash ∷ []) (take slots (hashes items))),
              )
              (and_then-Holds
                (announce_block-Leaves a (slots + n) now blocks hash s
                  (h.0, h.1, omega (arith, h.2)))
                λ _ s' h'.
                  and_then-Holds
                    (announce_blocks-Leaves (a ++ hash ∷ []) n now blocks slots items s' h')
                    λ getdata s'' h''. on_ok h'')
      ]

  request_getdata-Leaves :
      (a : List ℕ) (n : ℕ) (items : List Inventory) (s : Connection Header)
      → Within a (suc n) s
      → Leaves a n (request_getdata items s)
  unfolding request_getdata
  request_getdata-Leaves a n [] s h = on_ok (h.0, h.1, omega (arith, h.2))
  request_getdata-Leaves a n (i ∷ items) s h = send-Leaves a n (sent_get_data (i ∷ items)) s h

  weaken :
      {a : List ℕ} {n : ℕ} (r : Result (Connection Header) Unit)
      → Leaves a n r
      → Holds (λ _ s. (announced s.effects ≡ a) × (n ≤ s.room)) (λ _ _. ⊥) r
  weaken _ (on_ok h) = on_ok (h.1, h.2)
  weaken _ (on_ended e) = on_ended e

  -- In a connection that is as it should be and whose tree has no checkpoints, an INV within the
  -- protocol's limit is handled to its end, where the socket takes nine messages
  -- more: exactly its first eight blocks are announced, in order, however many it has, and at most
  -- nine messages are sent for it.
  pub announced-handle_inv :
      (max_inv_size now : ℕ) (items : List Inventory) (s : Connection Header) (n : ℕ)
      → IsConnection bc f l s
      → length items ≤ max_inv_size
      → 9 + n ≤ s.room
      → Holds
          (λ _ s'.
            (announced s'.effects ≡ announced s.effects ++ take 8 (hashes items)) × (n ≤ s'.room))
          (λ _ _. ⊥)
          (handle_inv max_inv_size now items s)
  unfolding handle_inv
  announced-handle_inv max_inv_size now items s n h fits room =
      rw (not_over (length items) max_inv_size fits, handle_inv)
        (and_then-Holds
          (announce_blocks-Leaves (announced s.effects) (suc n) now (count_blocks items) 8 items s
            (h, refl, omega (arith, room)))
          λ getdata s' h'. weaken _ (request_getdata-Leaves _ n getdata s' h'))
