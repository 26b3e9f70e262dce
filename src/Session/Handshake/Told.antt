-- ===== src/Session/Handshake/Told.antt =====
-- What `version_handshake` of observer/src/protocol.rs returns, and what it sends.
use mathlib.Core.List.{append_assoc, append-nil}
use p2p_observer.Common.{
  ℕ, zero, suc, ◌≡◌, refl, sym, ap, ◌∙◌, Bool, true, false, ◌||◌, List, [], ◌∷◌, ◌++◌, Option, none,
  some, if◌then◌else◌, arith, Bool-cases, Option-cases, inl, inr, ◌⊎◌,
}
use p2p_observer.Session.Handshake.{
  Arm, on_version, on_verack, on_send_addr_v2, on_wtxid_relay, ignored, HandshakeInfo, Progress,
  arm, capped, complete, completed, handshake_loop, info, or_else, read_failed, replies, step,
  version_handshake, write_all, write_failed,
}
use p2p_observer.Session.Handshake.Finished.{complete-none, complete-some}
use p2p_observer.Session.Messages.{NetworkMessage, Sent, VersionMessage, sent_version}

-- The last version message, cut, if there is one after what was known.
abbrev heard : Arm → Option VersionMessage → Option VersionMessage
heard (on_version v) o = some (capped v)
heard _ o = o

abbrev says_addrv2 : Arm → Bool
says_addrv2 on_send_addr_v2 = true
says_addrv2 _ = false

abbrev says_wtxid : Arm → Bool
says_wtxid on_wtxid_relay = true
says_wtxid _ = false

or_true : (b : Bool) → true ≡ (b || true)
or_true true = refl
or_true false = refl

or_false : (b : Bool) → b ≡ (b || false)
or_false true = refl
or_false false = refl

or_assoc : (a b c : Bool) → ((a || b) || c) ≡ (a || (b || c))
or_assoc true b c = refl
or_assoc false b c = refl

module _ {Header : Type 0} where
  abbrev replies_to : Arm → List (Sent Header)
  replies_to (on_version v) = replies (capped v)
  replies_to _ = []

  abbrev pub last_version :
      List (NetworkMessage Header) → Option VersionMessage → Option VersionMessage
  last_version [] o = o
  last_version (m ∷ ms) o = last_version ms (heard (arm m) o)

  abbrev pub has_addrv2 : List (NetworkMessage Header) → Bool
  has_addrv2 [] = false
  has_addrv2 (m ∷ ms) = says_addrv2 (arm m) || has_addrv2 ms

  abbrev pub has_wtxid : List (NetworkMessage Header) → Bool
  has_wtxid [] = false
  has_wtxid (m ∷ ms) = says_wtxid (arm m) || has_wtxid ms

  -- The replies to each version message, in order.
  abbrev pub all_replies : List (NetworkMessage Header) → List (Sent Header)
  all_replies [] = []
  all_replies (m ∷ ms) = replies_to (arm m) ++ all_replies ms

  write_all-sent :
      (ms : List (Sent Header)) (room : ℕ) (p : Progress Header)
      → (write_all ms room p).1 ≡ true
      → ((write_all ms room p).0.sent ≡ p.sent ++ ms)
        × ((write_all ms room p).0.peer_send_addr_v2 ≡ p.peer_send_addr_v2)
        × ((write_all ms room p).0.peer_wtxid_relay ≡ p.peer_wtxid_relay)
  unfolding write_all
  write_all-sent [] room p h = (sym (append-nil p.sent), refl, refl)
  write_all-sent (m ∷ ms) zero p h = absurd (cc h)
  write_all-sent (m ∷ ms) (suc room) p h =
      let r = write_all-sent ms room (record p { sent = p.sent ++ m ∷ [] }) h in
      (r.0 ∙ append_assoc p.sent (m ∷ []) ms, r.1, r.2)

  -- What the progress says after some messages, given what it said before them.
  abbrev Told :
      Progress Header
      → Option VersionMessage
      → Bool
      → Bool
      → List (Sent Header)
      → Progress Header
      → Type 0
  Told p o addrv2 wtxid out q =
      (q.peer_version ≡ o)
      × (q.peer_send_addr_v2 ≡ (p.peer_send_addr_v2 || addrv2))
      × (q.peer_wtxid_relay ≡ (p.peer_wtxid_relay || wtxid))
      × (q.sent ≡ p.sent ++ out)

  step-Told :
      (k : Arm) (p : Progress Header)
      → (step k p).1 ≡ true
      → Told p (heard k p.peer_version) (says_addrv2 k) (says_wtxid k) (replies_to k) (step k p).0
  unfolding step
  step-Told (on_version v) p h = elim (Bool-cases (write_all (replies (capped v)) p.room p).1) [
    | inr failed ↦ absurd (ground arith)
    | inl written ↦
        let r = write_all-sent (replies (capped v)) p.room p written in
        rw (written, step)
          (refl, r.1 ∙ or_false p.peer_send_addr_v2, r.2 ∙ or_false p.peer_wtxid_relay, r.0)
  ]
  step-Told on_verack p h =
      (refl, or_false p.peer_send_addr_v2, or_false p.peer_wtxid_relay, sym (append-nil p.sent))
  step-Told on_send_addr_v2 p h =
      (refl, or_true p.peer_send_addr_v2, or_false p.peer_wtxid_relay, sym (append-nil p.sent))
  step-Told on_wtxid_relay p h =
      (refl, or_false p.peer_send_addr_v2, or_true p.peer_wtxid_relay, sym (append-nil p.sent))
  step-Told ignored p h =
      (refl, or_false p.peer_send_addr_v2, or_false p.peer_wtxid_relay, sym (append-nil p.sent))

  complete-cases :
      (ms : List (NetworkMessage Header)) (p : Progress Header)
      → ((v : VersionMessage) × (p.peer_version ≡ some v)
          × (complete ms p ≡ some (completed (info v p) ms p)))
        ⊎ (complete ms p ≡ none)
  complete-cases ms p = elim (Option-cases p.peer_version) [
    | inl e ↦ inr (rw e refl)
    | inr (v, e) ↦ elim (Bool-cases p.got_verack) [
      | inl got ↦ inl (v, e, complete-some ms p v e got)
      | inr behind ↦ inr (complete-none ms p behind)
    ]
  ]

  -- What the handshake returns, and where it stops.
  abbrev Reported :
      Progress Header
      → List (NetworkMessage Header)
      → HandshakeInfo
      → List (NetworkMessage Header)
      → Progress Header
      → Type 0
  Reported p ms i rest q =
      (taken : List (NetworkMessage Header)) × (ms ≡ taken ++ rest)
      × (last_version taken p.peer_version ≡ some i.version)
      × (i.send_addr_v2 ≡ (p.peer_send_addr_v2 || has_addrv2 taken))
      × (i.wtxid_relay ≡ (p.peer_wtxid_relay || has_wtxid taken))
      × (q.sent ≡ p.sent ++ all_replies taken)

  here :
      (ms rest : List (NetworkMessage Header)) (p q : Progress Header) (i : HandshakeInfo)
      (v : VersionMessage)
      → p.peer_version ≡ some v
      → completed (info v p) ms p ≡ completed i rest q
      → Reported p ms i rest q
  here ms rest p q i v known e = (
    [],
    cc e,
    known ∙ ap (λ j. some j.version) (same_info e),
    ap (λ j. j.send_addr_v2) (sym (same_info e)) ∙ or_false p.peer_send_addr_v2,
    ap (λ j. j.wtxid_relay) (sym (same_info e)) ∙ or_false p.peer_wtxid_relay,
    ap (λ r. r.sent) (sym (same_progress e)) ∙ sym (append-nil p.sent),
  )
    where
      same_info : completed (info v p) ms p ≡ completed i rest q → info v p ≡ i
      same_info h = cc h

      same_progress : completed (info v p) ms p ≡ completed i rest q → p ≡ q
      same_progress h = cc h

  later :
      (m : NetworkMessage Header) (ms rest : List (NetworkMessage Header)) (p q r : Progress Header)
      (i : HandshakeInfo)
      → Told p
          (heard (arm m) p.peer_version)
          (says_addrv2 (arm m))
          (says_wtxid (arm m))
          (replies_to (arm m))
          q
      → Reported q ms i rest r
      → Reported p (m ∷ ms) i rest r
  later m ms rest p q r i (known, addrv2, wtxid, out) (taken, cut, version, a, w, o) = (
    m ∷ taken,
    ap (λ xs. m ∷ xs) cut,
    ap (last_version taken) (sym known) ∙ version,
    a
        ∙ ap (λ b. b || has_addrv2 taken) addrv2
        ∙ or_assoc p.peer_send_addr_v2 (says_addrv2 (arm m)) (has_addrv2 taken),
    w
        ∙ ap (λ b. b || has_wtxid taken) wtxid
        ∙ or_assoc p.peer_wtxid_relay (says_wtxid (arm m)) (has_wtxid taken),
    o
        ∙ ap (λ xs. xs ++ all_replies taken) out
        ∙ append_assoc p.sent (replies_to (arm m)) (all_replies taken),
  )

  handshake_loop-Reported :
      (ms : List (NetworkMessage Header)) (p : Progress Header) (i : HandshakeInfo)
      (rest : List (NetworkMessage Header)) (q : Progress Header)
      → handshake_loop ms p ≡ completed i rest q
      → Reported p ms i rest q
  unfolding handshake_loop
  handshake_loop-Reported [] p i rest q e = elim (complete-cases [] p) [
    | inl (v, known, c) ↦
        here [] rest p q i v known (sym (ap (λ o. or_else o (read_failed p)) c) ∙ e)
    | inr none_yet ↦ absurd (cc (sym (ap (λ o. or_else o (read_failed p)) none_yet) ∙ e))
  ]
  handshake_loop-Reported (m ∷ ms) p i rest q e =
      let next =
        if (step (arm m) p).1
        then handshake_loop ms (step (arm m) p).0
        else write_failed (step (arm m) p).0 in
      elim (complete-cases (m ∷ ms) p) [
        | inl (v, known, c) ↦
            here (m ∷ ms) rest p q i v known (sym (ap (λ o. or_else o next) c) ∙ e)
        | inr none_yet ↦ elim (Bool-cases (step (arm m) p).1) [
          | inr failed ↦ absurd (cc (sym (ap (λ o. or_else o next) none_yet) ∙ e, failed))
          | inl written ↦ later m ms rest p (step (arm m) p).0 q i (step-Told (arm m) p written) (
              handshake_loop-Reported ms (step (arm m) p).0 i rest q (
                sym (
                  ap
                    (λ b.
                      if b
                      then handshake_loop ms (step (arm m) p).0
                      else write_failed (step (arm m) p).0)
                    written)
                ∙ sym (ap (λ o. or_else o next) none_yet)
                ∙ e))
        ]
      ]

  -- A handshake that completes has read the messages up to some point: it returns the last version
  -- message among them, its user agent cut, and whether `sendaddrv2` and `wtxidrelay` are among
  -- them; and it has sent our version and the replies to each version message, in order, and no
  -- more.
  pub version_handshake-told :
      (tip_height room : ℕ) (ms : List (NetworkMessage Header)) (i : HandshakeInfo)
      (rest : List (NetworkMessage Header)) (q : Progress Header)
      → version_handshake tip_height room ms ≡ completed i rest q
      → (taken : List (NetworkMessage Header)) × (ms ≡ taken ++ rest)
        × (last_version taken none ≡ some i.version)
        × (i.send_addr_v2 ≡ has_addrv2 taken)
        × (i.wtxid_relay ≡ has_wtxid taken)
        × (q.sent ≡ sent_version tip_height ∷ all_replies taken)
  unfolding version_handshake write_all
  version_handshake-told tip_height zero ms i rest q e = absurd (cc e)
  version_handshake-told tip_height (suc room) ms i rest q e =
      handshake_loop-Reported ms _ i rest q e
