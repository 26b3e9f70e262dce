-- ===== src/Session/Handshake/Finished.antt =====
-- When `version_handshake` of observer/src/protocol.rs completes, and with what.
use p2p_observer.Common.{
  ℕ, zero, suc, ◌+◌, ◌*◌, ◌≤◌, ◌≡◌, refl, sym, ap, subst, ◌∙◌, true, false, List, [], ◌∷◌, ◌++◌,
  none, some, arith, length, if◌then◌else◌, is_some, Option-cases, Bool-cases, inl, inr,
}
use p2p_observer.Session.Handshake.{
  Arm, on_version, on_verack, on_send_addr_v2, on_wtxid_relay, ignored, arm, HandshakeInfo, Outcome,
  Progress, capped, complete, completed, or_else, handshake_loop, info, read_failed, replies, step,
  version_handshake, write_all, write_failed,
}
use p2p_observer.Session.Messages.{NetworkMessage, VersionMessage, Sent}

abbrev pub version_in : Arm → ℕ
version_in (on_version v) = 1
version_in _ = 0

abbrev pub verack_in : Arm → ℕ
verack_in on_verack = 1
verack_in _ = 0

length-replies-le :
    (Header : Type 0) (v : VersionMessage) → length (replies {Header = Header} v) ≤ 3
unfolding replies
length-replies-le Header v = ground arith

module _ {Header : Type 0} where
  -- How many version messages there are, and how many veracks.
  abbrev pub versions : List (NetworkMessage Header) → ℕ
  versions [] = 0
  versions (m ∷ ms) = version_in (arm m) + versions ms

  abbrev pub veracks : List (NetworkMessage Header) → ℕ
  veracks [] = 0
  veracks (m ∷ ms) = verack_in (arm m) + veracks ms

  -- The handshake returned.
  abbrev pub Completed : Outcome Header → Type 0
  Completed o =
      (i : HandshakeInfo) × (rest : List (NetworkMessage Header)) × (p : Progress Header) × (o
        ≡ completed i rest p)

  abbrev has_version : Progress Header → ℕ
  has_version p = if is_some p.peer_version then 1 else 0

  abbrev has_verack : Progress Header → ℕ
  has_verack p = if p.got_verack then 1 else 0

  -- There is room for the replies.
  write_all-written :
      (ms : List (Sent Header)) (room n : ℕ) (p : Progress Header)
      → length ms + n ≤ room
      → (q : Progress Header) × (write_all ms room p ≡ (q, true))
        × (n ≤ q.room)
        × (q.got_verack ≡ p.got_verack)
  unfolding write_all
  write_all-written [] room n p h = (record p { room = room }, refl, omega (arith, h), refl)
  write_all-written (m ∷ ms) zero n p h = absurd (omega (arith, h))
  write_all-written (m ∷ ms) (suc room) n p h =
      write_all-written ms room n (record p { sent = p.sent ++ m ∷ [] }) (omega (arith, h))

  step-written :
      (k : Arm) (n : ℕ) (p : Progress Header)
      → 3 * version_in k + n ≤ p.room
      → (q : Progress Header) × (step k p ≡ (q, true))
        × (n ≤ q.room)
        × (version_in k + has_version p ≤ 2 * has_version q)
        × (verack_in k + has_verack p ≤ 2 * has_verack q)
  unfolding step
  step-written (on_version v) n p h =
      let (q, e, room, same) =
        write_all-written (replies (capped v)) p.room n p
          (omega (arith, h, length-replies-le Header (capped v))) in
      (
        record q { peer_version = some (capped v) },
        rw (e, step) refl,
        room,
        ground arith,
        ground (arith, same),
      )
  step-written on_verack n p h =
      (record p { got_verack = true }, refl, omega (arith, h), ground arith, ground arith)
  step-written on_send_addr_v2 n p h =
      (record p { peer_send_addr_v2 = true }, refl, omega (arith, h), ground arith, ground arith)
  step-written on_wtxid_relay n p h =
      (record p { peer_wtxid_relay = true }, refl, omega (arith, h), ground arith, ground arith)
  step-written ignored n p h = (p, refl, omega (arith, h), ground arith, ground arith)

  pub complete-some :
      (ms : List (NetworkMessage Header)) (p : Progress Header) (v : VersionMessage)
      → p.peer_version ≡ some v
      → p.got_verack ≡ true
      → complete ms p ≡ some (completed (info v p) ms p)
  complete-some ms p v e got =
      ap
        (λ o. elim o [
          | none ↦ none
          | some w ↦ (if p.got_verack then some (completed (info w p) ms p) else none)
        ])
        e
      ∙ ap (λ b. if b then some (completed (info v p) ms p) else none) got

  pub complete-none :
      (ms : List (NetworkMessage Header)) (p : Progress Header)
      → p.got_verack ≡ false
      → complete ms p ≡ none
  complete-none ms p behind = elim (Option-cases p.peer_version) [
    | inl e ↦ rw e refl
    | inr (v, e) ↦
        ap
          (λ o. elim o [
            | none ↦ none
            | some w ↦ (if p.got_verack then some (completed (info w p) ms p) else none)
          ])
          e
        ∙ ap (λ b. if b then some (completed (info v p) ms p) else none) behind
  ]

  -- The loop goes on to a state after which it completes.
  goes_on :
      (m : NetworkMessage Header) (ms : List (NetworkMessage Header)) (p q : Progress Header)
      → complete (m ∷ ms) p ≡ none
      → step (arm m) p ≡ (q, true)
      → Completed (handshake_loop ms q)
      → Completed (handshake_loop (m ∷ ms) p)
  unfolding handshake_loop
  goes_on m ms p q none_yet e done_later =
      subst Completed
        (sym (
          ap
            (λ o. or_else o (
              if (step (arm m) p).1
              then handshake_loop ms (step (arm m) p).0
              else write_failed (step (arm m) p).0))
            none_yet
          ∙ ap (λ r. if r.1 then handshake_loop ms r.0 else write_failed r.0) e))
        done_later

  handshake_loop-Completed :
      (ms : List (NetworkMessage Header)) (p : Progress Header)
      → 1 ≤ has_version p + versions ms
      → 1 ≤ has_verack p + veracks ms
      → 3 * versions ms ≤ p.room
      → Completed (handshake_loop ms p)
  unfolding handshake_loop
  handshake_loop-Completed [] p hv ha hr = elim (Option-cases p.peer_version) [
    | inl e ↦ absurd (ground arith)
    | inr (v, e) ↦ elim (Bool-cases p.got_verack) [
      | inl got ↦
          (info v p, [], p, ap (λ o. or_else o (read_failed p)) (complete-some [] p v e got))
      | inr behind ↦ absurd (ground arith)
    ]
  ]
  handshake_loop-Completed (m ∷ ms) p hv ha hr =
      let (q, e, room, seen_version, seen_verack) =
        step-written (arm m) (3 * versions ms) p (omega (arith, hr)) in
      let rest =
        handshake_loop-Completed ms q (ground (arith, hv, seen_version))
          (ground (arith, ha, seen_verack)) room in
      elim (Option-cases p.peer_version) [
        | inl missing ↦ goes_on m ms p q (rw missing refl) e rest
        | inr (v, known) ↦ elim (Bool-cases p.got_verack) [
          | inl got ↦ (
            info v p,
            m ∷ ms,
            p,
            ap
                (λ o. or_else o (
                  if (step (arm m) p).1
                  then handshake_loop ms (step (arm m) p).0
                  else write_failed (step (arm m) p).0))
                (complete-some (m ∷ ms) p v known got),
          )
          | inr behind ↦ goes_on m ms p q (complete-none (m ∷ ms) p behind) e rest
        ]
      ]

  -- The handshake completes with any peer that sends a version and a verack, in whatever order and
  -- among whatever other messages, where the socket takes our version and three replies to each
  -- version.
  pub version_handshake-Completed :
      (tip_height room : ℕ) (ms : List (NetworkMessage Header))
      → 1 ≤ versions ms
      → 1 ≤ veracks ms
      → 1 + 3 * versions ms ≤ room
      → Completed (version_handshake tip_height room ms)
  unfolding version_handshake write_all
  version_handshake-Completed tip_height zero ms hv ha hr = absurd (omega (arith, hr))
  version_handshake-Completed tip_height (suc room) ms hv ha hr =
      handshake_loop-Completed ms _ (omega (arith, hv)) (omega (arith, ha)) (omega (arith, hr))
