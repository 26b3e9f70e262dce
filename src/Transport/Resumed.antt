-- ===== src/Transport/Resumed.antt =====
-- That the v1 reader of observer/src/transport.rs resumes where a cancelled read left off.
use mathlib.Core.List.{append_assoc}
use p2p_observer.Common.{
  ℕ, zero, suc, ◌-◌, ◌≡◌, refl, sym, ap, ◌∙◌, Bool, true, false, not, List, [], ◌∷◌, ◌++◌, arith,
  leb, length, length-append, take, ltb, if◌then◌else◌, Bool-cases, inl, inr,
}
use p2p_observer.Attempt.{Fault}
use p2p_observer.Transport.{
  max_v1_payload, After, nothing_yet, Codec, Filled, full, dry, prepend, fill, Phase, header,
  payload, Reader, Received, cancelled, check_header, on_header, on_payload, ran_dry, read_payload,
  recv, recv_from, payload_len, decode_frame, is_empty, same_octets,
}

prepend-append : (bs cs : List ℕ) (x : Filled) → prepend (bs ++ cs) x ≡ prepend bs (prepend cs x)
prepend-append bs cs (full ds rest) = ap (λ es. full es rest) (append_assoc bs cs ds)
prepend-append bs cs (dry ds) = ap dry (append_assoc bs cs ds)

none_taken : (n : ℕ) → n ≡ n - length {A = ℕ} []
none_taken n = omega arith

room_left : (n : ℕ) (bs cs : List ℕ) → n - length (bs ++ cs) ≡ n - length bs - length cs
room_left n bs cs = omega (arith, length-append bs cs)

prepend_nil : (x : Filled) → prepend [] x ≡ x
prepend_nil (full cs rest) = refl
prepend_nil (dry cs) = refl

-- What more segments make of a buffer with room for `n` octets.
abbrev extend : ℕ → List (List ℕ) → Filled → Filled
extend n more (full bs rest) = full bs (rest ++ more)
extend n more (dry bs) = prepend bs (fill (n - length bs) more)

extend-prepend :
    (n : ℕ) (more : List (List ℕ)) (seg : List ℕ) (x : Filled)
    → extend n more (prepend seg x) ≡ prepend seg (extend (n - length seg) more x)
extend-prepend n more seg (full bs rest) = refl
extend-prepend n more seg (dry bs) =
    ap (λ k. prepend (seg ++ bs) (fill k more)) (room_left n seg bs)
    ∙ prepend-append seg bs (fill (n - length seg - length bs) more)

fill-append :
    (n : ℕ) (segments more : List (List ℕ))
    → fill n (segments ++ more) ≡ extend n more (fill n segments)
unfolding fill
fill-append zero segments more = refl
fill-append (suc n) [] more =
    sym (prepend_nil (fill (suc n) more)) ∙ ap (λ k. prepend [] (fill k more)) (none_taken (suc n))
fill-append (suc n) (seg ∷ segments) more = elim (Bool-cases (leb (length seg) (suc n))) [
  | inr over ↦ rw (over, fill) refl
  | inl fits ↦
      rw (fits, fill)
        (ap (prepend seg) (fill-append (suc n - length seg) segments more)
          ∙ sym (extend-prepend (suc n) more seg (fill (suc n - length seg) segments)))
]

module _ {Message : Type 0} (c : Codec Message) where
  on_payload-prepend :
      (h have bs : List ℕ) (n : ℕ) (after : After) (x : Filled)
      → on_payload c h have n after (prepend bs x) ≡ on_payload c h (have ++ bs) n after x
  on_payload-prepend h have bs n after (full cs rest) =
      ap (λ ds. decode_frame c h ds n rest) (sym (append_assoc have bs cs))
  on_payload-prepend h have bs n after (dry cs) =
      ap (λ ds. ran_dry c after Fault.truncated (record { state = payload h ds; undecodable = n }))
        (sym (append_assoc have bs cs))

  on_header-prepend :
      (have bs : List ℕ) (n : ℕ) (after : After) (x : Filled)
      → on_header c have n after (prepend bs x) ≡ on_header c (have ++ bs) n after x
  on_header-prepend have bs n after (full cs rest) =
      ap (λ ds. check_header c ds n rest after) (sym (append_assoc have bs cs))
  on_header-prepend have bs n after (dry cs) =
      ap
        (λ ds.
          ran_dry c after (if is_empty c ds then Fault.peer_closed else Fault.truncated)
            (record { state = header ds; undecodable = n }))
        (sym (append_assoc have bs cs))

  is_cancelled : Received Message → Bool
  is_cancelled (cancelled r) = true
  is_cancelled _ = false

  decode_frame-whole :
      (h body : List ℕ) (n : ℕ) (rest : List (List ℕ))
      → is_cancelled (decode_frame c h body n rest) ≡ false
  unfolding decode_frame is_cancelled
  decode_frame-whole h body n rest = ground arith

  cancelled_lem : (x : Received Message) (r : Reader) → x ≡ cancelled r → is_cancelled x ≡ false → ⊥
  unfolding is_cancelled
  cancelled_lem x r e f = absurd (cc (f, ap is_cancelled e))

  abbrev read_on : Reader → Received Message
  read_on r = cancelled r

  cancelled-injective : (q r : Reader) → read_on q ≡ cancelled r → q ≡ r
  cancelled-injective q r e = cc e

  payload_again :
      (h have : List ℕ) (n k : ℕ) (more : List (List ℕ)) (after : After) (r : Reader) (x : Filled)
      → payload_len h - length have ≡ k
      → on_payload c h have n nothing_yet x ≡ cancelled r
      → on_payload c h have n after (extend k more x) ≡ recv c r more after
  unfolding recv recv_from read_payload ran_dry
  payload_again h have n k more after r (full bs rest) room e =
      absurd (cancelled_lem _ r e (decode_frame-whole h (have ++ bs) n rest))
  payload_again h have n k more after r (dry bs) room e =
      on_payload-prepend h have bs n after (fill (k - length bs) more)
      ∙ ap (λ j. on_payload c h (have ++ bs) n after (fill j more))
          (omega (arith, room, length-append have bs))
      ∙ ap (λ q. recv c q more after)
          (cancelled-injective (record { state = payload h (have ++ bs); undecodable = n }) r e)

  -- A read that is cancelled, taken up again with what came since, is the read of all of it.
  abbrev Resumes : (List (List ℕ) → After → Received Message) → List (List ℕ) → Type 0
  Resumes go segments =
      (more : List (List ℕ)) (after : After) (r : Reader)
      → go segments nothing_yet ≡ cancelled r
      → go (segments ++ more) after ≡ recv c r more after

  read_payload-Resumes :
      (h have : List ℕ) (n : ℕ) (segments : List (List ℕ))
      → Resumes (read_payload c h have n) segments
  unfolding read_payload
  read_payload-Resumes h have n segments more after r e =
      ap (on_payload c h have n after) (fill-append (payload_len h - length have) segments more)
      ∙ payload_again h have n (payload_len h - length have) more after r
          (fill (payload_len h - length have) segments) refl e

  check_header-Resumes :
      (h : List ℕ) (n : ℕ) (segments : List (List ℕ)) → Resumes (check_header c h n) segments
  unfolding check_header
  check_header-Resumes h n segments more after r e =
      elim (Bool-cases (not (same_octets (take 4 h) c.magic))) [
        | inl foreign ↦ absurd (ground arith)
        | inr ours ↦ elim (Bool-cases (ltb (max_v1_payload c) (payload_len h))) [
          | inl large ↦ absurd (ground arith)
          | inr fits ↦
              rw (ours, fits, check_header)
                (read_payload-Resumes h [] n segments more after r (ground arith))
        ]
      ]

  header_again :
      (have : List ℕ) (n k : ℕ) (more : List (List ℕ)) (after : After) (r : Reader) (x : Filled)
      → 24 - length have ≡ k
      → on_header c have n nothing_yet x ≡ cancelled r
      → on_header c have n after (extend k more x) ≡ recv c r more after
  unfolding recv recv_from ran_dry
  header_again have n k more after r (full bs rest) room e =
      check_header-Resumes (have ++ bs) n rest more after r e
  header_again have n k more after r (dry bs) room e =
      on_header-prepend have bs n after (fill (k - length bs) more)
      ∙ ap (λ j. on_header c (have ++ bs) n after (fill j more))
          (omega (arith, room, length-append have bs))
      ∙ ap (λ q. recv c q more after)
          (cancelled-injective (record { state = header (have ++ bs); undecodable = n }) r e)

  phase-Resumes :
      (p : Phase) (n : ℕ) (segments : List (List ℕ)) → Resumes (recv_from c p n) segments
  unfolding recv_from
  phase-Resumes (header have) n segments more after r e =
      ap (on_header c have n after) (fill-append (24 - length have) segments more)
      ∙ header_again have n (24 - length have) more after r (fill (24 - length have) segments) refl
          e
  phase-Resumes (payload h have) n segments more after r e =
      read_payload-Resumes h have n segments more after r e

  -- Receiving is safe to cancel: if the socket has nothing more and the read is dropped, the next
  -- call, with what has come since, gives what one call with all of it gives, message or fault,
  -- wherever in the frame the cut falls.
  pub recv_resumes :
      (q : Reader) (segments more : List (List ℕ)) (after : After) (r : Reader)
      → recv c q segments nothing_yet ≡ cancelled r
      → recv c q (segments ++ more) after ≡ recv c r more after
  unfolding recv
  recv_resumes q segments more after r e =
      phase-Resumes q.state q.undecodable segments more after r e
