-- ===== src/Transport/Framed.antt =====
-- That the v1 reader of observer/src/transport.rs reads a stream of frames, whatever pieces it
-- comes in.
use mathlib.Core.List.{append_assoc}
use p2p_observer.Common.{
  ℕ, zero, suc, ◌+◌, ◌*◌, ◌/◌, ◌%◌, ◌^◌, min, ◌≤◌, ◌<◌, ◌≡◌, refl, sym, ap, ◌∙◌, All, true, List,
  [], ◌∷◌, ◌++◌, Option, none, some, is_some, arith, length, length-append, take, if◌then◌else◌,
  Option-cases, inl, inr,
}
use p2p_observer.Transport.{
  max_v1_payload, After, Codec, drop, header, Reader, message, failed, io_error, cancelled,
  check_header, on_header, read_payload, recv, recv_from, payload_len, decode_frame, undecodable,
}
use p2p_observer.Transport.Pieces.{
  joined, take_front, drop_front, octet_past, same_octets_refl, within, whole, fill-joined,
}

-- A command, in its twelve octets, and a payload.
pub record Framed : Type 0 where
  pub name : List ℕ
  pub body : List ℕ

-- A number in four octets, the lowest first.
abbrev pub in_octets : ℕ → List ℕ → List ℕ
in_octets n r = n % 256 ∷ n / 256 % 256 ∷ n / 65536 % 256 ∷ n / 16777216 % 256 ∷ r

length_back :
    (n : ℕ)
    → n < 2 ^ 32
    → n % 256 + 256 * (n / 256 % 256) + 65536 * (n / 65536 % 256) + 16777216 * (n / 16777216 % 256)
      ≡ n
length_back n h = omega arith

-- What the library documents: the magic and the checksum have four octets, and the limit fits 32
-- bits.
pub record CodecLaws {Message : Type 0} (c : Codec Message) : Type 0 where
  pub length-magic : length c.magic ≡ 4
  pub length-checksum : (bs : List ℕ) → length (c.checksum bs) ≡ 4
  pub max_msg_size_lt : c.max_msg_size < 2 ^ 32

module _ {Message : Type 0} (c : Codec Message) where
  abbrev opening : Framed → List ℕ
  opening x = c.magic ++ x.name

  -- The header of the v1 protocol, and the frame.
  abbrev pub frame_header : Framed → List ℕ
  frame_header x = opening x ++ in_octets (length x.body) (c.checksum x.body)

  abbrev pub frame : Framed → List ℕ
  frame x = frame_header x ++ x.body

  abbrev pub frames : List Framed → List ℕ → List ℕ
  frames [] rest = rest
  frames (x ∷ xs) rest = frame x ++ frames xs rest

  -- What the library makes of a frame, or its octets as they are if it refuses them.
  abbrev pub reading : Framed → Option Message
  reading x = elim (c.deserialize (frame x)) [
    | some m ↦ some m
    | none ↦ undecodable c x.name x.body
  ]

  -- The number of frames that were refused.
  abbrev pub skipped : Framed → ℕ → ℕ
  skipped x n = if is_some (c.deserialize (frame x)) then n else min (n + 1) 4294967295

  -- A frame within the limit, with a command that can be read.
  abbrev pub IsFrame : Framed → Type 0
  IsFrame x =
      (length x.name ≡ 12) × (length x.body ≤ max_v1_payload c) × (is_some (reading x) ≡ true)

  abbrev between : ℕ → Reader
  between n = record { state = header []; undecodable = n }

  -- What so many calls of `recv` give: the messages, the reader, and what it has not read.
  unfoldable pub recv_all :
      ℕ → Reader → List (List ℕ) → After → Option (List Message × Reader × List (List ℕ))
  recv_all zero r segments after = some ([], r, segments)
  recv_all (suc n) r segments after = elim (recv c r segments after) [
    | message m q left ↦ elim (recv_all n q left after) [
      | none ↦ none
      | some (ms, last, rest) ↦ some (m ∷ ms, last, rest)
    ]
    | failed fault q ↦ none
    | io_error q ↦ none
    | cancelled q ↦ none
  ]

  -- The messages of the frames, and the number refused with them.
  abbrev pub readings : List Framed → List Message
  readings [] = []
  readings (x ∷ xs) = elim (reading x) [ none ↦ readings xs | some m ↦ m ∷ readings xs ]

  abbrev pub all_skipped : List Framed → ℕ → ℕ
  all_skipped [] n = n
  all_skipped (x ∷ xs) n = all_skipped xs (skipped x n)

  module _ (l : CodecLaws c) where
    length-opening : (x : Framed) → length x.name ≡ 12 → length (opening x) ≡ 16
    length-opening x h = omega (arith, h, l.length-magic, length-append c.magic x.name)

    length-frame_header : (x : Framed) → length x.name ≡ 12 → length (frame_header x) ≡ 24
    length-frame_header x h =
        let sum = c.checksum x.body in
        omega (
          arith,
          length-opening x h,
          l.length-checksum x.body,
          length-append (opening x) (in_octets (length x.body) sum),
        )

    payload_len-frame_header :
        (x : Framed) → IsFrame x → payload_len (frame_header x) ≡ length x.body
    unfolding payload_len
    payload_len-frame_header x (h, fits, known) =
        let tail = in_octets (length x.body) (c.checksum x.body) in
        rw
          (
            octet_past (opening x) tail 0 16 (omega (arith, length-opening x h)),
            octet_past (opening x) tail 1 17 (omega (arith, length-opening x h)),
            octet_past (opening x) tail 2 18 (omega (arith, length-opening x h)),
            octet_past (opening x) tail 3 19 (omega (arith, length-opening x h)),
          )
          (length_back (length x.body) (omega (arith, fits, l.max_msg_size_lt)))

    take-frame_header : (x : Framed) → take 4 (frame_header x) ≡ c.magic
    take-frame_header x =
        let tail = in_octets (length x.body) (c.checksum x.body) in
        ap (take 4) (append_assoc c.magic x.name tail)
        ∙ take_front 4 c.magic (x.name ++ tail) l.length-magic

    name_back : (x : Framed) → length x.name ≡ 12 → take 12 (drop 4 (frame_header x)) ≡ x.name
    name_back x h =
        let tail = in_octets (length x.body) (c.checksum x.body) in
        ap (λ bs. take 12 (drop 4 bs)) (append_assoc c.magic x.name tail)
        ∙ ap (take 12) (drop_front 4 c.magic (x.name ++ tail) l.length-magic)
        ∙ take_front 12 x.name tail h

    drop-frame_header :
        (x : Framed) → length x.name ≡ 12 → drop 20 (frame_header x) ≡ c.checksum x.body
    drop-frame_header x h =
        let four = in_octets (length x.body) [] in
        ap (drop 20) (sym (append_assoc (opening x) four (c.checksum x.body)))
        ∙ drop_front 20 (opening x ++ four) (c.checksum x.body)
            (omega (arith, length-opening x h, length-append (opening x) four))

    decode_frame-reading :
        (x : Framed) (m : Message) (n : ℕ) (left : List (List ℕ))
        → length x.name ≡ 12
        → reading x ≡ some m
        → decode_frame c (frame_header x) x.body n left ≡ message m (between (skipped x n)) left
    unfolding decode_frame
    decode_frame-reading x m n left h known = elim (Option-cases (c.deserialize (frame x))) [
      | inl refused ↦
          rw
            (
              drop-frame_header x h,
              same_octets_refl (take 4 (c.checksum x.body)),
              refused,
              name_back x h,
              rw (refused, reading) at known,
            )
            refl
      | inr (m', taken) ↦
          rw (drop-frame_header x h, same_octets_refl (take 4 (c.checksum x.body)), taken)
            (ap (λ a. message a (between n) left) (cc (rw (taken, reading) at known)))
    ]

    check_header-frame :
        (x : Framed) (m : Message) (n : ℕ) (segments : List (List ℕ)) (after : After)
        (rest : List ℕ)
        → IsFrame x
        → reading x ≡ some m
        → joined segments ≡ x.body ++ rest
        → (left : List (List ℕ)) × (check_header c (frame_header x) n segments after
            ≡ message m (between (skipped x n)) left)
          × (joined left ≡ rest)
    unfolding check_header read_payload
    check_header-frame x m n segments after rest f known e =
        let r = fill-joined (length x.body) segments x.body rest e refl in
        (
          r.0,
          rw
              (
                take-frame_header x,
                same_octets_refl c.magic,
                payload_len-frame_header x f,
                within (length x.body) (max_v1_payload c) f.1,
                whole (length x.body),
                r.1,
              )
              (decode_frame-reading x m n r.0 f.0 known),
          r.2,
        )

    recv-frame :
        (x : Framed) (m : Message) (n : ℕ) (segments : List (List ℕ)) (after : After)
        (rest : List ℕ)
        → IsFrame x
        → reading x ≡ some m
        → joined segments ≡ frame x ++ rest
        → (left : List (List ℕ)) × (recv c (between n) segments after
            ≡ message m (between (skipped x n)) left)
          × (joined left ≡ rest)
    unfolding recv recv_from
    recv-frame x m n segments after rest f known e =
        let h =
          fill-joined 24 segments (frame_header x) (x.body ++ rest)
            (e ∙ append_assoc (frame_header x) x.body rest) (length-frame_header x f.0) in
        let b = check_header-frame x m n h.0 after rest f known h.2 in
        (b.0, ap (on_header c [] n after) h.1 ∙ b.1, b.2)

    -- A stream of frames, each within the limit and with a command that can be read, in a network
    -- whose magic and checksums have four octets, is read as their messages, in order, whatever
    -- pieces it comes in: each as the library's decoder takes it, or with its octets as they are,
    -- and counted, if the decoder refuses it. Nothing of what follows the frames is lost.
    pub recv_all-frames :
        (xs : List Framed) (n : ℕ) (segments : List (List ℕ)) (after : After) (rest : List ℕ)
        → All IsFrame xs
        → joined segments ≡ frames xs rest
        → (left : List (List ℕ)) × (recv_all (length xs) (between n) segments after
            ≡ some (readings xs, between (all_skipped xs n), left))
          × (joined left ≡ rest)
    unfolding recv_all
    recv_all-frames [] n segments after rest f e = (segments, refl, e)
    recv_all-frames (x ∷ xs) n segments after rest f e = elim (Option-cases (reading x)) [
      | inl unknown ↦ absurd (cc (f.0.2, ap is_some unknown))
      | inr (m, known) ↦
          let first = recv-frame x m n segments after (frames xs rest) f.0 known e in
          let others = recv_all-frames xs (skipped x n) first.0 after rest f.1 first.2 in
          (others.0, rw (first.1, others.1, known, recv_all, readings) refl, others.2)
    ]
