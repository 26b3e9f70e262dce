-- ===== src/Session/Lenient/Frames.antt =====
-- What `parse_addrv2_leniently` of observer/src/protocol.rs keeps of a payload.
use p2p_observer.Common.{
  ℕ, zero, suc, ◌+◌, ◌*◌, ◌/◌, ◌%◌, ◌^◌, min, ◌≤◌, ◌<◌, ◌≡◌, refl, ap, ◌∙◌, List, [], ◌∷◌, ◌++◌,
  some, length, length-append, arith, All, Option-cases, inl, inr,
}
use p2p_observer.Session.Messages.{AddrV2Message}
use p2p_observer.Session.Lenient.{
  Wire, Frame, read_frame, entry_of, read_entries, parse_addrv2_leniently, split, read_u32, read_u8,
  read_u16, swap_bytes,
}

-- What the library documents of compact sizes: they are read back, and take an octet at least.
pub record WireLaws (w : Wire) : Type 0 where
  pub read-emit :
      (n : ℕ) (r : List ℕ)
      → n < 2 ^ 64
      → w.read_compact_size (w.emit_compact_size n ++ r) ≡ some (n, r)
  pub length-emit : (n : ℕ) → 1 ≤ length (w.emit_compact_size n)

-- The values fit their fields.
abbrev pub Fits : Frame → Type 0
Fits x = (x.time < 2 ^ 32) × (x.services < 2 ^ 64) × (length x.addr < 2 ^ 64) × (x.port < 2 ^ 16)

module _ (w : Wire) where
  -- BIP155, before what follows: the time, the services, the network, the length and octets of the
  -- address, and the port with its high octet first.
  abbrev pub frame_port : Frame → List ℕ → List ℕ
  frame_port x r = x.port / 256 ∷ x.port % 256 ∷ r

  abbrev pub frame_addr : Frame → List ℕ → List ℕ
  frame_addr x r = x.addr ++ frame_port x r

  abbrev pub frame_network : Frame → List ℕ → List ℕ
  frame_network x r = x.network ∷ (w.emit_compact_size (length x.addr) ++ frame_addr x r)

  abbrev pub frame : Frame → List ℕ → List ℕ
  frame x r =
      x.time % 256
      ∷ x.time / 256 % 256
      ∷ x.time / 65536 % 256
      ∷ x.time / 16777216
      ∷ (w.emit_compact_size x.services ++ frame_network x r)

  abbrev pub frames : List Frame → List ℕ → List ℕ
  frames [] r = r
  frames (x ∷ xs) r = frame x (frames xs r)

  -- The entries whose address the decoder takes, in order.
  abbrev pub entries : List Frame → List AddrV2Message
  entries [] = []
  entries (x ∷ xs) = entry_of w x ++ entries xs

  split-append : (xs r : List ℕ) → split (length xs) (xs ++ r) ≡ some (xs, r)
  unfolding split
  split-append [] r = refl
  split-append (x ∷ xs) r = ground (arith, split-append xs r)

  module _ (l : WireLaws w) where
    time_back :
        (t : ℕ)
        → t % 256 + 256 * (t / 256 % 256) + 65536 * (t / 65536 % 256) + 16777216 * (t / 16777216)
          ≡ t
    time_back t = omega arith

    port_back : (p : ℕ) → p < 2 ^ 16 → swap_bytes (p / 256 + 256 * (p % 256)) ≡ p
    port_back p h = omega arith

    read_frame-frame : (x : Frame) (r : List ℕ) → Fits x → read_frame w (frame x r) ≡ some (x, r)
    unfolding read_frame read_u32 read_u8 read_u16
    read_frame-frame x r (ht, hs, ha, hp) =
        rw
          (
            l.read-emit x.services (frame_network x r) hs,
            l.read-emit (length x.addr) (frame_addr x r) ha,
            split-append x.addr (frame_port x r),
            time_back x.time,
            port_back x.port hp,
          )
          refl

    length-frames : (xs : List Frame) (r : List ℕ) → 9 * length xs ≤ length (frames xs r)
    length-frames [] r = omega arith
    length-frames (x ∷ xs) r =
        let rest = frames xs r in
        omega (
          arith,
          length-frames xs r,
          length-append (w.emit_compact_size x.services) (frame_network x rest),
          length-append (w.emit_compact_size (length x.addr)) (frame_addr x rest),
          length-append x.addr (frame_port x rest),
          l.length-emit x.services,
          l.length-emit (length x.addr),
        )

    count_back : (xs : List Frame) (n : ℕ) → 9 * length xs ≤ n → min (length xs) (n / 9) ≡ length xs
    count_back xs n h = omega arith

    frames_read :
        (xs : List Frame) (r : List ℕ)
        → All Fits xs
        → read_entries w (length xs) (frames xs r) ≡ entries xs
    unfolding read_entries
    frames_read [] r h = refl
    frames_read (x ∷ xs) r h =
        rw (read_frame-frame x (frames xs r) h.0, read_entries)
          (ap (λ es. entry_of w x ++ es) (frames_read xs r h.1))

    -- From a payload that declares as many entries as it frames, whatever follows them, each entry
    -- is read that the library's decoder takes, in order, and those that it refuses are stepped
    -- over. What is reported as received is the number declared.
    pub parse_addrv2_leniently-frames :
        (xs : List Frame) (r : List ℕ)
        → All Fits xs
        → length xs < 2 ^ 64
        → parse_addrv2_leniently w (w.emit_compact_size (length xs) ++ frames xs r)
          ≡ (length xs, entries xs)
    unfolding parse_addrv2_leniently
    parse_addrv2_leniently-frames xs r h lt =
        let size = w.emit_compact_size (length xs) in
        let count =
          count_back xs (length (size ++ frames xs r))
            (omega (arith, length-append size (frames xs r), length-frames xs r)) in
        rw (l.read-emit (length xs) (frames xs r) lt, parse_addrv2_leniently)
          (ap (λ n. (n, read_entries w n (frames xs r))) count
            ∙ ap (λ es. (length xs, es)) (frames_read xs r h))

  entries-le : (n : ℕ) (r : List ℕ) → length (read_entries w n r) ≤ n
  unfolding read_entries entry_of
  entries-le zero r = omega arith
  entries-le (suc n) r = elim (Option-cases (read_frame w r)) [
    | inl e ↦ ground arith
    | inr ((x, rest), e) ↦
        elim (Option-cases
          (w.deserialize (x.network ∷ w.emit_compact_size (length x.addr) ++ x.addr))) [
            | inl d ↦ ground (arith, entries-le n rest)
            | inr (a, d) ↦ ground (arith, entries-le n rest)
          ]
  ]

  -- Whatever a peer puts into the payload, what is reported as received is at most a ninth of its
  -- octets, and no more entries are kept than that.
  pub parse_addrv2_leniently_bounds :
      (payload : List ℕ)
      → (9 * (parse_addrv2_leniently w payload).0 ≤ length payload)
        × (length (parse_addrv2_leniently w payload).1 ≤ (parse_addrv2_leniently w payload).0)
  unfolding parse_addrv2_leniently
  parse_addrv2_leniently_bounds payload = elim (Option-cases (w.read_compact_size payload)) [
    | inl e ↦ (ground arith, ground arith)
    | inr ((declared, r), e) ↦
        let count = min declared (length payload / 9) in
        (ground arith, ground (arith, entries-le count r))
  ]
