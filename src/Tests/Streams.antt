-- ===== src/Tests/Streams.antt =====
-- Frames that are read in pieces.
use p2p_observer.Common.{
  take, ◌==◌, if◌then◌else◌, ℕ, ◌≡◌, refl, All, List, [], ◌∷◌, ◌++◌, none, some, arith,
}
use p2p_observer.PeerAddr.{octet}
use p2p_observer.Transport.{
  Codec, Reader, cancelled, closed, drop, header, new_reader, nothing_yet, recv, undecodable,
}
use p2p_observer.Transport.Pieces.{joined}
use p2p_observer.Transport.Framed.{
  CodecLaws, Framed, IsFrame, all_skipped, frames, readings, recv_all, recv_all-frames,
}
use p2p_observer.Transport.Resumed.{recv_resumes}

-- Frames with any checksum, of octets as they stand; payloads of three octets are refused.
abbrev raw : Codec (List ℕ)
raw = record {
  magic = 1 ∷ 2 ∷ 3 ∷ 4 ∷ [];
  max_msg_size = 34;
  checksum = λ bs. 0 ∷ 0 ∷ 0 ∷ 0 ∷ [];
  deserialize = λ bs. if octet bs 16 == 3 then none else some bs;
  command = λ name. some name;
  unknown = λ name bs. bs;
}

-- Half of a header, and the rest of the frame in two pieces.
abbrev first_half : List (List ℕ)
first_half = (1 ∷ 2 ∷ 3 ∷ 4 ∷ 112 ∷ 0 ∷ 0 ∷ 0 ∷ 0 ∷ 0 ∷ []) ∷ []

abbrev second_half : List (List ℕ)
second_half = (0 ∷ 0 ∷ 0 ∷ 0 ∷ 0 ∷ 0 ∷ 2 ∷ 0 ∷ 0 ∷ 0 ∷ 0 ∷ 0 ∷ 0 ∷ 0 ∷ 7 ∷ []) ∷ (8 ∷ 9 ∷ []) ∷ []

abbrev halfway : Reader
halfway = record { state = header (1 ∷ 2 ∷ 3 ∷ 4 ∷ 112 ∷ 0 ∷ 0 ∷ 0 ∷ 0 ∷ 0 ∷ []); undecodable = 0 }

first_half_cancelled : recv raw new_reader first_half nothing_yet ≡ cancelled halfway
unfolding recv new_reader
first_half_cancelled = refl

recv_resumes_example :
    recv raw new_reader (first_half ++ second_half) closed ≡ recv raw halfway second_half closed
recv_resumes_example =
    recv_resumes raw new_reader first_half second_half closed halfway first_half_cancelled

raw_laws : CodecLaws raw
raw_laws = record {
  length-magic = refl;
  length-checksum = λ bs. refl;
  max_msg_size_lt = omega arith;
}

abbrev twelve : List ℕ
twelve = 112 ∷ 105 ∷ 110 ∷ 103 ∷ 0 ∷ 0 ∷ 0 ∷ 0 ∷ 0 ∷ 0 ∷ 0 ∷ 0 ∷ []

-- The second frame is refused, and goes up as it is.
abbrev three_frames : List Framed
three_frames =
    record { name = twelve; body = 1 ∷ 2 ∷ [] }
    ∷ record { name = twelve; body = 1 ∷ 2 ∷ 3 ∷ [] }
    ∷ record { name = twelve; body = [] }
    ∷ []

abbrev stream : List ℕ
stream = frames raw three_frames (5 ∷ 6 ∷ [])

three_frames-IsFrame : All (IsFrame raw) three_frames
unfolding undecodable
three_frames-IsFrame =
    ((refl, omega arith, refl), ((refl, omega arith, refl), ((refl, omega arith, refl), tt)))

abbrev pieces : List (List ℕ)
pieces = take 10 stream ∷ take 23 (drop 10 stream) ∷ drop 33 stream ∷ []

recv_all-frames_example :
    (left : List (List ℕ)) × (recv_all raw 3 new_reader pieces closed
      ≡ some (
        readings raw three_frames,
        record { state = header []; undecodable = all_skipped raw three_frames 0 },
        left,
      ))
    × (joined left ≡ 5 ∷ 6 ∷ [])
unfolding new_reader
recv_all-frames_example =
    recv_all-frames raw raw_laws three_frames 0 pieces closed (5 ∷ 6 ∷ []) three_frames-IsFrame refl
