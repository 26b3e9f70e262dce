-- ===== src/Session/Stats/Claims.antt =====
-- How often a peer can answer a ping of observer/src/protocol.rs.
use p2p_observer.Common.{
  ℕ, suc, ◌+◌, ◌≤◌, ◌≡◌, Bool, true, false, List, [], ◌∷◌, ◌++◌, some, arith, Option-cases, inl,
  inr, if◌then◌else◌, ◌==◌,
}
use p2p_observer.Session.Stats.{ConnectionStats, claim, claim_pong, record_ping, push_back}

-- What changes the pings that are out: one that we send, and a pong at some time.
pub data Event : Type 0 where
  ping : ℕ → Event
  pong : ℕ → ℕ → Event

unfoldable pub play : List Event → ConnectionStats → ConnectionStats × List Bool
play [] s = (s, [])
play (ping nonce ∷ es) s = play es (record_ping nonce s)
play (pong now nonce ∷ es) s =
    let (s', answered) = claim_pong now nonce s in
    let (s'', answers) = play es s' in (s'', answered ∷ answers)

abbrev pub count : ℕ → List ℕ → ℕ
count n [] = 0
count n (x ∷ xs) = if x == n then suc (count n xs) else count n xs

-- The pings that were sent with a nonce.
abbrev pub pings : ℕ → List Event → ℕ
pings n [] = 0
pings n (ping x ∷ es) = if x == n then suc (pings n es) else pings n es
pings n (pong now x ∷ es) = pings n es

-- The pongs with a nonce that were taken for an answer.
abbrev pub answers : ℕ → List Event → List Bool → ℕ
answers n [] bs = 0
answers n (ping x ∷ es) bs = answers n es bs
answers n (pong now x ∷ es) [] = 0
answers n (pong now x ∷ es) (false ∷ bs) = answers n es bs
answers n (pong now x ∷ es) (true ∷ bs) = if x == n then suc (answers n es bs) else answers n es bs

count-append : (n x : ℕ) (xs : List ℕ) → count n (xs ++ x ∷ []) ≡ count n xs + count n (x ∷ [])
count-append n x [] = ground arith
count-append n x (y ∷ ys) = ground (arith, count-append n x ys)

count-push_back :
    (n limit x : ℕ) (xs : List ℕ) → count n (push_back limit x xs) ≤ count n xs + count n (x ∷ [])
unfolding push_back
count-push_back n limit x [] = ground arith
count-push_back n limit x (y ∷ ys) = ground (arith, count-append n x ys)

count-claim :
    (n nonce : ℕ) (xs ys : List ℕ)
    → claim nonce xs ≡ some ys
    → count n ys + count n (nonce ∷ []) ≡ count n xs
unfolding claim
count-claim n nonce [] ys h = absurd (cc)
count-claim n nonce (x ∷ xs) ys h = elim (Option-cases (claim nonce xs)) [
  | inl e ↦ ground arith
  | inr (rest, e) ↦ ground (arith, count-claim n nonce xs rest e)
]

-- Over any sequence of pings sent and pongs received, from any state, the pongs with a nonce that
-- are taken for an answer are at most the pings sent with it and those that were out before.
pub answers-play :
    (n : ℕ) (es : List Event) (s : ConnectionStats)
    → answers n es (play es s).1 ≤ pings n es + count n s.outstanding_pings
unfolding play record_ping claim_pong
answers-play n [] s = omega arith
answers-play n (ping x ∷ es) s =
    ground (arith, answers-play n es (record_ping x s), count-push_back n 10 x s.outstanding_pings)
answers-play n (pong now x ∷ es) s = elim (Option-cases (claim x s.outstanding_pings)) [
  | inl e ↦ ground (arith, answers-play n es (claim_pong now x s).0)
  | inr (rest, e) ↦
      ground (
        arith,
        answers-play n es (claim_pong now x s).0,
        count-claim n x s.outstanding_pings rest e,
      )
]
