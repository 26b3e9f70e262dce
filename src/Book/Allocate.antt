-- ===== src/Book/Allocate.antt =====
-- `allocate` of observer/src/addresses/book.rs: the dial budget, shared between three classes by
-- the credit that each has earned.
use p2p_observer.Common.{
  ℕ, zero, suc, ◌+◌, ◌≤◌, ◌<◌, ◌≡◌, min, Option, none, some, leb, if◌then◌else◌, arith,
  Option-cases, inl, inr,
}
use p2p_observer.Float.{F32}
use p2p_observer.Book.State.{Share, share_unknown, share_was_good, share_bad, Shares, at, put}

-- 70, 20 and 10.
abbrev pub weight : Share → ℕ
weight share_unknown = 70
weight share_was_good = 20
weight share_bad = 10

module _ (f : F32) where
  abbrev pub credit_cap : ℕ
  credit_cap = f.of_nat 4

  unfoldable pub earn : ℕ → Share → ℕ → ℕ
  earn budget i credit =
      let total = f.fadd (f.fadd (f.of_nat 70) (f.of_nat 20)) (f.of_nat 10) in
      f.fmin (f.fadd credit (f.fmul (f.fdiv (f.of_nat (weight i)) total) (f.of_nat budget)))
        credit_cap

  unfoldable pub spend : ℕ → ℕ
  spend credit = f.fmax (f.fsub credit (f.of_nat 1)) (f.fneg credit_cap)

  -- One round of the search for the class that is owed most.
  unfoldable pub consider : Shares ℕ → Shares ℕ → Shares ℕ → Share → Option Share → Option Share
  consider credit available taken i best =
      if leb (at available i) (at taken i) then best else elim best [
        | none ↦ some i
        | some b ↦ (if f.flt (at credit b) (at credit i) then some i else some b)
      ]

  unfoldable pub most_owed : Shares ℕ → Shares ℕ → Shares ℕ → Option Share
  unfolding consider
  most_owed credit available taken = consider credit available taken share_bad (
      consider credit available taken share_was_good
        (consider credit available taken share_unknown none))

  -- `for _ in 0..budget`: the credit left, and the slots of each class.
  unfoldable pub hand_out : ℕ → Shares ℕ → Shares ℕ → Shares ℕ → Shares ℕ × Shares ℕ
  hand_out zero available credit taken = (credit, taken)
  hand_out (suc rounds) available credit taken = elim (most_owed credit available taken) [
    | none ↦ (credit, taken)
    | some i ↦
        hand_out rounds available (put credit i (spend (at credit i)))
          (put taken i (at taken i + 1))
  ]

  unfoldable pub allocate : ℕ → Shares ℕ → Shares ℕ → Shares ℕ × Shares ℕ
  allocate budget available credit =
      hand_out budget available
        (record {
          of_unknown = earn budget share_unknown credit.of_unknown;
          of_was_good = earn budget share_was_good credit.of_was_good;
          of_bad = earn budget share_bad credit.of_bad;
        })
        (record { of_unknown = 0; of_was_good = 0; of_bad = 0 })

  abbrev pub total_of : Shares ℕ → ℕ
  total_of s = s.of_unknown + s.of_was_good + s.of_bad

  abbrev pub Fits : Shares ℕ → Shares ℕ → Type 0
  Fits taken available =
      (taken.of_unknown ≤ available.of_unknown)
      × (taken.of_was_good ≤ available.of_was_good)
      × (taken.of_bad ≤ available.of_bad)

  most_owed-none :
      (credit available taken : Shares ℕ)
      → Fits taken available
      → most_owed credit available taken ≡ none
      → total_of taken ≡ total_of available
  unfolding most_owed
  most_owed-none credit available taken h e = ground arith

  most_owed-some :
      (credit available taken : Shares ℕ) (i : Share)
      → most_owed credit available taken ≡ some i
      → at taken i < at available i
  unfolding most_owed
  most_owed-some credit available taken share_unknown e = ground arith
  most_owed-some credit available taken share_was_good e = ground arith
  most_owed-some credit available taken share_bad e = ground arith

  -- What a run of the loop hands out: never more than a class has, and in all as much as the rounds
  -- and the candidates allow.
  abbrev pub Shared : ℕ → Shares ℕ → Shares ℕ → Shares ℕ → Type 0
  Shared rounds available taken result =
      Fits result available × (total_of result ≡ min (total_of taken + rounds) (total_of available))

  put-Fits :
      (available taken : Shares ℕ) (i : Share)
      → at taken i < at available i
      → Fits taken available
      → Fits (put taken i (at taken i + 1)) available
        × (total_of (put taken i (at taken i + 1)) ≡ total_of taken + 1)
  put-Fits available taken share_unknown h k = omega arith
  put-Fits available taken share_was_good h k = omega arith
  put-Fits available taken share_bad h k = omega arith

  hand_out-Shared :
      (rounds : ℕ) (available credit taken : Shares ℕ)
      → Fits taken available
      → Shared rounds available taken (hand_out rounds available credit taken).1
  unfolding hand_out
  hand_out-Shared zero available credit taken h = omega arith
  hand_out-Shared (suc rounds) available credit taken h =
      elim (Option-cases (most_owed credit available taken)) [
        | inl e ↦ rw (e, hand_out) (h, omega (arith, most_owed-none credit available taken h e))
        | inr (i, e) ↦
            let k = put-Fits available taken i (most_owed-some credit available taken i e) h in
            let ih =
              hand_out-Shared rounds available (put credit i (spend (at credit i)))
                (put taken i (at taken i + 1)) k.0 in
            rw (e, hand_out) (ih.0, omega arith)
      ]

  -- Whatever the credits and the float operations, no class gets more dials than it has candidates,
  -- and no dial is wasted: as many are handed out as the budget and the candidates allow.
  pub allocate-Shared :
      (budget : ℕ) (available credit : Shares ℕ)
      → Fits (allocate budget available credit).1 available
        × (total_of (allocate budget available credit).1 ≡ min budget (total_of available))
  unfolding allocate
  allocate-Shared budget available credit =
      let s =
        hand_out-Shared budget available _ (record { of_unknown = 0; of_was_good = 0; of_bad = 0 })
          (omega arith) in
      (s.0, omega arith)
