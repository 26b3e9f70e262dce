-- ===== src/Session/Gossip/Learnt.antt =====
-- How many addresses a peer of observer/src/protocol.rs can teach the address manager.
use mathlib.Core.List.{append-nil}
use p2p_observer.Common.{
  ℕ, ◌+◌, ◌-◌, ◌*◌, ◌^◌, ◌≤◌, ◌≡◌, All, refl, ap, ◌∙◌, Bool, true, false, List, [], ◌∷◌, ◌++◌,
  arith, length, length-append, take, if◌then◌else◌, Bool-cases, inl, inr,
}
use p2p_observer.Book.Entry.{Gossiped}
use p2p_observer.Session.Bucket.{F64, F64Laws, addr_burst, addr_rate, refill, Bucket}
use p2p_observer.Session.Bucket.Spent.{
  IsTime, addr-le, cancel_le, elapsed, mul_le, plus_times, value-charge, value-refill-addr,
}
use p2p_observer.Session.Gossip.{
  announced, hand_over, is_self_announcement, limit, offer_gossip, take_solicited,
}
use p2p_observer.Session.Invariant.{Holds, on_ok, and_then-Holds, imp-Holds}
use p2p_observer.Session.Messages.{address_announcement, gossiped, published}
use p2p_observer.Session.State.{Connection, emit_event}
use p2p_observer.Session.Gossip.Totals.{
  Offer, learnt, replies, reply_in, times, spared, as_number, offer_all, learnt-append,
  replies-append, spared-append, length-take-le, spared_reply, count_reply,
}

module _ {Header : Type 0} (f : F64) (l : F64Laws f) where
  -- What was learnt costs tokens, except for the addresses of replies; and the flag says whether
  -- there can be a reply more.
  abbrev Paid : ℕ → ℕ → Connection Header → Type 0
  Paid budget most s =
      (10000000000000 * (learnt s.effects * l.one + l.value s.addr_bucket.tokens)
        ≤ budget + 10000000000000 * (spared (replies s.effects) * l.one))
      × (length (replies s.effects) + as_number s.getaddr_outstanding ≤ most)

  -- What `take_solicited` leaves of a state.
  abbrev Took : Connection Header → Bool → Connection Header → Type 0
  Took s solicited t =
      (t.effects ≡ s.effects)
      × (t.addr_bucket ≡ s.addr_bucket)
      × (as_number solicited + as_number t.getaddr_outstanding ≤ as_number s.getaddr_outstanding)

  take_solicited-Took :
      (received : ℕ) (parsed : List Gossiped) (s : Connection Header)
      → Holds (Took s) (λ _ _. ⊥) (take_solicited f received parsed s)
  unfolding take_solicited
  take_solicited-Took received parsed s =
      elim (Bool-cases (is_self_announcement s.addr received parsed)) [
        | inl e ↦ rw (e, take_solicited) (on_ok (refl, refl, omega arith))
        | inr e ↦ rw (e, take_solicited) (on_ok (refl, refl, omega arith))
      ]

  -- What `limit` leaves of a state.
  abbrev Limited : Bool → ℕ → Connection Header → ℕ → Connection Header → Type 0
  Limited solicited n s limited t =
      (t.effects ≡ s.effects)
      × (t.getaddr_outstanding ≡ s.getaddr_outstanding)
      × (t.addr_bucket.updated ≡ s.addr_bucket.updated)
      × (l.value t.addr_bucket.tokens + (n - limited) * l.one
          ≤ l.value s.addr_bucket.tokens + (if solicited then n else 0) * l.one)

  limit-Limited :
      (solicited : Bool) (n : ℕ) (s : Connection Header)
      → l.value s.addr_bucket.tokens ≤ 2 ^ 53 * l.one
      → Holds (Limited solicited n s) (λ _ _. ⊥) (limit f solicited n s)
  unfolding limit
  limit-Limited true n s h =
      on_ok (refl, refl, refl, omega (arith, mul_le (n - 0) n l.one (omega arith)))
  limit-Limited false n s h =
      on_ok (refl, refl, refl, omega (arith, value-charge f l n s.addr_bucket h))

  -- What `hand_over` leaves of a state.
  abbrev Handed : List Gossiped → Connection Header → Unit {0} → Connection Header → Type 0
  Handed gs s _ t =
      (learnt t.effects ≡ learnt s.effects + length gs)
      × (replies t.effects ≡ replies s.effects)
      × (t.getaddr_outstanding ≡ s.getaddr_outstanding)
      × (t.addr_bucket ≡ s.addr_bucket)

  hand_over-Handed :
      (gs : List Gossiped) (s : Connection Header)
      → Holds (Handed gs s) (λ _ _. ⊥) (hand_over f gs s)
  unfolding hand_over
  hand_over-Handed [] s = on_ok (omega arith, refl, refl, refl)
  hand_over-Handed (g ∷ gs) s = on_ok (
    omega (arith, learnt-append s.effects (gossiped (g ∷ gs) ∷ [])),
    replies-append s.effects (gossiped (g ∷ gs) ∷ []) ∙ append-nil (replies s.effects),
    refl,
    refl,
  )

  offer_gossip-Paid :
      (o : Offer) (budget most : ℕ) (s : Connection Header)
      → IsTime o.now
      → Paid budget most s
      → Holds
          (λ _ t.
            Paid (budget + (1000000000 * (o.now - s.addr_bucket.updated) + 10000) * l.one) most t
            × (t.addr_bucket.updated ≡ o.now))
          (λ _ _. ⊥)
          (offer_gossip f o.now o.message o.received o.parsed s)
  unfolding offer_gossip emit_event refill
  offer_gossip-Paid o budget most s in_time h =
      and_then-Holds (take_solicited-Took o.received o.parsed s) λ solicited s1 h1.
        let full = refill f (addr_rate f) (addr_burst f) o.now s1.addr_bucket in
        let s2 = record s1 { addr_bucket = full } in
        and_then-Holds
          (limit-Limited solicited (length o.parsed) s2 (addr-le f l o.now s1.addr_bucket))
          λ limited s3 h3.
            let a = announced o.message o.received o.parsed solicited limited full.tokens in
            let s4 = record s3 {
              effects = s3.effects ++ published (address_announcement a) ∷ [];
            } in
            let kept = take (length o.parsed - limited) o.parsed in
            imp-Holds (hand_over-Handed kept s4) λ _ t h4.
              let new = reply_in (address_announcement a) ++ [] in
              let was : s3.effects ≡ s.effects = h3.0 ∙ h1.0 in
              let told : replies t.effects ≡ replies s.effects ++ new =
                h4.1
                ∙ replies-append s3.effects (published (address_announcement a) ∷ [])
                ∙ ap (λ es. replies es ++ new) was in
              let gain : learnt t.effects ≡ learnt s.effects + length kept = omega (
                arith,
                h4.0,
                learnt-append s3.effects (published (address_announcement a) ∷ []),
                ap learnt was,
              ) in
              let free = if solicited then length o.parsed else 0 in
              let exempt : spared (replies t.effects) ≡ spared (replies s.effects) + free =
                ap spared told
                ∙ spared-append (replies s.effects) new
                ∙ ap (λ k. spared (replies s.effects) + k)
                    (spared_reply solicited o.message o.received limited full.tokens o.parsed) in
              (
                (
                  omega (
                    arith,
                    h.0,
                    h3.3,
                    ap (λ (b : Bucket). l.value b.tokens) h4.3,
                    ap (λ k. k * l.one) gain,
                    ap (λ k. k * l.one) exempt,
                    mul_le (length kept) (length o.parsed - limited) l.one
                        (length-take-le _ o.parsed),
                    plus_times (learnt s.effects) (length kept) l.one,
                    plus_times (spared (replies s.effects)) free l.one,
                    value-refill-addr f l o.now s1.addr_bucket in_time,
                    plus_times (1000000000 * (o.now - s.addr_bucket.updated)) 10000 l.one,
                    ap (λ (b : Bucket). l.value b.tokens) h1.1,
                    ap (λ (b : Bucket). (o.now - b.updated) * l.one) h1.1,
                  ),
                  omega (
                    arith,
                    h.1,
                    h1.2,
                    ap length told,
                    length-append (replies s.effects) new,
                    count_reply solicited o.message o.received limited full.tokens o.parsed,
                    ap as_number h4.2,
                    ap as_number h3.1,
                  ),
                ),
                ap (λ (b : Bucket). b.updated) h4.3 ∙ h3.2,
              )

  offer_all-Paid :
      (os : List Offer) (budget most : ℕ) (s : Connection Header)
      → All IsTime (times os)
      → Paid budget most s
      → Holds
          (λ _ t.
            Paid
              (budget
                + (1000000000 * elapsed s.addr_bucket.updated (times os) + 10000 * length os)
                  * l.one)
              most
              t)
          (λ _ _. ⊥)
          (offer_all f os s)
  unfolding offer_all
  offer_all-Paid [] budget most s k h = on_ok (omega (arith, h.0), h.1)
  offer_all-Paid (o ∷ os) budget most s k h =
      let spent = (1000000000 * (o.now - s.addr_bucket.updated) + 10000) * l.one in
      and_then-Holds (offer_gossip-Paid o budget most s k.0 h) λ _ s1 (h1, now).
        imp-Holds (offer_all-Paid os (budget + spent) most s1 k.1 h1) λ _ t h2. (
          omega (
            arith,
            h2.0,
            ap (λ at_time. elapsed at_time (times os) * l.one) now,
            plus_times (1000000000 * elapsed s1.addr_bucket.updated (times os)) (10000 * length os)
                l.one,
            plus_times (1000000000 * (o.now - s.addr_bucket.updated + elapsed o.now (times os)))
                (10000 * (1 + length os)) l.one,
            plus_times (o.now - s.addr_bucket.updated) (elapsed o.now (times os)) l.one,
            plus_times (1000000000 * (o.now - s.addr_bucket.updated)) 10000 l.one,
          ),
          h2.1,
        )

  -- From a session that has done nothing yet, with a bucket of at most m tokens, over any sequence
  -- of ADDR and ADDRV2 in the first 2^53 milliseconds of the clock, at most one is taken for the
  -- reply to our GETADDR, and none if it is not outstanding; and the addresses that reach the
  -- address manager are at most those of that reply, and m more, one for every ten seconds since
  -- the bucket was filled last, and a billionth for each message.
  pub learnt-offer_all :
      (os : List Offer) (s : Connection Header) (m : ℕ)
      → All IsTime (times os)
      → s.effects ≡ []
      → l.value s.addr_bucket.tokens ≤ m * l.one
      → Holds
          (λ _ t.
            (10000000000000 * learnt t.effects
              ≤ 10000000000000 * m
                + 1000000000 * elapsed s.addr_bucket.updated (times os)
                + 10000 * length os
                + 10000000000000 * spared (replies t.effects))
            × (length (replies t.effects) ≤ as_number s.getaddr_outstanding))
          (λ _ _. ⊥)
          (offer_all f os s)
  learnt-offer_all os s m k e small =
      let earned = 1000000000 * elapsed s.addr_bucket.updated (times os) + 10000 * length os in
      imp-Holds
        (offer_all-Paid os (10000000000000 * (m * l.one)) (as_number s.getaddr_outstanding) s k (
          omega (arith, small, ap learnt e, ap (λ es. learnt es * l.one) e),
          omega (arith, ap (λ es. length (replies es)) e),
        ))
        λ _ t h. (
          omega (
            arith,
            cancel_le (10000000000000 * learnt t.effects)
                (10000000000000 * m + earned + 10000000000000 * spared (replies t.effects)) l.one
                (omega (arith, l.one_large))
                (omega (
                  arith,
                  h.0,
                  plus_times (10000000000000 * m + earned)
                      (10000000000000 * spared (replies t.effects)) l.one,
                  plus_times (10000000000000 * m) earned l.one,
                )),
          ),
          omega (arith, h.1),
        )
