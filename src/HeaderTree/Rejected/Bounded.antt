-- ===== src/HeaderTree/Rejected/Bounded.antt =====
-- What is remembered after a refusal and after a touch, and what is forgotten for it.
use p2p_observer.Common.{
  ℕ, zero, suc, ◌+◌, ◌^◌, ◌≤◌, ◌<◌, ◌≡◌, refl, ap, none, some, arith, ltb, length, ℕ_discrete,
  Option-cases, Bool-cases, inl, inr,
}
use p2p_observer.Common.Map.{
  get, insert, remove, modify, get-modify_ne, get-modify-some, length-insert_new,
}
use p2p_observer.HeaderTree.Rejected.{
  HeaderError, Refusals, oldest, next_seq, add_refusal, trim, remember_rejected, touch_rejected,
  rejection_of, rejected_remembered,
}
use p2p_observer.HeaderTree.Rejected.Balance.{
  Balanced, oldest-get, oldest-none, add_refusal-Balanced, drop_refusal, drop_refusal-Balanced,
}

pub record IsRefusals (r : Refusals) : Type 0 where
  pub balanced : Balanced r
  pub bounded : length r.held ≤ rejected_remembered

trim_small : (fuel : ℕ) (r : Refusals) → length r.held ≤ rejected_remembered → trim fuel r ≡ r
unfolding trim
trim_small zero r h = refl
trim_small (suc fuel) r h = ground arith

-- One refusal too many: the oldest goes, and the loop ends.
trim_one :
    (r : Refusals)
    → Balanced r
    → length r.held ≡ rejected_remembered + 1
    → (s h : ℕ) × (oldest r.order ≡ some (s, h))
      × (trim (length r.order) r ≡ drop_refusal s h r)
      × IsRefusals (drop_refusal s h r)
unfolding trim
trim_one r b l = elim (Option-cases (oldest r.order)) [
  | inl e ↦ absurd (omega (arith, ap length (oldest-none r.order e), b.as_long))
  | inr ((s, h), e) ↦
      let d = drop_refusal-Balanced s h r b (oldest-get r.order s h e b.order_IsMap) in
      let small : length (drop_refusal s h r).held ≤ rejected_remembered = omega (arith, d.1) in
      (
        s,
        h,
        e,
        run s h e (length r.order) (omega (arith, b.as_long)) small,
        record { balanced = d.0; bounded = small },
      )
]
  where
    run :
        (s h : ℕ)
        → oldest r.order ≡ some (s, h)
        → (fuel : ℕ) → 0 < fuel
        → length (drop_refusal s h r).held ≤ rejected_remembered
        → trim fuel r ≡ drop_refusal s h r
    run s h e zero pos small = absurd (omega arith)
    run s h e (suc fuel) pos small = ground (arith, trim_small fuel (drop_refusal s h r) small)

-- If at most 8192 refusals are remembered and both maps hold the same ones, then so after one more
-- is remembered, as long as the counter does not wrap.
pub remember_rejected-IsRefusals :
    (hash : ℕ) (reason : HeaderError) (r : Refusals)
    → IsRefusals r
    → r.seq + 1 < 2 ^ 64
    → IsRefusals (remember_rejected hash reason r)
unfolding remember_rejected
remember_rejected-IsRefusals hash reason r v n = elim (Option-cases (get ℕ_discrete hash r.held)) [
  | inr (x, e) ↦ rw (e, remember_rejected) v
  | inl e ↦ rw (e, remember_rejected) (added e)
]
  where
    added :
        get ℕ_discrete hash r.held ≡ none
        → IsRefusals (trim (length (add_refusal hash reason r).order) (add_refusal hash reason r))
    added e =
        let a = add_refusal hash reason r in
        let b = add_refusal-Balanced hash reason r v.balanced n e in
        let l = length-insert_new ℕ_discrete hash (reason, next_seq r) r.held e in
        elim (Bool-cases (ltb rejected_remembered (length a.held))) [
          | inl over ↦ let (s, h, o, t, w) = trim_one a b (ground (arith, v.bounded)) in rw t w
          | inr under ↦
              let small : length a.held ≤ rejected_remembered = ground arith in
              rw (trim_small (length a.order) a small) (record { balanced = b; bounded = small })
        ]

touched : ℕ → HeaderError → ℕ → Refusals → Refusals
touched hash reason previous r = record {
  held = modify ℕ_discrete hash (λ x. (x.0, next_seq r)) r.held;
  order = insert ℕ_discrete (next_seq r) hash (remove ℕ_discrete previous r.order);
  seq = next_seq r;
}

-- Whatever is remembered is remembered after a touch too, with the reason that it had.
rejection_of-touch_rejected :
    (h hash : ℕ) (r : Refusals) → rejection_of h (touch_rejected hash r) ≡ rejection_of h r
unfolding rejection_of touch_rejected touched
rejection_of-touch_rejected h hash r = elim (Option-cases (get ℕ_discrete hash r.held)) [
  | inl e ↦ rw (e, touch_rejected) refl
  | inr ((reason, previous), e) ↦
      rw (e, touch_rejected) (same reason previous e (ℕ_discrete hash h))
]
  where
    same :
        (reason : HeaderError) (previous : ℕ)
        → get ℕ_discrete hash r.held ≡ some (reason, previous)
        → Dec (hash ≡ h)
        → rejection_of h (touched hash reason previous r) ≡ rejection_of h r
    same reason previous e (yes p) = ground (
      arith,
      get-modify-some ℕ_discrete hash (λ (x : HeaderError × ℕ). (x.0, next_seq r)) r.held
          (reason, previous) e,
    )
    same reason previous e (no p) = ground (
      arith,
      get-modify_ne ℕ_discrete hash h (λ (x : HeaderError × ℕ). (x.0, next_seq r)) r.held p,
    )
