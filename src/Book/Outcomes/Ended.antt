-- ===== src/Book/Outcomes/Ended.antt =====
-- What the end of an attempt or a session does to the book.
use p2p_observer.Common.{
  ℕ, ◌+◌, ◌≤◌, ◌<◌, ◌≡◌, ◌≢◌, ◌⊎◌, refl, ap, subst, ◌∙◌, sym, ite, inl, inr, Option, none, some,
  true, false, arith, min, length, List, [], ◌∷◌, if_pos, if_neg, if◌then◌else◌, Bool-cases,
  Option-cases,
}
use p2p_observer.Common.Map.{
  get, remove, modify, get-remove, get-modify-some, get-modify_ne, remove-IsMap, modify-IsMap,
  if-IsMap,
}
use p2p_observer.Float.{F32, F32Laws}
use p2p_observer.PeerAddr.{PeerAddr, PeerAddr-discrete}
use p2p_observer.Policy.{
  Outcome, Reason, gossip, failed, disconnected, other_chain, violated, our_fault, manual, Class,
  unknown, good, was_good, bad, should_forget, u32_max, u8_max,
}
use p2p_observer.Policy.Delay.{jitter_bounds}
use p2p_observer.Book.Entry.{
  Entry, class_of, connected_before, counted, after_end, forget_due, delay_of,
}
use p2p_observer.Book.Outcomes.{record_ended}
use p2p_observer.Book.Rng.{next_f32}
use p2p_observer.Book.State.{Book, IsBook}

-- The class that an outcome puts an entry in.
abbrev pub class_after : Outcome → Entry → Class
class_after (our_fault _) e = class_of e
class_after (failed _) e = if connected_before e then was_good else bad
class_after _ e = if connected_before e then good else unknown

-- A failure makes a known peer `was_good` and any other `bad`; a session, another chain and a
-- violation make it `good` if it ever completed a handshake; a fault of our own changes nothing.
class_of-after_end :
    (f : F32) (now r : ℕ) (outcome : Outcome) (e : Entry)
    → class_of (after_end f now r outcome e) ≡ class_after outcome e
unfolding class_of after_end counted connected_before
class_of-after_end f now r (our_fault _) e = ground arith
class_of-after_end f now r (failed _) e = ground arith
class_of-after_end f now r other_chain e = ground arith
class_of-after_end f now r violated e = ground arith
class_of-after_end f now r (disconnected _ _) e = ground arith

abbrev pub Counters : Entry → Type 0
Counters e = (e.failures ≤ u8_max) × (e.short_sessions ≤ u8_max)

counted-Counters : (outcome : Outcome) (e : Entry) → Counters e → Counters (counted outcome e)
unfolding counted
counted-Counters (our_fault _) e h = h
counted-Counters (failed _) e h = omega arith
counted-Counters other_chain e h = omega arith
counted-Counters violated e h = omega arith
counted-Counters (disconnected _ _) e h = ground arith

counted-fixed :
    (outcome : Outcome) (e : Entry)
    → ((counted outcome e).origin ≡ e.origin)
      × ((counted outcome e).last_success ≡ e.last_success)
      × ((counted outcome e).last_announced ≡ e.last_announced)
unfolding counted
counted-fixed (our_fault _) e = (refl, refl, refl)
counted-fixed (failed _) e = (refl, refl, refl)
counted-fixed other_chain e = (refl, refl, refl)
counted-fixed violated e = (refl, refl, refl)
counted-fixed (disconnected _ _) e = (refl, refl, refl)

-- If the float operations obey their laws, the time is a `u32` and the counters fit their widths,
-- the retry lies in the future, unless the clock has run out of `u32`, and every number still fits
-- its width.
after_end-next :
    (f : F32) (laws : F32Laws f) (now r : ℕ) (outcome : Outcome) (e : Entry)
    → now ≤ u32_max
    → Counters e
    → (min (now + 1) u32_max ≤ (after_end f now r outcome e).next_attempt)
      × ((after_end f now r outcome e).next_attempt ≤ u32_max)
      × Counters (after_end f now r outcome e)
unfolding after_end
after_end-next f laws now r outcome e h k =
    let j = jitter_bounds f laws (delay_of outcome (counted outcome e)) r in
    let c = counted-Counters outcome e k in (omega arith, omega arith, omega arith)

-- An end releases the address, and no other.
pub record_ended-active :
    (f : F32) (a c : PeerAddr) (now : ℕ) (outcome : Outcome) (b : Book)
    → get PeerAddr-discrete c (record_ended f a now outcome b).active
      ≡ ite (PeerAddr-discrete a c) none (get PeerAddr-discrete c b.active)
unfolding record_ended
record_ended-active f a c now outcome b = elim (Option-cases (get PeerAddr-discrete a b.entries)) [
  | inl e ↦ rw (e, record_ended) (get-remove PeerAddr-discrete a c b.active)
  | inr (x, e) ↦ rw (e, record_ended) (get-remove PeerAddr-discrete a c b.active)
]

-- An entry of the book is scheduled by the outcome, or dropped exactly when its forget rule says
-- so; no other entry is touched.
pub record_ended-entries :
    (f : F32) (a c : PeerAddr) (now : ℕ) (outcome : Outcome) (b : Book) (e : Entry)
    → get PeerAddr-discrete a b.entries ≡ some e
    → let new = after_end f now (next_f32 f b.rng).1 outcome e in
      get PeerAddr-discrete c (record_ended f a now outcome b).entries
      ≡ ite
          (PeerAddr-discrete a c)
          (if forget_due now new then none else some new)
          (get PeerAddr-discrete c b.entries)
unfolding record_ended
record_ended-entries f a c now outcome b e known =
    let new = after_end f now (next_f32 f b.rng).1 outcome e in
    rw (known, record_ended)
      (elim (Bool-cases (forget_due now new)) [
        | inl due ↦ rw due (get-remove PeerAddr-discrete a c b.entries)
        | inr keep ↦ rw keep (elim (PeerAddr-discrete a c) [
          | yes p ↦ rw (← p) (
              get-modify-some PeerAddr-discrete a _ b.entries e known
              ∙ sym (if_pos (PeerAddr-discrete a a) refl _ _))
          | no n ↦
              get-modify_ne PeerAddr-discrete a c _ b.entries n
              ∙ sym (if_neg (PeerAddr-discrete a c) n _ _)
        ])
      ])

-- What a failure makes of an entry of gossip that never connected.
failed-fields :
    (f : F32) (now r : ℕ) (reason : Reason) (e : Entry)
    → let new = after_end f now r (failed reason) e in
      (new.origin ≡ e.origin)
      × (new.last_success ≡ e.last_success)
      × (new.failures ≡ min (e.failures + 1) u8_max)
      × (new.last_attempt_failed ≡ true)
unfolding after_end counted
failed-fields f now r reason e = (refl, refl, refl, refl)

forget_cases :
    (now : ℕ) (e : Entry)
    → e.origin ≡ gossip
    → e.last_success ≡ 0
    → ((forget_due now e ≡ true) × (3 ≤ e.failures))
      ⊎ ((forget_due now e ≡ false) × (e.failures < 5))
unfolding should_forget
forget_cases now e o never = elim (Bool-cases (forget_due now e)) [
  | inl due ↦ inl (due, ground (arith, o, never, due))
  | inr kept ↦ inr (kept, ground (arith, o, never, kept))
]

record_ended-absent :
    (f : F32) (a c : PeerAddr) (now : ℕ) (outcome : Outcome) (b : Book)
    → get PeerAddr-discrete a b.entries ≡ none
    → (record_ended f a now outcome b).entries ≡ b.entries
unfolding record_ended
record_ended-absent f a c now outcome b e = rw (e, record_ended) refl

record_ended-other :
    (f : F32) (a c : PeerAddr) (now : ℕ) (outcome : Outcome) (b : Book)
    → a ≢ c
    → get PeerAddr-discrete c (record_ended f a now outcome b).entries
      ≡ get PeerAddr-discrete c b.entries
record_ended-other f a c now outcome b n = elim (Option-cases (get PeerAddr-discrete a b.entries)) [
  | inl e ↦ ap (get PeerAddr-discrete c) (record_ended-absent f a c now outcome b e)
  | inr (x, e) ↦ record_ended-entries f a c now outcome b x e ∙ if_neg (PeerAddr-discrete a c) n _ _
]

-- Attempts on an address that fail at these times for these reasons.
unfoldable pub record_failures : F32 → PeerAddr → List (ℕ × Reason) → Book → Book
record_failures f a [] b = b
record_failures f a ((now, reason) ∷ es) b =
    record_failures f a es (record_ended f a now (failed reason) b)

record_failures-absent :
    (f : F32) (a : PeerAddr) (es : List (ℕ × Reason)) (b : Book)
    → get PeerAddr-discrete a b.entries ≡ none
    → get PeerAddr-discrete a (record_failures f a es b).entries ≡ none
unfolding record_failures
record_failures-absent f a [] b h = h
record_failures-absent f a ((now, reason) ∷ es) b h =
    record_failures-absent f a es (record_ended f a now (failed reason) b)
      (ap (get PeerAddr-discrete a) (record_ended-absent f a a now (failed reason) b h) ∙ h)

record_failures-other :
    (f : F32) (a c : PeerAddr) (es : List (ℕ × Reason)) (b : Book)
    → a ≢ c
    → get PeerAddr-discrete c (record_failures f a es b).entries ≡ get PeerAddr-discrete c b.entries
unfolding record_failures
record_failures-other f a c [] b n = refl
record_failures-other f a c ((now, reason) ∷ es) b n =
    record_failures-other f a c es (record_ended f a now (failed reason) b) n
    ∙ record_ended-other f a c now (failed reason) b n

-- Forgotten after three failures or more, or kept after fewer than five, all of them counted.
abbrev pub Judged : ℕ → Option Entry → Type 0
Judged n none = 3 ≤ n
Judged n (some e) = (n < 5) × (e.failures ≡ n) × (e.last_attempt_failed ≡ true)

-- One failure more.
failed_once :
    (f : F32) (a : PeerAddr) (now : ℕ) (reason : Reason) (b : Book) (e : Entry)
    → get PeerAddr-discrete a b.entries ≡ some e
    → e.origin ≡ gossip
    → e.last_success ≡ 0
    → let after = record_ended f a now (failed reason) b in
      ((get PeerAddr-discrete a after.entries ≡ none) × (3 ≤ e.failures + 1))
      ⊎ ((new : Entry) × (get PeerAddr-discrete a after.entries ≡ some new)
          × (new.origin ≡ gossip)
          × (new.last_success ≡ 0)
          × Judged (e.failures + 1) (some new))
failed_once f a now reason b e known o never =
    let new = after_end f now (next_f32 f b.rng).1 (failed reason) e in
    let x = failed-fields f now (next_f32 f b.rng).1 reason e in
    let there =
      record_ended-entries f a a now (failed reason) b e known
      ∙ if_pos (PeerAddr-discrete a a) refl _ _ in
    elim (forget_cases now new (x.0 ∙ o) (x.1 ∙ never)) [
      | inl (due, many) ↦
          inl (there ∙ ap (λ t. if t then none else some new) due, omega (arith, many, x.2))
      | inr (kept, few) ↦ inr (
        new,
        there ∙ ap (λ t. if t then none else some new) kept,
        x.0 ∙ o,
        x.1 ∙ never,
        (omega (arith, few, x.2), omega (arith, few, x.2), x.3),
      )
    ]

judged :
    (f : F32) (a : PeerAddr) (now : ℕ) (reason : Reason) (es : List (ℕ × Reason)) (b : Book)
    (e : Entry)
    → get PeerAddr-discrete a b.entries ≡ some e
    → e.origin ≡ gossip
    → e.last_success ≡ 0
    → Judged
        (e.failures + 1 + length es)
        (get PeerAddr-discrete a (record_failures f a ((now, reason) ∷ es) b).entries)
unfolding record_failures
judged f a now reason [] b e known o never = elim (failed_once f a now reason b e known o never) [
  | inl (gone, many) ↦ subst (Judged (e.failures + 1 + 0)) (sym gone) (omega (arith, many))
  | inr (new, there, o', never', (few, count, flag)) ↦
      subst (Judged (e.failures + 1 + 0)) (sym there)
        (omega (arith, few), omega (arith, count), flag)
]
judged f a now reason ((t, s) ∷ es) b e known o never =
    elim (failed_once f a now reason b e known o never) [
      | inl (gone, many) ↦
          subst (Judged (e.failures + 1 + length ((t, s) ∷ es)))
            (sym (
              record_failures-absent f a ((t, s) ∷ es) (record_ended f a now (failed reason) b)
                gone))
            (omega (arith, many))
      | inr (new, there, o', never', (few, count, flag)) ↦
          subst
            (λ n.
              let last =
                record_failures f a ((t, s) ∷ es) (record_ended f a now (failed reason) b) in
              Judged n (get PeerAddr-discrete a last.entries))
            (omega (arith, count))
            (judged f a t s es (record_ended f a now (failed reason) b) new there o' never')
    ]

-- Let an address of gossip that never connected fail, at whatever times and for whatever reasons.
-- Each failure is counted; the address is forgotten after its fifth at the latest, and not before
-- its third; and no other entry is touched.
pub record_failures-Judged :
    (f : F32) (a c : PeerAddr) (now : ℕ) (reason : Reason) (es : List (ℕ × Reason)) (b : Book)
    (e : Entry)
    → get PeerAddr-discrete a b.entries ≡ some e
    → e.origin ≡ gossip
    → e.last_success ≡ 0
    → a ≢ c
    → let after = record_failures f a ((now, reason) ∷ es) b in
      Judged (e.failures + 1 + length es) (get PeerAddr-discrete a after.entries)
      × (get PeerAddr-discrete c after.entries ≡ get PeerAddr-discrete c b.entries)
record_failures-Judged f a c now reason es b e known o never n = (
  judged f a now reason es b e known o never,
  record_failures-other f a c ((now, reason) ∷ es) b n,
)

-- An entry of the operator's stays in the book when its attempt or session ends, and stays the
-- operator's.
record_ended-manual :
    (f : F32) (a : PeerAddr) (now : ℕ) (outcome : Outcome) (b : Book) (e : Entry)
    → get PeerAddr-discrete a b.entries ≡ some e
    → e.origin ≡ manual
    → (new : Entry) × (get PeerAddr-discrete a (record_ended f a now outcome b).entries ≡ some new)
      × (new.origin ≡ manual)
unfolding should_forget after_end
record_ended-manual f a now outcome b e known m =
    let new = after_end f now (next_f32 f b.rng).1 outcome e in
    let o : new.origin ≡ manual = (counted-fixed outcome e).0 ∙ m in
    (
      new,
      record_ended-entries f a a now outcome b e known
          ∙ if_pos (PeerAddr-discrete a a) refl _ _
          ∙ kept new o,
      o,
    )
  where
    kept : (n : Entry) → n.origin ≡ manual → (if forget_due now n then none else some n) ≡ some n
    kept n o = ground arith

pub record_ended-IsBook :
    (f : F32) (a : PeerAddr) (now : ℕ) (outcome : Outcome) (b : Book)
    → IsBook b
    → IsBook (record_ended f a now outcome b)
unfolding record_ended
record_ended-IsBook f a now outcome b v = elim (Option-cases (get PeerAddr-discrete a b.entries)) [
  | inl e ↦
      rw (e, record_ended)
        (record {
          entries_IsMap = v.entries_IsMap;
          active_IsMap = remove-IsMap PeerAddr-discrete a b.active v.active_IsMap;
        })
  | inr (x, e) ↦
      rw (e, record_ended)
        (record {
          entries_IsMap =
              if-IsMap PeerAddr-discrete
                (forget_due now (after_end f now (next_f32 f b.rng).1 outcome x))
                (remove PeerAddr-discrete a b.entries) (modify PeerAddr-discrete a _ b.entries)
                (remove-IsMap PeerAddr-discrete a b.entries v.entries_IsMap)
                (modify-IsMap PeerAddr-discrete a _ b.entries v.entries_IsMap);
          active_IsMap = remove-IsMap PeerAddr-discrete a b.active v.active_IsMap;
        })
]
