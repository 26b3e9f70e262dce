-- ===== src/HeaderTree/Rejected/Balance.antt =====
-- The two maps of the refusals together, and how an entry enters and leaves them.
use p2p_observer.Common.{
  ℕ, ◌+◌, ◌^◌, ◌≤◌, ◌<◌, ◌≡◌, refl, sym, ◌∙◌, List, [], ◌∷◌, none, some, arith, length, ite, if_neg,
  ℕ_discrete, Option-cases, inl, inr,
}
use p2p_observer.Common.Map.{
  get, remove, IsMap, get-insert, get-remove, insert-IsMap, remove-IsMap, length-insert_new,
  length-remove,
}
use p2p_observer.HeaderTree.Rejected.{HeaderError, Refusals, oldest, next_seq, add_refusal}

pub record Balanced (r : Refusals) : Type 0 where
  pub held_IsMap : IsMap ℕ_discrete r.held
  pub order_IsMap : IsMap ℕ_discrete r.order
  pub placed :
      (h s : ℕ) (reason : HeaderError)
      → get ℕ_discrete h r.held ≡ some (reason, s)
      → get ℕ_discrete s r.order ≡ some h
  pub reasoned :
      (s h : ℕ)
      → get ℕ_discrete s r.order ≡ some h
      → (reason : HeaderError) × (get ℕ_discrete h r.held ≡ some (reason, s))
  pub drawn : (s h : ℕ) → get ℕ_discrete s r.order ≡ some h → s ≤ r.seq
  pub as_long : length r.held ≡ length r.order

-- The oldest entry is an entry, and no other has a smaller number.
pub oldest-get :
    (m : List (ℕ × ℕ)) (s h : ℕ)
    → oldest m ≡ some (s, h)
    → IsMap ℕ_discrete m
    → get ℕ_discrete s m ≡ some h
unfolding oldest get
oldest-get [] s h e d = cc
oldest-get ((s', h') ∷ m) s h e d = elim (Option-cases (oldest m)) [
  | inl q ↦ ground arith
  | inr ((a, b), q) ↦ ground (arith, oldest-get m a b q d.1)
]

pub oldest-none : (m : List (ℕ × ℕ)) → oldest m ≡ none → m ≡ []
unfolding oldest
oldest-none [] e = refl
oldest-none ((t, k) ∷ m) e = ground arith

pub oldest-le :
    (m : List (ℕ × ℕ)) (s h s' h' : ℕ)
    → oldest m ≡ some (s, h)
    → get ℕ_discrete s' m ≡ some h'
    → s ≤ s'
unfolding oldest get
oldest-le [] s h s' h' e g = cc
oldest-le ((t, k) ∷ m) s h s' h' e g = elim (Option-cases (oldest m)) [
  | inl q ↦ ground (arith, oldest-none m q, nothing)
  | inr ((a, b), q) ↦ ground (arith, oldest-le m a b s' h' q)
]
  where
    nothing : m ≡ [] → get ℕ_discrete s' m ≡ none
    nothing q = rw q

absent_next :
    (r : Refusals) → Balanced r → r.seq + 1 < 2 ^ 64 → get ℕ_discrete (next_seq r) r.order ≡ none
absent_next r b n = elim (Option-cases (get ℕ_discrete (next_seq r) r.order)) [
  | inl e ↦ e
  | inr (h, e) ↦ absurd (omega (arith, b.drawn (next_seq r) h e))
]

pub add_refusal-Balanced :
    (hash : ℕ) (reason : HeaderError) (r : Refusals)
    → Balanced r
    → r.seq + 1 < 2 ^ 64
    → get ℕ_discrete hash r.held ≡ none
    → Balanced (add_refusal hash reason r)
add_refusal-Balanced hash reason r b n absent = record {
  held_IsMap = insert-IsMap ℕ_discrete hash _ r.held b.held_IsMap;
  order_IsMap = insert-IsMap ℕ_discrete (next_seq r) hash r.order b.order_IsMap;
  placed = λ h s why e. placed h s why (get_insert_held h ∙ e);
  reasoned = λ s h e. reasoned s h (get_insert_order s ∙ e);
  drawn = λ s h e. drawn s h (get_insert_order s ∙ e);
  as_long = omega (
    arith,
    length-insert_new ℕ_discrete hash (reason, next_seq r) r.held absent,
    length-insert_new ℕ_discrete (next_seq r) hash r.order unused,
    b.as_long,
  );
}
  where
    unused : get ℕ_discrete (next_seq r) r.order ≡ none
    unused = absent_next r b n

    get_insert_held :
        (h : ℕ)
        → ite (ℕ_discrete hash h) (some (reason, next_seq r)) (get ℕ_discrete h r.held)
          ≡ get ℕ_discrete h (add_refusal hash reason r).held
    get_insert_held h = sym (get-insert ℕ_discrete hash h (reason, next_seq r) r.held)

    get_insert_order :
        (s : ℕ)
        → ite (ℕ_discrete (next_seq r) s) (some hash) (get ℕ_discrete s r.order)
          ≡ get ℕ_discrete s (add_refusal hash reason r).order
    get_insert_order s = sym (get-insert ℕ_discrete (next_seq r) s hash r.order)

    placed :
        (h s : ℕ) (why : HeaderError)
        → ite (ℕ_discrete hash h) (some (reason, next_seq r)) (get ℕ_discrete h r.held)
          ≡ some (why, s)
        → get ℕ_discrete s (add_refusal hash reason r).order ≡ some h
    placed h s why e = ground (arith, get_insert_order s, b.placed h s why, unused)

    reasoned :
        (s h : ℕ)
        → ite (ℕ_discrete (next_seq r) s) (some hash) (get ℕ_discrete s r.order) ≡ some h
        → (why : HeaderError) × (get ℕ_discrete h (add_refusal hash reason r).held ≡ some (why, s))
    reasoned s h e = elim (ℕ_discrete (next_seq r) s) [
      | yes p ↦ (reason, ground (arith, get_insert_held h))
      | no p ↦
          let (why, q) = b.reasoned s h (
            sym (if_neg (ℕ_discrete (next_seq r) s) p (some hash) (get ℕ_discrete s r.order))
            ∙ e) in
          (why, ground (arith, get_insert_held h))
    ]

    drawn :
        (s h : ℕ)
        → ite (ℕ_discrete (next_seq r) s) (some hash) (get ℕ_discrete s r.order) ≡ some h
        → s ≤ next_seq r
    drawn s h e = ground (arith, b.drawn s h)

-- An entry leaves both maps.
abbrev pub drop_refusal : ℕ → ℕ → Refusals → Refusals
drop_refusal s h r = record r {
  order = remove ℕ_discrete s r.order;
  held = remove ℕ_discrete h r.held;
}

pub drop_refusal-Balanced :
    (s h : ℕ) (r : Refusals)
    → Balanced r
    → get ℕ_discrete s r.order ≡ some h
    → Balanced (drop_refusal s h r) × (length (drop_refusal s h r).held + 1 ≡ length r.held)
drop_refusal-Balanced s h r b e =
    let (why, held) = b.reasoned s h e in
    let shorter = length-remove ℕ_discrete s r.order b.order_IsMap in
    let shorter' = length-remove ℕ_discrete h r.held b.held_IsMap in
    (
      record {
        held_IsMap = remove-IsMap ℕ_discrete h r.held b.held_IsMap;
        order_IsMap = remove-IsMap ℕ_discrete s r.order b.order_IsMap;
        placed = λ h' s' why' q. ground (
          arith,
          get-remove ℕ_discrete h h' r.held,
          get-remove ℕ_discrete s s' r.order,
          b.placed h' s' why',
        );
        reasoned = λ s' h' q. reasoned s' h' q;
        drawn = λ s' h' q. ground (arith, get-remove ℕ_discrete s s' r.order, b.drawn s' h');
        as_long = ground (arith, b.as_long);
      },
      ground arith,
    )
  where
    reasoned :
        (s' h' : ℕ)
        → get ℕ_discrete s' (remove ℕ_discrete s r.order) ≡ some h'
        → (why : HeaderError) × (get ℕ_discrete h' (remove ℕ_discrete h r.held) ≡ some (why, s'))
    reasoned s' h' q =
        let p : get ℕ_discrete s' r.order ≡ some h' =
          ground (arith, get-remove ℕ_discrete s s' r.order) in
        let (why, k) = b.reasoned s' h' p in
        let (why', k') = b.reasoned s h e in
        (why, ground (arith, get-remove ℕ_discrete h h' r.held, get-remove ℕ_discrete s s' r.order))
