-- ===== src/Registry/Shown.antt =====
-- What a snapshot of the registry of observer/src/connections.rs shows.
use p2p_observer.Common.{
  ℕ, ◌<◌, ◌≡◌, refl, ap, ◌∙◌, All, All-imp, List, [], ◌∷◌, Option, none, some, arith, leb, ite,
  ℕ_discrete, Bool-cases, inl, inr,
}
use p2p_observer.Common.Map.{
  get, get-insert, get-remove, insert-IsMap, modify-IsMap, remove-IsMap, modify, IsMap,
}
use p2p_observer.Registry.{
  Live, Registry, insert_by_id, refresh, register, release, snapshot, with_counters,
}
use p2p_observer.Session.Stats.{Counters}

pub data Change : Type 0 where
  registered : ℕ → Live → Change
  refreshed : ℕ → Counters → ℕ → Change
  released : ℕ → Change

unfoldable pub change : Change → Registry → Registry
unfolding register refresh release
change (registered id live) m = register id live m
change (refreshed id counters now_ms) m = refresh id counters now_ms m
change (released id) m = release id m

unfoldable pub change_all : List Change → Registry → Registry
unfolding change
change_all [] m = m
change_all (c ∷ cs) m = change_all cs (change c m)

-- What one session's changes make of it.
abbrev after : ℕ → Change → Option Live → Option Live
after id (registered j live) shown = ite (ℕ_discrete j id) (some live) shown
after id (refreshed j counters now_ms) none = none
after id (refreshed j counters now_ms) (some live) =
    ite (ℕ_discrete j id) (some (with_counters counters now_ms live)) (some live)
after id (released j) shown = ite (ℕ_discrete j id) none shown

abbrev pub after_all : ℕ → List Change → Option Live → Option Live
after_all id [] shown = shown
after_all id (c ∷ cs) shown = after_all id cs (after id c shown)

abbrev pub Ascending : List (ℕ × Live) → Type 0
Ascending [] = Unit
Ascending ((id, live) ∷ m) = All (λ (p : ℕ × Live). id < p.0) m × Ascending m

get-refresh :
    (id j : ℕ) (counters : Counters) (now_ms : ℕ) (m : Registry)
    → get ℕ_discrete id (modify ℕ_discrete j (with_counters counters now_ms) m)
      ≡ after id (refreshed j counters now_ms) (get ℕ_discrete id m)
unfolding get modify
get-refresh id j counters now_ms [] = refl
get-refresh id j counters now_ms ((i, w) ∷ m) = ground (arith, get-refresh id j counters now_ms m)

get-change :
    (id : ℕ) (c : Change) (m : Registry)
    → get ℕ_discrete id (change c m) ≡ after id c (get ℕ_discrete id m)
unfolding change register refresh release
get-change id (registered j live) m = get-insert ℕ_discrete j id live m
get-change id (refreshed j counters now_ms) m = get-refresh id j counters now_ms m
get-change id (released j) m = get-remove ℕ_discrete j id m

change-IsMap : (c : Change) (m : Registry) → IsMap ℕ_discrete m → IsMap ℕ_discrete (change c m)
unfolding change register refresh release
change-IsMap (registered j live) m h = insert-IsMap ℕ_discrete j live m h
change-IsMap (refreshed j counters now_ms) m h =
    modify-IsMap ℕ_discrete j (with_counters counters now_ms) m h
change-IsMap (released j) m h = remove-IsMap ℕ_discrete j m h

get-change_all :
    (id : ℕ) (cs : List Change) (m : Registry)
    → get ℕ_discrete id (change_all cs m) ≡ after_all id cs (get ℕ_discrete id m)
unfolding change_all
get-change_all id [] m = refl
get-change_all id (c ∷ cs) m =
    get-change_all id cs (change c m) ∙ ap (after_all id cs) (get-change id c m)

change_all-IsMap :
    (cs : List Change) (m : Registry) → IsMap ℕ_discrete m → IsMap ℕ_discrete (change_all cs m)
unfolding change_all
change_all-IsMap [] m h = h
change_all-IsMap (c ∷ cs) m h = change_all-IsMap cs (change c m) (change-IsMap c m h)

get-insert_by_id :
    (j id : ℕ) (live : Live) (m : Registry)
    → get ℕ_discrete id m ≡ none
    → get ℕ_discrete j (insert_by_id id live m)
      ≡ ite (ℕ_discrete id j) (some live) (get ℕ_discrete j m)
unfolding get insert_by_id
get-insert_by_id j id live [] h = refl
get-insert_by_id j id live ((i, w) ∷ m) h = ground (arith, get-insert_by_id j id live m)

get-snapshot :
    (j : ℕ) (m : Registry) → IsMap ℕ_discrete m → get ℕ_discrete j (snapshot m) ≡ get ℕ_discrete j m
unfolding get snapshot
get-snapshot j [] h = refl
get-snapshot j ((id, live) ∷ m) h =
    get-insert_by_id j id live (snapshot m) (get-snapshot id m h.1 ∙ h.0)
    ∙ ap (ite (ℕ_discrete id j) (some live)) (get-snapshot j m h.1)

All-insert_by_id :
    (b id : ℕ) (live : Live) (m : Registry)
    → b < id
    → All (λ (p : ℕ × Live). b < p.0) m
    → All (λ (p : ℕ × Live). b < p.0) (insert_by_id id live m)
unfolding insert_by_id
All-insert_by_id b id live [] lt h = (lt, tt)
All-insert_by_id b id live ((i, w) ∷ m) lt h = elim (Bool-cases (leb id i)) [
  | inl le ↦ rw (le, insert_by_id) (lt, h)
  | inr gt ↦ rw (gt, insert_by_id) (h.0, All-insert_by_id b id live m lt h.1)
]

not_there :
    (id i : ℕ) (w : Live) (m : Registry)
    → get ℕ_discrete id ((i, w) ∷ m) ≡ none
    → (i ≡ id → ⊥) × (get ℕ_discrete id m ≡ none)
unfolding get
not_there id i w m h = (λ e. ground arith, ground arith)

insert_by_id-Ascending :
    (id : ℕ) (live : Live) (m : Registry)
    → get ℕ_discrete id m ≡ none
    → Ascending m
    → Ascending (insert_by_id id live m)
unfolding insert_by_id
insert_by_id-Ascending id live [] h a = (tt, tt)
insert_by_id-Ascending id live ((i, w) ∷ m) h a =
    let (other, absent) = not_there id i w m h in
    elim (Bool-cases (leb id i)) [
      | inl le ↦
          rw (le, insert_by_id)
            (
              (
                ground (arith, other),
                All-imp (λ (p : ℕ × Live). i < p.0) (λ (p : ℕ × Live). id < p.0) m
                    (λ p lt. ground (arith, lt, le)) a.0,
              ),
              a,
            )
      | inr gt ↦
          rw (gt, insert_by_id)
            (
              All-insert_by_id i id live m (ground (arith, gt)) a.0,
              insert_by_id-Ascending id live m absent a.1,
            )
    ]

snapshot-Ascending : (m : Registry) → IsMap ℕ_discrete m → Ascending (snapshot m)
unfolding snapshot
snapshot-Ascending [] h = tt
snapshot-Ascending ((id, live) ∷ m) h =
    insert_by_id-Ascending id live (snapshot m) (get-snapshot id m h.1 ∙ h.0)
      (snapshot-Ascending m h.1)

-- After any sequence of registrations, refreshes and releases a snapshot has the live sessions in
-- the order of their ids, each once, as the changes of that session alone, in their order, left it:
-- a session that was released, or never registered, is not shown, and no refresh brings it back.
pub snapshot-change_all :
    (cs : List Change)
    → Ascending (snapshot (change_all cs []))
      × ((id : ℕ) → get ℕ_discrete id (snapshot (change_all cs [])) ≡ after_all id cs none)
unfolding get
snapshot-change_all cs =
    let whole = change_all-IsMap cs [] tt in
    (
      snapshot-Ascending (change_all cs []) whole,
      λ id. get-snapshot id (change_all cs []) whole ∙ get-change_all id cs [],
    )
