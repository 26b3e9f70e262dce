-- ===== src/HeaderTree/Recovery.antt =====
-- `recovery_due` of observer/src/headertree.rs: which connection asks its peer for a missing block.
-- Times are milliseconds of a clock that does not go back.
use p2p_observer.Common.{
  ℕ, suc, ◌+◌, ◌-◌, ◌≤◌, ◌<◌, ◌≡◌, refl, ◌≢◌, ◌⊎◌, Bool, true, false, ◌&&◌, List, [], ◌∷◌, none,
  some, arith, ltb, if◌then◌else◌, ℕ_discrete, Bool-cases, inl, inr, ite, All,
}
use p2p_observer.Common.Map.{
  get, insert, modify, retain, IsMap, get-insert, get-modify_ne, get-modify-some, get-retain-some,
  get-retain-none, insert-IsMap, modify-IsMap, retain-IsMap,
}

abbrev pub recovery_interval : ℕ
recovery_interval = 10000

abbrev pub recovery_peers : ℕ
recovery_peers = 3

pub record Request : Type 0 where
  pub started : ℕ
  pub requests : ℕ

abbrev pub Recovery : Type 0
Recovery = List (ℕ × Request)

abbrev pub is_recent : ℕ → ℕ → Request → Bool
is_recent now _ q = ltb (now - q.started) recovery_interval

-- The requests after the call, and whether the connection should ask now.
unfoldable pub recovery_due : ℕ → Bool → ℕ → Recovery → Recovery × Bool
recovery_due missing proven now m =
    let kept = retain ℕ_discrete (is_recent now) m in
    elim (get ℕ_discrete missing kept) [
      | none ↦ (insert ℕ_discrete missing (record { started = now; requests = 1 }) kept, true)
      | some q ↦
          (if proven && ltb q.requests recovery_peers
            then (
              modify ℕ_discrete missing (λ x. record x { requests = x.requests + 1 }) kept,
              true,
            )
            else (kept, false))
    ]

pub record Call : Type 0 where
  pub missing : ℕ
  pub proven : Bool
  pub now : ℕ

unfoldable pub asks : List Call → Recovery → Recovery × List Bool
asks [] m = (m, [])
asks (c ∷ cs) m =
    let (m', due) = recovery_due c.missing c.proven c.now m in
    let (m'', dues) = asks cs m' in (m'', due ∷ dues)

-- How many of the answers about one block are a request.
abbrev pub granted : ℕ → List Call → List Bool → ℕ
granted h (c ∷ cs) (true ∷ bs) =
    ite (ℕ_discrete c.missing h) (suc (granted h cs bs)) (granted h cs bs)
granted h (c ∷ cs) (false ∷ bs) = granted h cs bs
granted h _ _ = 0

-- The calls of one interval that began at `start`.
abbrev pub Window : ℕ → List Call → Type 0
Window start cs = All (λ (c : Call). (start ≤ c.now) × (c.now < start + recovery_interval)) cs

-- A request that is out.
abbrev Out : ℕ → ℕ → ℕ → Recovery → Type 0
Out h start n m =
    (q : Request) × (get ℕ_discrete h m ≡ some q) × (start ≤ q.started) × (q.requests ≡ n)

recovery_due-IsMap :
    (missing : ℕ) (proven : Bool) (now : ℕ) (m : Recovery)
    → IsMap ℕ_discrete m
    → IsMap ℕ_discrete (recovery_due missing proven now m).0
unfolding recovery_due
recovery_due-IsMap missing proven now m d =
    let kept = retain ℕ_discrete (is_recent now) m in
    let k = retain-IsMap ℕ_discrete (is_recent now) m d in
    ground (
      arith,
      k,
      insert-IsMap ℕ_discrete missing (record { started = now; requests = 1 }) kept k,
      modify-IsMap ℕ_discrete missing (λ (x : Request). record x { requests = x.requests + 1 }) kept
          k,
    )

kept-Out :
    (h start n now : ℕ) (m : Recovery)
    → IsMap ℕ_discrete m
    → now < start + recovery_interval
    → Out h start n m
    → Out h start n (retain ℕ_discrete (is_recent now) m)
kept-Out h start n now m d lt (q, known, after, count) =
    (q, ground (arith, get-retain-some ℕ_discrete h (is_recent now) m q d known), after, count)

-- A call about another block leaves a request as it is.
recovery_due-other :
    (h c start n now : ℕ) (proven : Bool) (m : Recovery)
    → IsMap ℕ_discrete m
    → now < start + recovery_interval
    → c ≢ h
    → Out h start n m
    → Out h start n (recovery_due c proven now m).0
unfolding recovery_due
recovery_due-other h c start n now proven m d lt ne o =
    let kept = retain ℕ_discrete (is_recent now) m in
    let (q, known, after, count) = kept-Out h start n now m d lt o in
    (
      q,
      ground (
        arith,
        get-insert ℕ_discrete c h (record { started = now; requests = 1 }) kept,
        get-modify_ne ℕ_discrete c h (λ (x : Request). record x { requests = x.requests + 1 }) kept
            ne,
      ),
      after,
      count,
    )

recovery_due-none :
    (h c now : ℕ) (proven : Bool) (m : Recovery)
    → c ≢ h
    → get ℕ_discrete h m ≡ none
    → get ℕ_discrete h (recovery_due c proven now m).0 ≡ none
unfolding recovery_due
recovery_due-none h c now proven m ne e =
    let kept = retain ℕ_discrete (is_recent now) m in
    ground (
      arith,
      get-retain-none ℕ_discrete h (is_recent now) m e,
      get-insert ℕ_discrete c h (record { started = now; requests = 1 }) kept,
      get-modify_ne ℕ_discrete c h (λ (x : Request). record x { requests = x.requests + 1 }) kept
          ne,
    )

-- A further request is granted only below the limit, and is counted.
recovery_due-same :
    (h start n now : ℕ) (proven : Bool) (m : Recovery)
    → IsMap ℕ_discrete m
    → now < start + recovery_interval
    → Out h start n m
    → (c : ℕ) → c ≡ h
    → (((recovery_due c proven now m).1 ≡ true)
        × (n < recovery_peers)
        × Out h start (n + 1) (recovery_due c proven now m).0)
      ⊎ (((recovery_due c proven now m).1 ≡ false) × Out h start n (recovery_due c proven now m).0)
unfolding recovery_due
recovery_due-same h start n now proven m d lt o c same = rw same (
    let kept = retain ℕ_discrete (is_recent now) m in
    let (q, known, after, count) = kept-Out h start n now m d lt o in
    elim (Bool-cases (proven && ltb q.requests recovery_peers)) [
      | inl asked ↦ inl (
        ground arith,
        ground arith,
        (
          record q { requests = q.requests + 1 },
          ground (
            arith,
            get-modify-some ℕ_discrete h (λ (x : Request). record x { requests = x.requests + 1 })
                kept q known,
          ),
          after,
          omega arith,
        ),
      )
      | inr left ↦ inr (ground arith, (q, ground arith, after, count))
    ])

recovery_due-first :
    (h now : ℕ) (proven : Bool) (m : Recovery)
    → get ℕ_discrete h m ≡ none
    → (c : ℕ) → c ≡ h
    → ((recovery_due c proven now m).1 ≡ true)
      × (get ℕ_discrete h (recovery_due c proven now m).0
          ≡ some (record { started = now; requests = 1 }))
unfolding recovery_due
recovery_due-first h now proven m e c same = rw same (
    let kept = retain ℕ_discrete (is_recent now) m in
    let gone = get-retain-none ℕ_discrete h (is_recent now) m e in
    (
      ground arith,
      ground (arith, get-insert ℕ_discrete h h (record { started = now; requests = 1 }) kept),
    ))

asks-Out :
    (h start n : ℕ) (cs : List Call) (m : Recovery)
    → IsMap ℕ_discrete m
    → n ≤ recovery_peers
    → Out h start n m
    → Window start cs
    → n + granted h cs (asks cs m).1 ≤ recovery_peers
unfolding asks
asks-Out h start n [] m d k o w = omega arith
asks-Out h start n (c ∷ cs) m d k o w =
    let m' = (recovery_due c.missing c.proven c.now m).0 in
    let d' = recovery_due-IsMap c.missing c.proven c.now m d in
    elim (ℕ_discrete c.missing h) [
      | no ne ↦ ground (
        arith,
        asks-Out h start n cs m' d' k
            (recovery_due-other h c.missing start n c.now c.proven m d w.0.1 ne o) w.1,
      )
      | yes p ↦ elim (recovery_due-same h start n c.now c.proven m d w.0.1 o c.missing p) [
        | inl (due, below, out) ↦
            ground (arith, asks-Out h start (n + 1) cs m' d' (omega arith) out w.1)
        | inr (due, out) ↦ ground (arith, asks-Out h start n cs m' d' k out w.1)
      ]
    ]

-- If no request for a block is held, then within one interval at most three go out for it, however
-- many connections find it missing, and in whatever order they ask about this block and others.
pub asks-granted :
    (h start : ℕ) (cs : List Call) (m : Recovery)
    → IsMap ℕ_discrete m
    → get ℕ_discrete h m ≡ none
    → Window start cs
    → granted h cs (asks cs m).1 ≤ recovery_peers
unfolding asks
asks-granted h start [] m d e w = omega arith
asks-granted h start (c ∷ cs) m d e w =
    let m' = (recovery_due c.missing c.proven c.now m).0 in
    let d' = recovery_due-IsMap c.missing c.proven c.now m d in
    elim (ℕ_discrete c.missing h) [
      | no ne ↦ ground (
        arith,
        asks-granted h start cs m' d' (recovery_due-none h c.missing c.now c.proven m ne e) w.1,
      )
      | yes p ↦
          let first = recovery_due-first h c.now c.proven m e c.missing p in
          ground (
            arith,
            asks-Out h start 1 cs m' d' (omega arith)
                (record { started = c.now; requests = 1 }, first.1, w.0.0, refl) w.1,
          )
    ]
