-- ===== src/HeaderTree/Insert/Whole.antt =====
-- What holds of the tree before and after `insert_inner` and `insert_batch`, where no checkpoint is
-- set, as on a network without one.
use mathlib.Core.Option.{some-injective}
use p2p_observer.Common.{
  ℕ, ◌+◌, ◌≡◌, refl, sym, subst, ◌∙◌, ap, List, [], ◌∷◌, none, some, arith, Bool-cases,
  Option-cases, Option, inl, inr, ℕ_discrete, length, ◌==◌,
}
use p2p_observer.Common.Map.{get}
use p2p_observer.HeaderTree.Insert.{
  Inserted, inserted, known, refused, validate_header, unplaceable, new_header_entry, with_header,
  advance, insert_inner, insert_all, insert_batch,
}
use p2p_observer.HeaderTree.Prune.{note_checkpoint}
use p2p_observer.HeaderTree.Rejected.{HeaderError, remember_rejected}
use p2p_observer.HeaderTree.Tree.{
  Bitcoin, HeaderEntry, HeaderTree, Headers, rebuild_best_chain, weaker_than_our_tip,
}
use p2p_observer.HeaderTree.Tree.Chain.{ChainTo, rebuild_best_chain-ChainTo}
use p2p_observer.HeaderTree.Insert.Growth.{
  IsTree, IsTree-refusals, Grows, Grows-refl, Grows-refusals, Grows-trans, ChainTo-Grows,
  advance-Grows, advance-IsTree,
}

module _ {Header : Type 0} (bc : Bitcoin Header) where
  unplaceable-IsTree :
      (t : HeaderTree Header) (x : Header)
      → IsTree bc t
      → IsTree bc (unplaceable bc t x).0 × Grows bc t (unplaceable bc t x).0
  unfolding unplaceable
  unplaceable-IsTree t x v =
      elim (Option-cases (get ℕ_discrete (bc.prev_blockhash x) t.refusals.held)) [
        | inr ((reason, _), e) ↦
            rw (e, unplaceable) (IsTree-refusals bc t _ v, Grows-refusals bc t _)
        | inl e ↦
            rw (e, unplaceable)
              (elim (Bool-cases (weaker_than_our_tip bc t x)) [
                | inl weaker ↦ rw weaker (IsTree-refusals bc t _ v, Grows-refusals bc t _)
                | inr other ↦ rw other (v, Grows-refl bc t)
              ])
      ]

  note_checkpoint-none :
      (hash height : ℕ) (t : HeaderTree Header)
      → t.checkpoints ≡ []
      → note_checkpoint bc hash height t ≡ some t
  unfolding note_checkpoint
  note_checkpoint-none hash height t e = ground arith

  -- What `insert_inner` comes to.
  abbrev Fine : HeaderTree Header → Option (HeaderTree Header × Inserted) → Type 0
  Fine t o =
      (t' : HeaderTree Header) × (outcome : Inserted) × (o ≡ some (t', outcome))
      × IsTree bc t'
      × (t'.checkpoints ≡ [])
      × Grows bc t t'

  unplaceable-checkpoints :
      (t : HeaderTree Header) (x : Header) → (unplaceable bc t x).0.checkpoints ≡ t.checkpoints
  unfolding unplaceable
  unplaceable-checkpoints t x = ground arith

  advance-checkpoints :
      (x : Header) (e : HeaderEntry Header) (t : HeaderTree Header)
      → (advance bc x e t).checkpoints ≡ t.checkpoints
  unfolding advance
  advance-checkpoints x e t = ground arith

  insert_inner-IsTree :
      (t : HeaderTree Header) (x : Header)
      → IsTree bc t
      → t.checkpoints ≡ []
      → Fine t (insert_inner bc t x)
  unfolding insert_inner
  insert_inner-IsTree t x v c = elim (Option-cases (get ℕ_discrete (bc.block_hash x) t.headers)) [
    | inr (e, k) ↦ (t, known, ground arith, v, c, Grows-refl bc t)
    | inl absent ↦ elim (Option-cases (get ℕ_discrete (bc.prev_blockhash x) t.headers)) [
      | inl e ↦ (
        (unplaceable bc t x).0,
        (unplaceable bc t x).1,
        rw (absent, e, insert_inner) refl,
        (unplaceable-IsTree t x v).0,
        unplaceable-checkpoints t x ∙ c,
        (unplaceable-IsTree t x v).1,
      )
      | inr (parent, e) ↦ placed parent absent e
    ]
  ]
    where
      placed :
          (parent : HeaderEntry Header)
          → get ℕ_discrete (bc.block_hash x) t.headers ≡ none
          → get ℕ_discrete (bc.prev_blockhash x) t.headers ≡ some parent
          → Fine t (insert_inner bc t x)
      placed parent absent e =
          let new = new_header_entry bc x parent in
          let t' = with_header bc t x parent in
          let quiet = note_checkpoint-none (bc.block_hash x) (parent.height + 1) t' c in
          elim (Option-cases (validate_header bc t x (parent.height + 1) parent)) [
            | inr (error, bad) ↦ (
              record t { refusals = remember_rejected (bc.block_hash x) error t.refusals },
              refused error,
              rw (absent, e, bad, insert_inner) refl,
              IsTree-refusals bc t _ v,
              c,
              Grows-refusals bc t _,
            )
            | inl fine ↦ (
              advance bc x new t',
              inserted,
              rw (absent, e, fine, quiet, insert_inner) refl,
              advance-IsTree bc t x parent v absent e,
              advance-checkpoints x new t' ∙ c,
              advance-Grows bc t x parent absent,
            )
          ]

  insert_all-IsTree :
      (xs : List Header) (t : HeaderTree Header)
      → IsTree bc t
      → t.checkpoints ≡ []
      → (t' : HeaderTree Header) × (accepted : ℕ) × (err : Option HeaderError) × (insert_all bc xs t
          ≡ some (t', accepted, err))
        × IsTree bc t'
        × (t'.checkpoints ≡ [])
        × Grows bc t t'
  unfolding insert_all
  insert_all-IsTree [] t v c = (t, 0, none, refl, v, c, Grows-refl bc t)
  insert_all-IsTree (x ∷ xs) t v c =
      let (t', outcome, e, v', c', g) = insert_inner-IsTree t x v c in
      let (t'', accepted, err, e', v'', c'', g') = insert_all-IsTree xs t' v' c' in
      elim outcome
          as (λ o.
            insert_inner bc t x ≡ some (t', o)
            → (u : HeaderTree Header) × (n : ℕ) × (r : Option HeaderError) × (insert_all bc (x ∷ xs)
                  t
                ≡ some (u, n, r))
              × IsTree bc u
              × (u.checkpoints ≡ [])
              × Grows bc t u) [
                | inserted ↦ λ p. (
                  t'',
                  accepted + 1,
                  err,
                  rw (p, e', insert_all) refl,
                  v'',
                  c'',
                  Grows-trans bc t t' t'' g g',
                )
                | known ↦ λ p. (
                  t'',
                  accepted,
                  err,
                  rw (p, e', insert_all) refl,
                  v'',
                  c'',
                  Grows-trans bc t t' t'' g g',
                )
                | refused r ↦ λ p. (
                  t'',
                  accepted,
                  some r,
                  rw (p, e', insert_all) refl,
                  v'',
                  c'',
                  Grows-trans bc t t' t'' g g',
                )
              ]
        e

  -- The best chain leads from a header at height zero to the tip.
  abbrev pub Led : HeaderTree Header → Type 0
  Led t = (length t.best_chain ≡ t.tip_height + 1) × ChainTo bc t.headers t.tip t.best_chain

  rebuilt :
      (t : HeaderTree Header)
      → IsTree bc t
      → (u : HeaderTree Header) × (rebuild_best_chain bc t ≡ some u)
        × IsTree bc u
        × Led u
        × (u.checkpoints ≡ t.checkpoints)
  rebuilt t v =
      let (chain, found, size, links) =
        rebuild_best_chain-ChainTo bc t v.top v.linked v.top_held v.top_height in
      (
        record t { best_chain = chain },
        found,
        record {
          linked = v.linked;
          top = v.top;
          top_held = v.top_held;
          top_height = v.top_height;
          top_work = v.top_work;
          most = v.most;
        },
        (size, links),
        refl,
      )

  one_top :
      (m : Headers Header) (h : ℕ) {d e : HeaderEntry Header}
      → get ℕ_discrete h m ≡ some d
      → get ℕ_discrete h m ≡ some e
      → d.height ≡ e.height
  one_top m h {d = d} {e = e} p q =
      ap (λ (x : HeaderEntry Header). x.height) (some-injective d e (sym p ∙ q))

  -- A batch that leaves the tip where it was leaves the best chain right.
  still-Led :
      (t u : HeaderTree Header)
      → IsTree bc t
      → IsTree bc u
      → Grows bc t u
      → u.tip ≡ t.tip
      → Led t
      → Led u
  still-Led t u v w g same led =
      let chain = ChainTo-Grows bc t u g t.tip t.best_chain led.1 in
      let height : u.tip_height ≡ t.tip_height =
        sym w.top_height
        ∙ one_top u.headers u.tip w.top_held (
            subst (λ h. get ℕ_discrete h u.headers ≡ some v.top) (sym same)
              (g.kept t.tip v.top v.top_held))
        ∙ v.top_height in
      (
        ap length g.best ∙ led.0 ∙ ap (λ n. n + 1) (sym height),
        subst (λ h. ChainTo bc u.headers h u.best_chain) (sym same)
            (subst (λ c. ChainTo bc u.headers t.tip c) (sym g.best) chain),
      )

  -- Let the headers of a tree without checkpoints be linked, its tip one of those with the most
  -- work, and its best chain lead from height zero to the tip, each header the parent of the next.
  -- A batch of any headers is then taken without a panic, and leaves a tree of which the same
  -- holds.
  pub insert_batch-IsTree :
      (xs : List Header) (t : HeaderTree Header)
      → IsTree bc t
      → Led t
      → t.checkpoints ≡ []
      → (t' : HeaderTree Header) × (accepted : ℕ) × (err : Option HeaderError) × (insert_batch bc xs
            t
          ≡ some (t', accepted, err))
        × IsTree bc t'
        × Led t'
        × (t'.checkpoints ≡ [])
  unfolding insert_batch
  insert_batch-IsTree xs t v l c =
      let (t', accepted, err, e, v', c', g) = insert_all-IsTree xs t v c in
      let (u, found, w, led, same_checkpoints) = rebuilt t' v' in
      elim (Bool-cases (t'.tip == t.tip)) [
        | inl same ↦ (
          t',
          accepted,
          err,
          rw (e, same, insert_batch) refl,
          v',
          still-Led t t' v v' g (ground arith) l,
          c',
        )
        | inr moved ↦ (
          u,
          accepted,
          err,
          rw (e, moved, found, insert_batch) refl,
          w,
          led,
          same_checkpoints ∙ c',
        )
      ]
