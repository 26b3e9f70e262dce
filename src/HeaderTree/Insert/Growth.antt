-- ===== src/HeaderTree/Insert/Growth.antt =====
-- What a header that is added leaves as it was, and what holds of the tree with it.
use mathlib.Core.Option.{some-injective}
use p2p_observer.Common.{
  ℕ, suc, ◌+◌, ◌≤◌, ◌≡◌, refl, sym, ◌∙◌, ap, ◌⊎◌, List, none, some, arith, Bool-cases, inl, inr,
  ltb, if_pos, if_neg, ℕ_discrete,
}
use p2p_observer.Common.Map.{get, insert, get-insert}
use p2p_observer.HeaderTree.Insert.{new_header_entry, with_header, advance}
use p2p_observer.HeaderTree.Rejected.{Refusals}
use p2p_observer.HeaderTree.Tree.{Bitcoin, HeaderEntry, HeaderTree, Headers}
use p2p_observer.HeaderTree.Tree.Chain.{Linked, ChainTo, genesis, child}

module _ {Header : Type 0} (bc : Bitcoin Header) where
  -- The headers are linked, and the tip is one of those with the most work.
  pub record IsTree (t : HeaderTree Header) : Type 0 where
    pub linked : Linked bc t.headers
    pub top : HeaderEntry Header
    pub top_held : get ℕ_discrete t.tip t.headers ≡ some top
    pub top_height : top.height ≡ t.tip_height
    pub top_work : top.chain_work ≡ t.tip_work
    pub most :
        (hash : ℕ) (e : HeaderEntry Header)
        → get ℕ_discrete hash t.headers ≡ some e
        → e.chain_work ≤ t.tip_work

  pub IsTree-refusals :
      (t : HeaderTree Header) (r : Refusals) → IsTree t → IsTree (record t { refusals = r })
  IsTree-refusals t r v = record {
    linked = v.linked;
    top = v.top;
    top_held = v.top_held;
    top_height = v.top_height;
    top_work = v.top_work;
    most = v.most;
  }

  module _ (m : Headers Header) (hash : ℕ) (new : HeaderEntry Header)
      (absent : get ℕ_discrete hash m ≡ none) where
    get-kept :
        (h : ℕ) (e : HeaderEntry Header)
        → get ℕ_discrete h m ≡ some e
        → get ℕ_discrete h (insert ℕ_discrete hash new m) ≡ some e
    get-kept h e k = elim (ℕ_discrete hash h) [
      | yes p ↦ absurd (cc (p, k, absent))
      | no n ↦ get-insert ℕ_discrete hash h new m ∙ if_neg (ℕ_discrete hash h) n _ _ ∙ k
    ]

    get-new : get ℕ_discrete hash (insert ℕ_discrete hash new m) ≡ some new
    get-new = get-insert ℕ_discrete hash hash new m ∙ if_pos (ℕ_discrete hash hash) refl _ _

    get-inserted :
        (h : ℕ) (e : HeaderEntry Header)
        → get ℕ_discrete h (insert ℕ_discrete hash new m) ≡ some e
        → ((hash ≡ h) × (new ≡ e)) ⊎ (get ℕ_discrete h m ≡ some e)
    get-inserted h e k = elim (ℕ_discrete hash h) [
      | yes p ↦ inl (
        p,
        some-injective new e
            (sym (if_pos (ℕ_discrete hash h) p _ _) ∙ sym (get-insert ℕ_discrete hash h new m) ∙ k),
      )
      | no n ↦
          inr
            (sym (if_neg (ℕ_discrete hash h) n _ _) ∙ sym (get-insert ℕ_discrete hash h new m) ∙ k)
    ]

  -- Headers are only added, and the best chain is left to `rebuild_best_chain`.
  pub record Grows (t u : HeaderTree Header) : Type 0 where
    pub best : u.best_chain ≡ t.best_chain
    pub kept :
        (h : ℕ) (e : HeaderEntry Header)
        → get ℕ_discrete h t.headers ≡ some e
        → get ℕ_discrete h u.headers ≡ some e

  pub Grows-refl : (t : HeaderTree Header) → Grows t t
  Grows-refl t = record { best = refl; kept = λ h e k. k }

  pub Grows-refusals : (t : HeaderTree Header) (r : Refusals) → Grows t (record t { refusals = r })
  Grows-refusals t r = record { best = refl; kept = λ h e k. k }

  pub Grows-trans : (t u w : HeaderTree Header) → Grows t u → Grows u w → Grows t w
  Grows-trans t u w p q = record {
    best = q.best ∙ p.best;
    kept = λ h e k. q.kept h e (p.kept h e k);
  }

  pub ChainTo-Grows :
      (t u : HeaderTree Header)
      → Grows t u
      → (tip : ℕ) (chain : List ℕ) → ChainTo bc t.headers tip chain
      → ChainTo bc u.headers tip chain
  ChainTo-Grows t u g tip _ (genesis _ e k h) = genesis tip e (g.kept tip e k) h
  ChainTo-Grows t u g tip _ (child _ e chain k c) =
      child tip e chain (g.kept tip e k) (ChainTo-Grows t u g (bc.prev_blockhash e.header) chain c)

  pub advance-Grows :
      (t : HeaderTree Header) (x : Header) (parent : HeaderEntry Header)
      → get ℕ_discrete (bc.block_hash x) t.headers ≡ none
      → Grows t (advance bc x (new_header_entry bc x parent) (with_header bc t x parent))
  unfolding advance
  advance-Grows t x parent absent =
      let new = new_header_entry bc x parent in
      let held = get-kept t.headers (bc.block_hash x) new absent in
      elim (Bool-cases (ltb t.tip_work new.chain_work)) [
        | inl more ↦ rw more (record { best = refl; kept = held })
        | inr less ↦ rw less (record { best = refl; kept = held })
      ]

  -- The header that was inserted stands on its parent, and the others as before.
  with_header-Linked :
      (t : HeaderTree Header) (x : Header) (parent : HeaderEntry Header)
      → Linked bc t.headers
      → get ℕ_discrete (bc.block_hash x) t.headers ≡ none
      → get ℕ_discrete (bc.prev_blockhash x) t.headers ≡ some parent
      → Linked bc (with_header bc t x parent).headers
  with_header-Linked t x parent l absent stands h e below k height =
      let new = new_header_entry bc x parent in
      elim (get-inserted t.headers (bc.block_hash x) new absent h e k) [
        | inl (p, q) ↦ (
          parent,
          get-kept t.headers (bc.block_hash x) new absent (bc.prev_blockhash e.header) parent (
              ap (λ (d : HeaderEntry Header). get ℕ_discrete (bc.prev_blockhash d.header) t.headers)
                (sym q)
              ∙ stands),
          suc_inj (ap (λ (d : HeaderEntry Header). d.height) q ∙ height),
        )
        | inr old ↦
            let (d, held, under) = l h e below old height in
            (
              d,
              get-kept t.headers (bc.block_hash x) new absent (bc.prev_blockhash e.header) d held,
              under,
            )
      ]
    where
      suc_inj : {a b : ℕ} → a + 1 ≡ suc b → a ≡ b
      suc_inj e = omega arith

  pub advance-IsTree :
      (t : HeaderTree Header) (x : Header) (parent : HeaderEntry Header)
      → IsTree t
      → get ℕ_discrete (bc.block_hash x) t.headers ≡ none
      → get ℕ_discrete (bc.prev_blockhash x) t.headers ≡ some parent
      → IsTree (advance bc x (new_header_entry bc x parent) (with_header bc t x parent))
  unfolding advance
  advance-IsTree t x parent v absent stands =
      let new = new_header_entry bc x parent in
      let l = with_header-Linked t x parent v.linked absent stands in
      elim (Bool-cases (ltb t.tip_work new.chain_work)) [
        | inl more ↦ rw more (record {
          linked = l;
          top = new;
          top_held = get-new t.headers (bc.block_hash x) new absent;
          top_height = refl;
          top_work = refl;
          most = λ h e k. elim (get-inserted t.headers (bc.block_hash x) new absent h e k) [
            | inl (p, q) ↦ rw (← q) (omega arith)
            | inr old ↦ ground (arith, v.most h e old)
          ];
        })
        | inr less ↦ rw less (record {
          linked = l;
          top = v.top;
          top_held = get-kept t.headers (bc.block_hash x) new absent t.tip v.top v.top_held;
          top_height = v.top_height;
          top_work = v.top_work;
          most = λ h e k. elim (get-inserted t.headers (bc.block_hash x) new absent h e k) [
            | inl (p, q) ↦ rw (← q) (ground arith)
            | inr old ↦ v.most h e old
          ];
        })
      ]
