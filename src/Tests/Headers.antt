-- ===== src/Tests/Headers.antt =====
-- Refusals that are remembered, requests for a missing block, batches of headers, and locators.
use p2p_observer.Common.{
  ltb, ◌*◌, ℕ, none, some, ◌+◌, ◌-◌, All, Option, length, get_elem?, ◌≤◌, ◌≡◌, refl, true, false,
  List, [], ◌∷◌, arith, ℕ_discrete,
}
use p2p_observer.Common.Map.{get, insert, modify, retain}
use p2p_observer.HeaderTree.Insert.{insert_batch}
use p2p_observer.HeaderTree.Insert.Growth.{IsTree}
use p2p_observer.HeaderTree.Insert.Whole.{Led, insert_batch-IsTree}
use p2p_observer.HeaderTree.Locator.{build_locator, last, start_height, get_headers_from_locator}
use p2p_observer.HeaderTree.Locator.Served.{Held, Run, get_headers_from_locator-Run}
use p2p_observer.HeaderTree.Locator.Short.{OnChain, build_locator_short}
use p2p_observer.HeaderTree.Tree.{Bitcoin, HeaderEntry, HeaderTree, new_tree, rebuild_best_chain}
use p2p_observer.HeaderTree.Tree.Chain.{Linked, ChainTo, genesis, rebuild_best_chain-ChainTo}
use p2p_observer.HeaderTree.Recovery.{Call, asks, granted, asks-granted, recovery_due}
use p2p_observer.HeaderTree.Rejected.{HeaderError, invalid_pow, no_refusals, remember_rejected}
use p2p_observer.HeaderTree.Rejected.Bounded.{IsRefusals, remember_rejected-IsRefusals}

no_refusals-IsRefusals : IsRefusals no_refusals
unfolding no_refusals get
no_refusals-IsRefusals = record {
  balanced = record {
    held_IsMap = tt;
    order_IsMap = tt;
    placed = λ h s reason e. absurd (cc);
    reasoned = λ s h e. absurd (cc);
    drawn = λ s h e. absurd (cc);
    as_long = refl;
  };
  bounded = omega arith;
}

remember_rejected-IsRefusals_example : IsRefusals (remember_rejected 7 invalid_pow no_refusals)
unfolding no_refusals
remember_rejected-IsRefusals_example =
    remember_rejected-IsRefusals 7 invalid_pow no_refusals no_refusals-IsRefusals (omega arith)

-- Four connections miss block 7, and one of them block 8.
abbrev calls : List Call
calls =
    record { missing = 7; proven = false; now = 1000 }
    ∷ record { missing = 7; proven = true; now = 2000 }
    ∷ record { missing = 8; proven = true; now = 2500 }
    ∷ record { missing = 7; proven = false; now = 3000 }
    ∷ record { missing = 7; proven = true; now = 4000 }
    ∷ record { missing = 7; proven = true; now = 5000 }
    ∷ []

calls_granted : (asks calls []).1 ≡ true ∷ true ∷ true ∷ false ∷ true ∷ false ∷ []
unfolding asks recovery_due get retain insert modify ℕ_discrete
calls_granted = refl

asks-granted_example : granted 7 calls (asks calls []).1 ≤ 3
unfolding get
asks-granted_example = asks-granted 7 1000 calls [] tt refl (omega arith)

-- Blocks that are numbers: block n stands on n - 1, and each has a work of one.
abbrev pub numbered : Bitcoin ℕ
numbered = record {
  genesis = 0;
  block_hash = λ n. n;
  prev_blockhash = λ n. n - 1;
  bits = λ n. 7;
  work = λ n. 1;
  target = λ n. 7;
  target_of = λ b. b;
  validate_pow = λ n t. true;
  adjusted = λ a b. 7;
  max_attainable_target = 9;
  allow_min_difficulty_blocks = false;
  difficulty_float = λ t. 1;
  f64_of = λ n. n;
  f64_mul = λ a b. a * b;
  f64_lt = λ a b. ltb a b;
}

pub new_tree-IsTree : IsTree numbered (new_tree numbered)
unfolding new_tree get ℕ_discrete
new_tree-IsTree = record {
  linked = λ hash e below k h. absurd (ground (arith, k));
  top = record { header = 0; height = 0; chain_work = 1 };
  top_held = refl;
  top_height = refl;
  top_work = refl;
  most = λ hash e k. ground (arith, k);
}

pub new_tree-Led : Led numbered (new_tree numbered)
unfolding new_tree get ℕ_discrete
new_tree-Led = (refl, genesis 0 (record { header = 0; height = 0; chain_work = 1 }) refl refl)

-- Block 3 comes before block 2.
insert_batch-IsTree_example :
    (t' : HeaderTree ℕ) × (accepted : ℕ) × (err : Option HeaderError) × (insert_batch numbered
        (1 ∷ 3 ∷ 2 ∷ [])
        (new_tree numbered)
      ≡ some (t', accepted, err))
    × IsTree numbered t'
    × Led numbered t'
    × (t'.checkpoints ≡ [])
unfolding new_tree
insert_batch-IsTree_example =
    insert_batch-IsTree numbered (1 ∷ 3 ∷ 2 ∷ []) (new_tree numbered) new_tree-IsTree new_tree-Led
      refl

-- A tree of three blocks.
abbrev entry_of : ℕ → HeaderEntry ℕ
entry_of n = record { header = n; height = n; chain_work = n + 1 }

abbrev tree : HeaderTree ℕ
tree = record {
  headers = (0, entry_of 0) ∷ (1, entry_of 1) ∷ (2, entry_of 2) ∷ [];
  best_chain = 0 ∷ 1 ∷ 2 ∷ [];
  tip = 2;
  tip_height = 2;
  tip_work = 3;
  dirty = false;
  checkpoints = [];
  reached_checkpoint = none;
  pruned = 0;
  recovery = [];
  refusals = record { held = []; order = []; seq = 0 };
}

tree-Linked : Linked numbered tree.headers
unfolding get
tree-Linked hash e below k h = (entry_of below, ground (arith, k, h), refl)

rebuild_best_chain-ChainTo_example :
    (chain : List ℕ) × (rebuild_best_chain numbered tree
      ≡ some (record tree { best_chain = chain }))
    × (length chain ≡ 3)
    × ChainTo numbered tree.headers 2 chain
unfolding get ℕ_discrete
rebuild_best_chain-ChainTo_example =
    rebuild_best_chain-ChainTo numbered tree (entry_of 2) tree-Linked refl refl

the_locator : build_locator tree ≡ some (2 ∷ 1 ∷ 0 ∷ [])
unfolding build_locator
the_locator = refl

build_locator_short_example :
    (locator : List ℕ) × (build_locator tree ≡ some locator)
    × (length locator ≤ 46)
    × All (OnChain tree.best_chain) locator
    × (get_elem? locator 0 ≡ some 2)
    × (last locator ≡ some 0)
build_locator_short_example = build_locator_short tree 0 2 (omega arith) refl refl

tree-Held : All (Held tree) tree.best_chain
unfolding get ℕ_discrete
tree-Held = ((entry_of 0, refl), ((entry_of 1, refl), ((entry_of 2, refl), tt)))

the_answer : get_headers_from_locator tree (7 ∷ 1 ∷ []) 0 ≡ some (2 ∷ [])
unfolding get_headers_from_locator get ℕ_discrete
the_answer = refl

get_headers_from_locator-Run_example :
    (xs : List ℕ) × (get_headers_from_locator tree (7 ∷ 1 ∷ []) 0 ≡ some xs)
    × (length xs ≤ 2000)
    × (1 ≤ start_height tree (7 ∷ 1 ∷ []))
    × Run tree (start_height tree (7 ∷ 1 ∷ [])) xs
get_headers_from_locator-Run_example =
    get_headers_from_locator-Run tree (7 ∷ 1 ∷ []) 0 tree-Held (omega arith)
