-- ===== src/HeaderTree/Rejected.antt =====
-- The refusals that observer/src/headertree.rs remembers: `rejected`, `rejected_order` and
-- `rejected_seq` of `HeaderTree`. A block hash is a number.
pub mod Balance
pub mod Bounded
use p2p_observer.Common.{
  ℕ, zero, suc, ◌+◌, ◌%◌, ◌^◌, Bool, true, false, List, [], ◌∷◌, Option, none, some, ltb,
  if◌then◌else◌, length, ℕ_discrete,
}
use p2p_observer.Common.Map.{get, has, insert, remove, modify}

abbrev pub rejected_remembered : ℕ
rejected_remembered = 8192

pub data HeaderError : Type 0 where
  orphan_header weaker_chain invalid_pow target_too_easy : HeaderError
  checkpoint_mismatch fork_below_checkpoint : HeaderError

unfoldable pub is_other_chain : HeaderError → Bool
is_other_chain orphan_header = false
is_other_chain weaker_chain = true
is_other_chain invalid_pow = true
is_other_chain target_too_easy = true
is_other_chain checkpoint_mismatch = true
is_other_chain fork_below_checkpoint = true

pub record Refusals : Type 0 where
  pub held : List (ℕ × (HeaderError × ℕ))
  -- By sequence number: the smallest is the oldest.
  pub order : List (ℕ × ℕ)
  pub seq : ℕ

unfoldable pub no_refusals : Refusals
no_refusals = record { held = []; order = []; seq = 0 }

-- `next_rejected_seq`, which wraps.
abbrev pub next_seq : Refusals → ℕ
next_seq r = (r.seq + 1) % 2 ^ 64

-- `rejected_order.iter().next()`.
unfoldable pub oldest : List (ℕ × ℕ) → Option (ℕ × ℕ)
oldest [] = none
oldest ((s, h) ∷ m) = elim (oldest m) [
  | none ↦ some (s, h)
  | some (s', h') ↦ (if ltb s' s then some (s', h') else some (s, h))
]

-- `while self.rejected.len() > REJECTED_REMEMBERED`: each round takes an entry out of `order`, so
-- its length is fuel enough.
unfoldable pub trim : ℕ → Refusals → Refusals
trim zero r = r
trim (suc fuel) r =
    let next : Refusals = elim (oldest r.order) [
      | none ↦ r
      | some (s, h) ↦
          trim fuel
            (record r { order = remove ℕ_discrete s r.order; held = remove ℕ_discrete h r.held })
    ] in
    if ltb rejected_remembered (length r.held) then next else r

abbrev pub add_refusal : ℕ → HeaderError → Refusals → Refusals
add_refusal hash reason r = record {
  held = insert ℕ_discrete hash (reason, next_seq r) r.held;
  order = insert ℕ_discrete (next_seq r) hash r.order;
  seq = next_seq r;
}

unfoldable pub remember_rejected : ℕ → HeaderError → Refusals → Refusals
remember_rejected hash reason r =
    if has ℕ_discrete hash r.held
    then r
    else trim (length (add_refusal hash reason r).order) (add_refusal hash reason r)

unfoldable pub touch_rejected : ℕ → Refusals → Refusals
touch_rejected hash r = elim (get ℕ_discrete hash r.held) [
  | none ↦ record r { seq = next_seq r }
  | some (reason, previous) ↦ record {
    held = modify ℕ_discrete hash (λ x. (x.0, next_seq r)) r.held;
    order = insert ℕ_discrete (next_seq r) hash (remove ℕ_discrete previous r.order);
    seq = next_seq r;
  }
]

unfoldable pub rejection_of : ℕ → Refusals → Option HeaderError
rejection_of hash r = elim (get ℕ_discrete hash r.held) [
  | none ↦ none
  | some (reason, _) ↦ some reason
]
