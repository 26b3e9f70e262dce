-- ===== src/Session/Stats.antt =====
-- `ConnectionStats` and `SessionEnd::silent` of observer/src/protocol.rs: what a session counts of
-- its peer. Times are milliseconds of a clock that does not go back, counters `u32`.
pub mod Claims
pub mod Counted
pub mod Window
use p2p_observer.Common.{
  ℕ, suc, ◌+◌, ◌-◌, ◌*◌, ◌^◌, min, Bool, true, false, not, ◌&&◌, List, [], ◌∷◌, ◌++◌, Option, none,
  some, ltb, leb, ◌==◌, if◌then◌else◌, length, ℕ_discrete,
}
use p2p_observer.Common.Map.{has, insert, modify}

-- The characters of a command.
abbrev pub Command : Type 0
Command = List ℕ

unfoldable pub Command-discrete : Discrete Command
Command-discrete = hlevel ℕ_discrete

abbrev pub outstanding_pings_kept : ℕ
outstanding_pings_kept = 10

abbrev pub rtt_history_kept : ℕ
rtt_history_kept = 10

abbrev pub ping_timeout : ℕ
ping_timeout = 20 * 60 * 1000

abbrev pub messages_by_command_cap : ℕ
messages_by_command_cap = 64

-- `saturating_add(1)` on `u32`.
abbrev pub inc : ℕ → ℕ
inc n = min (n + 1) 4294967295

pub record ConnectionStats : Type 0 where
  pub rtt_history : List ℕ
  pub outstanding_pings : List ℕ
  pub unsolicited_pongs : ℕ
  pub getheaders_ignored : ℕ
  pub last_pong : ℕ
  pub messages_by_command : List (Command × ℕ)
  pub messages_other : ℕ

unfoldable pub new_stats : ℕ → ConnectionStats
new_stats now = record {
  rtt_history = [];
  outstanding_pings = [];
  unsolicited_pongs = 0;
  getheaders_ignored = 0;
  last_pong = now;
  messages_by_command = [];
  messages_other = 0;
}

abbrev tail : List ℕ → List ℕ
tail [] = []
tail (x ∷ xs) = xs

-- `push_back`, and `pop_front` over the limit.
unfoldable pub push_back : ℕ → ℕ → List ℕ → List ℕ
push_back limit x xs =
    let pushed = xs ++ x ∷ [] in if ltb limit (length pushed) then tail pushed else pushed

unfoldable pub record_ping : ℕ → ConnectionStats → ConnectionStats
unfolding push_back
record_ping nonce s = record s {
  outstanding_pings = push_back outstanding_pings_kept nonce s.outstanding_pings;
}

-- `iter().position(|n| *n == nonce)` and the list without that position.
unfoldable pub claim : ℕ → List ℕ → Option (List ℕ)
claim nonce [] = none
claim nonce (n ∷ ns) =
    if n == nonce
    then some ns
    else elim (claim nonce ns) [ none ↦ none | some rest ↦ some (n ∷ rest) ]

unfoldable pub claim_pong : ℕ → ℕ → ConnectionStats → ConnectionStats × Bool
unfolding claim
claim_pong now nonce s = elim (claim nonce s.outstanding_pings) [
  | some rest ↦ (record s { outstanding_pings = rest; last_pong = now }, true)
  | none ↦ (record s { unsolicited_pongs = inc s.unsolicited_pongs }, false)
]

abbrev pub is_empty : List ℕ → Bool
is_empty [] = true
is_empty (x ∷ xs) = false

unfoldable pub ping_timed_out : ℕ → ConnectionStats → Option ℕ
ping_timed_out now s =
    let waited = now - s.last_pong in
    if not (is_empty s.outstanding_pings) && leb ping_timeout waited then some waited else none

unfoldable pub record_message : Command → ConnectionStats → ConnectionStats
record_message command s =
    if has Command-discrete command s.messages_by_command
    then record s {
      messages_by_command = modify Command-discrete command inc s.messages_by_command;
    }
    else if ltb (length s.messages_by_command) messages_by_command_cap
    then record s { messages_by_command = insert Command-discrete command 1 s.messages_by_command }
    else record s { messages_other = inc s.messages_other }

-- `values().sum()`.
abbrev pub sum_values : List (Command × ℕ) → ℕ
sum_values [] = 0
sum_values ((c, n) ∷ m) = n + sum_values m

abbrev pub back : List ℕ → Option ℕ
back [] = none
back (x ∷ []) = some x
back (x ∷ y ∷ ys) = back (y ∷ ys)

-- `iter().min()`.
abbrev pub smallest : List ℕ → Option ℕ
smallest [] = none
smallest (x ∷ xs) = elim (smallest xs) [ none ↦ some x | some y ↦ some (min x y) ]

pub record Counters : Type 0 where
  pub messages : ℕ
  pub unsolicited_pongs : ℕ
  pub rtt_ms : Option ℕ
  pub min_rtt_ms : Option ℕ

unfoldable pub counters : ConnectionStats → Counters
counters s = record {
  messages = sum_values s.messages_by_command + s.messages_other;
  unsolicited_pongs = s.unsolicited_pongs;
  rtt_ms = back s.rtt_history;
  min_rtt_ms = smallest s.rtt_history;
}

unfoldable pub record_rtt : ℕ → ConnectionStats → ConnectionStats
unfolding push_back
record_rtt rtt_ms s = record s { rtt_history = push_back rtt_history_kept rtt_ms s.rtt_history }

-- `SessionEnd::silent`, of the two counts that it reads.
unfoldable pub silent : ConnectionStats → Bool
silent s = elim s.messages_by_command [ [] ↦ s.messages_other == 0 | _ ∷ _ ↦ false ]
