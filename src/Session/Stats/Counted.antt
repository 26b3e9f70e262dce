-- ===== src/Session/Stats/Counted.antt =====
-- That every message which a session of observer/src/protocol.rs receives is counted.
use p2p_observer.Common.{
  ℕ, ◌+◌, ◌-◌, ◌<◌, ◌^◌, ◌≡◌, refl, ◌↔◌, true, false, List, [], ◌∷◌, some, none, arith, length,
  Option-cases, inl, inr, ◌==◌,
}
use p2p_observer.Common.Map.{get, insert, modify, length-modify, length-insert_new}
use p2p_observer.Session.Stats.{
  ConnectionStats, Command, Command-discrete, record_message, new_stats, inc, counters, sum_values,
  silent,
}

-- The messages of a session, in order.
unfoldable pub record_all : List Command → ConnectionStats → ConnectionStats
record_all [] s = s
record_all (c ∷ cs) s = record_all cs (record_message c s)

sum_values-insert :
    (c : Command) (m : List (Command × ℕ))
    → get Command-discrete c m ≡ none
    → sum_values (insert Command-discrete c 1 m) ≡ sum_values m + 1
unfolding get insert
sum_values-insert c [] h = omega arith
sum_values-insert c ((d, n) ∷ m) h = ground (arith, sum_values-insert c m)

sum_values-modify :
    (c : Command) (m : List (Command × ℕ)) (k : ℕ)
    → get Command-discrete c m ≡ some k
    → sum_values m < 2 ^ 32 - 1
    → sum_values (modify Command-discrete c inc m) ≡ sum_values m + 1
unfolding get modify
sum_values-modify c [] k h lt = absurd (cc)
sum_values-modify c ((d, n) ∷ m) k h lt = ground (arith, sum_values-modify c m k)

counters-record_message :
    (c : Command) (s : ConnectionStats)
    → (counters s).messages < 2 ^ 32 - 1
    → (counters (record_message c s)).messages ≡ (counters s).messages + 1
unfolding counters record_message
counters-record_message c s lt =
    elim (Option-cases (get Command-discrete c s.messages_by_command)) [
      | inl e ↦ ground (arith, sum_values-insert c s.messages_by_command e)
      | inr (k, e) ↦ ground (arith, sum_values-modify c s.messages_by_command k e)
    ]

-- A session that has received n messages, with any commands, n below 2^32, reports n messages to
-- the registry: the cap on the number of commands loses none.
pub counters-record_all :
    (cs : List Command) (s : ConnectionStats)
    → (counters s).messages + length cs < 2 ^ 32
    → (counters (record_all cs s)).messages ≡ (counters s).messages + length cs
unfolding record_all
counters-record_all [] s lt = omega arith
counters-record_all (c ∷ cs) s lt =
    ground (arith, counters-record_message c s, counters-record_all cs (record_message c s))

held :
    (c : Command) (m : List (Command × ℕ)) (k : ℕ)
    → get Command-discrete c m ≡ some k
    → 0 < length m
unfolding get
held c [] k h = absurd (cc)
held c (x ∷ m) k h = omega arith

commands_kept :
    (c : Command) (s : ConnectionStats) → 0 < length (record_message c s).messages_by_command
unfolding record_message get
commands_kept c s = elim (Option-cases (get Command-discrete c s.messages_by_command)) [
  | inl e ↦ ground (arith, length-insert_new Command-discrete c 1 s.messages_by_command e)
  | inr (k, e) ↦ ground (
    arith,
    length-modify Command-discrete c inc s.messages_by_command,
    held c s.messages_by_command k e,
  )
]

heard :
    (m : List (Command × ℕ)) (n : ℕ)
    → 0 < length m
    → (elim m [ [] ↦ n == 0 | _ ∷ _ ↦ false ]) ≡ false
heard [] n h = absurd (omega arith)
heard (x ∷ m) n h = refl

silent-record_message : (c : Command) (s : ConnectionStats) → silent (record_message c s) ≡ false
unfolding silent
silent-record_message c s =
    heard (record_message c s).messages_by_command (record_message c s).messages_other
      (commands_kept c s)

still_heard :
    (cs : List Command) (s : ConnectionStats) → silent s ≡ false → silent (record_all cs s) ≡ false
unfolding record_all
still_heard [] s h = h
still_heard (c ∷ cs) s h = still_heard cs (record_message c s) (silent-record_message c s)

-- A session is silent exactly if it received no message.
silent-record_all :
    (now : ℕ) (cs : List Command) → (silent (record_all cs (new_stats now)) ≡ true) ↔ (cs ≡ [])
unfolding record_all new_stats silent
silent-record_all now [] = (λ _. refl, λ _. refl)
silent-record_all now (c ∷ cs) = (
  λ h. absurd (
      cc (
        h,
        still_heard cs (record_message c (new_stats now)) (silent-record_message c (new_stats now)),
      )),
  λ h. absurd (cc h),
)
