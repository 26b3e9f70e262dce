-- ===== src/Session/Stats/Window.antt =====
-- The bounds on what a session of observer/src/protocol.rs remembers of its peer.
use p2p_observer.Common.{
  ℕ, ◌+◌, ◌≤◌, ◌<◌, ◌^◌, ◌≡◌, refl, sym, subst, List, [], ◌∷◌, some, arith, length, length-append,
  Option-cases, inl, inr, Bool-cases, ltb,
}
use p2p_observer.Common.Map.{
  has, IsMap, insert-IsMap, modify-IsMap, length-modify, length-insert-le,
}
use p2p_observer.Session.Stats.{
  ConnectionStats, Command, Command-discrete, push_back, claim, claim_pong, record_ping, record_rtt,
  record_message, new_stats, inc,
}

-- The windows and the map of commands are within their limits, the counters within `u32`.
pub record IsStats (s : ConnectionStats) : Type 0 where
  pub rtt_short : length s.rtt_history ≤ 10
  pub pings_short : length s.outstanding_pings ≤ 10
  pub commands_IsMap : IsMap Command-discrete s.messages_by_command
  pub commands_short : length s.messages_by_command ≤ 64
  pub other_lt : s.messages_other < 2 ^ 32
  pub pongs_lt : s.unsolicited_pongs < 2 ^ 32

length-push_back :
    (limit x : ℕ) (xs : List ℕ) → length xs ≤ limit → length (push_back limit x xs) ≤ limit
unfolding push_back
length-push_back limit x [] h = ground arith
length-push_back limit x (y ∷ ys) h = ground (arith, length-append ys (x ∷ []))

length-claim : (nonce : ℕ) (xs ys : List ℕ) → claim nonce xs ≡ some ys → length ys + 1 ≡ length xs
unfolding claim
length-claim nonce [] ys h = absurd (cc)
length-claim nonce (x ∷ xs) ys h = elim (Option-cases (claim nonce xs)) [
  | inl e ↦ ground arith
  | inr (rest, e) ↦ ground (arith, length-claim nonce xs rest e)
]

pub new_stats-IsStats : (now : ℕ) → IsStats (new_stats now)
unfolding new_stats
new_stats-IsStats now = record {
  rtt_short = omega arith;
  pings_short = omega arith;
  commands_IsMap = tt;
  commands_short = omega arith;
  other_lt = omega arith;
  pongs_lt = omega arith;
}

pub record_ping-IsStats :
    (nonce : ℕ) (s : ConnectionStats) → IsStats s → IsStats (record_ping nonce s)
unfolding record_ping
record_ping-IsStats nonce s v = record {
  rtt_short = v.rtt_short;
  pings_short = length-push_back 10 nonce s.outstanding_pings v.pings_short;
  commands_IsMap = v.commands_IsMap;
  commands_short = v.commands_short;
  other_lt = v.other_lt;
  pongs_lt = v.pongs_lt;
}

pub record_rtt-IsStats :
    (rtt_ms : ℕ) (s : ConnectionStats) → IsStats s → IsStats (record_rtt rtt_ms s)
unfolding record_rtt
record_rtt-IsStats rtt_ms s v = record {
  rtt_short = length-push_back 10 rtt_ms s.rtt_history v.rtt_short;
  pings_short = v.pings_short;
  commands_IsMap = v.commands_IsMap;
  commands_short = v.commands_short;
  other_lt = v.other_lt;
  pongs_lt = v.pongs_lt;
}

commands-claim_pong :
    (now nonce : ℕ) (s : ConnectionStats)
    → (claim_pong now nonce s).0.messages_by_command ≡ s.messages_by_command
unfolding claim_pong
commands-claim_pong now nonce s = elim (Option-cases (claim nonce s.outstanding_pings)) [
  | inl e ↦ rw (e, claim_pong) refl
  | inr (rest, e) ↦ rw (e, claim_pong) refl
]

pub claim_pong-IsStats :
    (now nonce : ℕ) (s : ConnectionStats) → IsStats s → IsStats (claim_pong now nonce s).0
unfolding claim_pong
claim_pong-IsStats now nonce s v = record {
  rtt_short = ground (arith, v.rtt_short);
  pings_short = elim (Option-cases (claim nonce s.outstanding_pings)) [
    | inl e ↦ ground (arith, v.pings_short)
    | inr (rest, e) ↦ ground (arith, v.pings_short, length-claim nonce s.outstanding_pings rest e)
  ];
  commands_IsMap =
      subst (IsMap Command-discrete) (sym (commands-claim_pong now nonce s)) v.commands_IsMap;
  commands_short = ground (arith, v.commands_short);
  other_lt = ground (arith, v.other_lt);
  pongs_lt = ground (arith, v.pongs_lt);
}

pub record_message-IsStats :
    (command : Command) (s : ConnectionStats) → IsStats s → IsStats (record_message command s)
unfolding record_message
record_message-IsStats command s v =
    let m = s.messages_by_command in
    elim (Bool-cases (has Command-discrete command m)) [
      | inl known ↦ rw known (record {
        rtt_short = v.rtt_short;
        pings_short = v.pings_short;
        commands_IsMap = modify-IsMap Command-discrete command inc m v.commands_IsMap;
        commands_short =
            omega (arith, length-modify Command-discrete command inc m, v.commands_short);
        other_lt = v.other_lt;
        pongs_lt = v.pongs_lt;
      })
      | inr new ↦ elim (Bool-cases (ltb (length m) 64)) [
        | inl room ↦
            rw (new, room)
              (record {
                rtt_short = v.rtt_short;
                pings_short = v.pings_short;
                commands_IsMap = insert-IsMap Command-discrete command 1 m v.commands_IsMap;
                commands_short = ground (arith, length-insert-le Command-discrete command 1 m);
                other_lt = v.other_lt;
                pongs_lt = v.pongs_lt;
              })
        | inr full ↦
            rw (new, full)
              (record {
                rtt_short = v.rtt_short;
                pings_short = v.pings_short;
                commands_IsMap = v.commands_IsMap;
                commands_short = v.commands_short;
                other_lt = omega arith;
                pongs_lt = v.pongs_lt;
              })
      ]
    ]
