-- ===== src/Session/State.antt =====
-- `Connection` of observer/src/protocol.rs with the header tree that it shares, and its handlers as
-- state-passing functions that can end the session. A handler reads the clocks once: `instant` does
-- not go back, `unix_ms` is the time of the system, both in milliseconds. What the session does is
-- kept in order in `effects`. The socket takes `room` messages more; the write after them fails,
-- which ends the session.
use p2p_observer.Common.{ℕ, zero, suc, Bool, false, List, [], ◌∷◌, ◌++◌, Option, none, some}
use p2p_observer.HeaderTree.Rejected.{HeaderError}
use p2p_observer.HeaderTree.Tree.{HeaderTree}
use p2p_observer.PeerAddr.{PeerAddr}
use p2p_observer.Session.Bucket.{F64, Bucket, addr_burst, getheaders_burst}
use p2p_observer.Session.Messages.{Effect, Sent, Event, sent, published}
use p2p_observer.Session.Stats.{ConnectionStats, new_stats}

pub record Clock : Type 0 where
  pub instant : ℕ
  pub unix_ms : ℕ

pub record Connection (Header : Type 0) : Type 0 where
  pub addr : PeerAddr
  pub addr_bucket : Bucket
  pub getheaders_bucket : Bucket
  pub getaddr_outstanding : Bool
  pub stats : ConnectionStats
  pub sync_headers : Bool
  pub asked_for : Option ℕ
  pub probe_compact_blocks : Bool
  pub header_tree : HeaderTree Header
  pub room : ℕ
  pub effects : List (Effect Header)

-- Why a session ended: the sentinel errors, and a failed write.
pub data Error : Type 0 where
  sync_complete write_failed : Error
  other_chain : HeaderError → Error
  -- The time that the peer owed an answer.
  timed_out : ℕ → Error
  -- The number of items over the protocol's limit.
  protocol_violation : ℕ → Error

pub data Result {ℓ} (S : Type ℓ) (A : Type ℓ) : Type ℓ where
  ok : A → S → Result S A
  ended : Error → S → Result S A
  -- The tree's `expect` or index failed.
  panicked : Result S A

abbrev pub and_then {ℓ} : {S A B : Type ℓ} → Result S A → (A → S → Result S B) → Result S B
and_then (ok a s) f = f a s
and_then (ended e s) f = ended e s
and_then panicked f = panicked

abbrev pub Handler : Type 0 → Type 0 → Type 0
Handler Header A = Connection Header → Result (Connection Header) A

module _ {Header : Type 0} where
  infixl 1 ◌>>=◌ ◌>>◌
  abbrev pub ◌>>=◌ : {A B : Type 0} → Handler Header A → (A → Handler Header B) → Handler Header B
  m >>= f = λ s. and_then (m s) λ a s'. f a s'

  abbrev pub ◌>>◌ : {A B : Type 0} → Handler Header A → Handler Header B → Handler Header B
  m >> n = m >>= λ _. n

  abbrev pub pure : {A : Type 0} → A → Handler Header A
  pure a = λ s. ok a s

  abbrev pub done : Handler Header Unit
  done = pure tt

  abbrev pub fail : {A : Type 0} → Error → Handler Header A
  fail e = λ s. ended e s

  abbrev pub gets : {A : Type 0} → (Connection Header → A) → Handler Header A
  gets f = λ s. ok (f s) s

  abbrev pub update : (Connection Header → Connection Header) → Handler Header Unit
  update f = λ s. ok tt (f s)

  -- A result of the tree, which may panic.
  abbrev pub expect : {A : Type 0} → (Connection Header → Option A) → Handler Header A
  expect f = λ s. elim (f s) [ none ↦ panicked | some a ↦ ok a s ]

  abbrev pub note : Effect Header → Connection Header → Connection Header
  note e s = record s { effects = s.effects ++ e ∷ [] }

  unfoldable pub emit_event : Event → Handler Header Unit
  emit_event e = update (note (published e))

  -- The failed write takes no room.
  abbrev pub write : ℕ → Sent Header → Handler Header Unit
  write zero msg = fail write_failed
  write (suc room) msg = update λ s. record (note (sent msg) s) { room = room }

  -- `writer.send(msg).await?`.
  unfoldable pub send : Sent Header → Handler Header Unit
  send msg = λ s. write s.room msg s

-- A connection as `run_session` sets it up.
unfoldable pub new_connection :
    {Header : Type 0} → F64 → ℕ → PeerAddr → Bool → Bool → ℕ → HeaderTree Header → Connection Header
unfolding addr_burst getheaders_burst new_stats
new_connection f now peer syncs probes room t = record {
  addr = peer;
  addr_bucket = record { tokens = addr_burst f; updated = now };
  getheaders_bucket = record { tokens = getheaders_burst f; updated = now };
  getaddr_outstanding = false;
  stats = new_stats now;
  sync_headers = syncs;
  asked_for = none;
  probe_compact_blocks = probes;
  header_tree = t;
  room = room;
  effects = [];
}
