-- ===== src/Book/Outcomes/Hint.antt =====
-- What is learned about a peer's transport, and when it is unlearned.
use p2p_observer.Common.{ℕ, ◌≡◌, ◌≢◌, false, not, ◌&&◌, ◌==◌, if◌then◌else◌, arith}
use p2p_observer.Float.{F32}
use p2p_observer.Policy.{Outcome, failed, disconnected, other_chain, violated, our_fault}
use p2p_observer.Book.Entry.{
  Entry, hint_unknown, hint_v2, hint_v1_only, advertises_v2, after_handshake, refreshed, counted,
  after_end,
}
use p2p_observer.Book.Outcomes.{v1_only}

-- Gossip, a handshake, a v1-only report and an end each leave a v2 verdict as it is.
pub hint_v2_stays :
    (f : F32) (e : Entry) (now services version r : ℕ) (outcome : Outcome)
    → e.transport ≡ hint_v2
    → ((refreshed now services e).transport ≡ hint_v2)
      × ((after_handshake now services version e).transport ≡ hint_v2)
      × ((v1_only e).transport ≡ hint_v2)
      × ((after_end f now r outcome e).transport ≡ hint_v2)
unfolding refreshed after_handshake after_end counted
hint_v2_stays f e now services version r (our_fault _) h = ground arith
hint_v2_stays f e now services version r (failed _) h = ground arith
hint_v2_stays f e now services version r other_chain h = ground arith
hint_v2_stays f e now services version r violated h = ground arith
hint_v2_stays f e now services version r (disconnected _ _) h = ground arith

-- A v1-only verdict stays through failures, through a later v1-only report, and through a v1
-- handshake unless the peer has begun to advertise v2; gossip takes it back exactly when the
-- services have changed to ones that advertise v2.
hint_v1_stays :
    (f : F32) (e : Entry) (now services version r : ℕ) (outcome : Outcome)
    → e.transport ≡ hint_v1_only
    → version ≢ 2
    → (advertises_v2 services && not (advertises_v2 e.services)) ≡ false
    → ((after_handshake now services version e).transport ≡ hint_v1_only)
      × ((v1_only e).transport ≡ hint_v1_only)
      × ((after_end f now r outcome e).transport ≡ hint_v1_only)
      × ((refreshed now services e).transport ≡ (
          if not (services == e.services) && advertises_v2 services
          then hint_unknown
          else hint_v1_only))
unfolding refreshed after_handshake after_end counted
hint_v1_stays f e now services version r (our_fault _) h k u = ground arith
hint_v1_stays f e now services version r (failed _) h k u = ground arith
hint_v1_stays f e now services version r other_chain h k u = ground arith
hint_v1_stays f e now services version r violated h k u = ground arith
hint_v1_stays f e now services version r (disconnected _ _) h k u = ground arith
