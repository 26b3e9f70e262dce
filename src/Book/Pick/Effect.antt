-- ===== src/Book/Pick/Effect.antt =====
-- What a pick leaves behind in the book.
use p2p_observer.Common.{ℕ, ◌≡◌, refl, ◌≢◌, List, [], ◌∷◌, Option, some, All, ite, if_pos, ◌∙◌, ap}
use p2p_observer.Common.Map.{get, get-insert, insert-IsMap, modify-IsMap}
use p2p_observer.Float.{F32}
use p2p_observer.Banlist.{BanEntry}
use p2p_observer.PeerAddr.{PeerAddr, PeerAddr-discrete}
use p2p_observer.PeerAddr.Display.{Renderer}
use p2p_observer.Book.Entry.{Dial, EnabledNets, Phase, dialing}
use p2p_observer.Book.Outcomes.{record_dialing}
use p2p_observer.Book.State.{Book, IsBook}
use p2p_observer.Book.Pick.{record_all, pick, dials_of}
use p2p_observer.Book.Pick.Eligible.{Eligible, pick-Eligible}

abbrev pub phase : PeerAddr → Book → Option Phase
phase a b = get PeerAddr-discrete a b.active

pub record_dialing-IsBook :
    (a : PeerAddr) (now : ℕ) (b : Book) → IsBook b → IsBook (record_dialing a now b)
unfolding record_dialing
record_dialing-IsBook a now b v = record {
  entries_IsMap = modify-IsMap PeerAddr-discrete a _ b.entries v.entries_IsMap;
  active_IsMap = insert-IsMap PeerAddr-discrete a dialing b.active v.active_IsMap;
}

phase-record_dialing :
    (a c : PeerAddr) (now : ℕ) (b : Book)
    → phase c (record_dialing a now b) ≡ ite (PeerAddr-discrete a c) (some dialing) (phase c b)
unfolding record_dialing
phase-record_dialing a c now b = get-insert PeerAddr-discrete a c dialing b.active

phase-record_all :
    (ds : List Dial) (c : PeerAddr) (now : ℕ) (b : Book)
    → phase c b ≡ some dialing
    → phase c (record_all ds now b) ≡ some dialing
unfolding record_all
phase-record_all [] c now b h = h
phase-record_all (d ∷ ds) c now b h =
    phase-record_all ds c now (record_dialing d.addr now b)
      (phase-record_dialing d.addr c now b ∙ stays (PeerAddr-discrete d.addr c))
  where
    stays : (q : Dec (d.addr ≡ c)) → ite q (some dialing) (phase c b) ≡ some dialing
    stays (yes p) = refl
    stays (no p) = h

record_all-marks :
    (ds : List Dial) (now : ℕ) (b : Book)
    → All (λ (d : Dial). phase d.addr (record_all ds now b) ≡ some dialing) ds
unfolding record_all
record_all-marks [] now b = tt
record_all-marks (d ∷ ds) now b = (
  phase-record_all ds d.addr now (record_dialing d.addr now b) (
      phase-record_dialing d.addr d.addr now b
      ∙ if_pos (PeerAddr-discrete d.addr d.addr) refl (some dialing) (phase d.addr b)),
  record_all-marks ds now (record_dialing d.addr now b),
)

record_all-IsBook : (ds : List Dial) (now : ℕ) (b : Book) → IsBook b → IsBook (record_all ds now b)
unfolding record_all
record_all-IsBook [] now b v = v
record_all-IsBook (d ∷ ds) now b v =
    record_all-IsBook ds now (record_dialing d.addr now b) (record_dialing-IsBook d.addr now b v)

module _ (f : F32) (r : Renderer) (bans : List BanEntry) (nets : EnabledNets) where
  -- A pick marks every address that it hands out as dialling.
  pub pick-marks :
      (now budget : ℕ) (b : Book)
      → All
          (λ (d : Dial). phase d.addr (pick f r bans nets now budget b).0 ≡ some dialing)
          (pick f r bans nets now budget b).1
  unfolding pick
  pick-marks now budget b = record_all-marks (dials_of f r bans nets now budget b) now _

  pub pick-IsBook :
      (now budget : ℕ) (b : Book) → IsBook b → IsBook (pick f r bans nets now budget b).0
  unfolding pick
  pick-IsBook now budget b v =
      record_all-IsBook (dials_of f r bans nets now budget b) now _
        (record { entries_IsMap = v.entries_IsMap; active_IsMap = v.active_IsMap })

  -- Where no key stands twice in the book, no address is handed out by two picks in a row: what
  -- the first one hands out, the second, at any time and with any budget, does not.
  pub pick_twice :
      (now budget later budget' : ℕ) (b : Book)
      → IsBook b
      → let first = pick f r bans nets now budget b in
        let second = pick f r bans nets later budget' first.0 in
        All (λ (d : Dial). All (λ (e : Dial). e.addr ≢ d.addr) second.1) first.1
  pick_twice now budget later budget' b v =
      let first = pick f r bans nets now budget b in outer first.1 (pick-marks now budget b)
    where
      inner :
          (d : Dial) (es : List Dial)
          → phase d.addr (pick f r bans nets now budget b).0 ≡ some dialing
          → All (Eligible r bans nets later (pick f r bans nets now budget b).0) es
          → All (λ (e : Dial). e.addr ≢ d.addr) es
      inner d [] h k = tt
      inner d (e ∷ es) h ((p, w), k) = (
        (λ q. cc (ap (λ (a : PeerAddr). phase a (pick f r bans nets now budget b).0) q, h, w.idle)),
        inner d es h k,
      )

      outer :
          (ds : List Dial)
          → All (λ (d : Dial). phase d.addr (pick f r bans nets now budget b).0 ≡ some dialing) ds
          → All
              (λ (d : Dial).
                All
                  (λ (e : Dial). e.addr ≢ d.addr)
                  (pick f r bans nets later budget' (pick f r bans nets now budget b).0).1)
              ds
      outer [] h = tt
      outer (d ∷ ds) h = (
        inner d _ h.0 (pick-Eligible r bans nets later f budget' _ (pick-IsBook now budget b v)),
        outer ds h.1,
      )
