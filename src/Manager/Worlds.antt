-- ===== src/Manager/Worlds.antt =====
-- The manager beside the connection tasks: what may happen next, and what holds throughout.
use p2p_observer.Common.{
  ℕ, ◌≡◌, refl, sym, ◌≢◌, ◌∙◌, Bool, true, false, List, [], ◌∷◌, Option, none, some, arith, All,
  ite, if◌then◌else◌, if_neg,
}
use p2p_observer.Common.Map.{has, get-insert}
use p2p_observer.Float.{F32}
use p2p_observer.PeerAddr.{PeerAddr, PeerAddr-discrete}
use p2p_observer.PeerAddr.Display.{Renderer}
use p2p_observer.Policy.{Outcome}
use p2p_observer.Book.Entry.{Dial, Gossiped, dialing}
use p2p_observer.Book.Outcomes.{record_dialing}
use p2p_observer.Book.Pick.{record_all}
use p2p_observer.Book.Pick.Apart.{Unique, Apart}
use p2p_observer.Book.State.{Book, IsBook}
use p2p_observer.Manager.{
  Manager, Lifecycle, connected, v1_only, ended, Command, dial_timer, life, gossip, command, handle,
}

-- Addresses of the tasks that run.
abbrev pub mem : PeerAddr → List PeerAddr → Bool
mem a [] = false
mem a (x ∷ xs) = ite (PeerAddr-discrete x a) true (mem a xs)

-- The task that ends is the first for its address.
abbrev pub drop_task : PeerAddr → List PeerAddr → List PeerAddr
drop_task a [] = []
drop_task a (x ∷ xs) = ite (PeerAddr-discrete x a) xs (x ∷ drop_task a xs)

abbrev pub with_dials : List Dial → List PeerAddr → List PeerAddr
with_dials [] ts = ts
with_dials (d ∷ ds) ts = with_dials ds (d.addr ∷ ts)

-- No two tasks for one address.
abbrev pub Exclusive : List PeerAddr → Type 0
Exclusive [] = Unit
Exclusive (x ∷ xs) = (mem x xs ≡ false) × Exclusive xs

-- The manager beside the tasks. A task reports while it runs, and its guard reports its end once.
pub record World : Type 0 where
  pub manager : Manager
  pub tasks : List PeerAddr

-- An attempt of the bootstrap (`bootstrap_attempt` of connection.rs), whose reports wait in the
-- queue when the manager starts: whether it fell back to v1, the services and the transport of the
-- handshake if there was one, and the outcome.
pub record Seed : Type 0 where
  pub addr : PeerAddr
  pub reported_v1 : Bool
  pub handshake : Option (ℕ × ℕ)
  pub outcome : Outcome

abbrev pub v1_reports : Seed → List Lifecycle
v1_reports s = if s.reported_v1 then v1_only s.addr ∷ [] else []

abbrev pub connected_reports : Seed → List Lifecycle
connected_reports s = elim s.handshake [
  | none ↦ []
  | some (services, version) ↦ connected s.addr services version ∷ []
]

module _ (f : F32) (r : Renderer) where
  unfoldable pub run_reports : ℕ → List Lifecycle → Manager → Manager
  run_reports now [] m = m
  run_reports now (msg ∷ msgs) m = run_reports now msgs (handle f r now (life msg) m).0

  -- The reports of a seed, in their order.
  abbrev pub run_seed : ℕ → Seed → Manager → Manager
  run_seed now s m =
      let after_v1 = run_reports now (v1_reports s) m in
      let after_connect = run_reports now (connected_reports s) after_v1 in
      (handle f r now (life (ended s.addr s.outcome)) after_connect).0

  pub data Step (w : World) : World → Type 0 where
    dials :
        (now : ℕ)
        → Step w (record {
          manager = (handle f r now dial_timer w.manager).0;
          tasks = with_dials (handle f r now dial_timer w.manager).1 w.tasks;
        })
    reports_connected :
        (now : ℕ) (a : PeerAddr) (services version : ℕ)
        → mem a w.tasks ≡ true
        → Step w (record w {
          manager = (handle f r now (life (connected a services version)) w.manager).0;
        })
    reports_v1_only :
        (now : ℕ) (a : PeerAddr)
        → Step w (record w { manager = (handle f r now (life (v1_only a)) w.manager).0 })
    reports_end :
        (now : ℕ) (a : PeerAddr) (outcome : Outcome)
        → mem a w.tasks ≡ true
        → Step w (record {
          manager = (handle f r now (life (ended a outcome)) w.manager).0;
          tasks = drop_task a w.tasks;
        })
    hears :
        (now : ℕ) (gs : List Gossiped)
        → Step w (record w { manager = (handle f r now (gossip gs) w.manager).0 })
    -- The reports that wait are handled in one pass over the queue, a second before the first dial.
    boots :
        (now : ℕ) (s : Seed)
        → w.tasks ≡ []
        → Step w (record w { manager = run_seed now s w.manager })
    serves :
        (now : ℕ) (cmd : Command) (save_failed : Bool)
        → Step w (record w { manager = (handle f r now (command cmd save_failed) w.manager).0 })

  pub data Reach (w : World) : World → Type 0 where
    here : Reach w w
    next : {x y : World} → Reach w x → Step x y → Reach w y

-- The book is well-formed, no address has two tasks, and the active set is the set of the tasks.
pub record Coherent (w : World) : Type 0 where
  pub valid : IsBook w.manager.book
  pub exclusive : Exclusive w.tasks
  pub same : (a : PeerAddr) → has PeerAddr-discrete a w.manager.book.active ≡ mem a w.tasks

pub has-record_dialing :
    (c a : PeerAddr) (now : ℕ) (b : Book) (ts : List PeerAddr)
    → has PeerAddr-discrete a b.active ≡ mem a ts
    → has PeerAddr-discrete a (record_dialing c now b).active ≡ mem a (c ∷ ts)
unfolding record_dialing
has-record_dialing c a now b ts h =
    ground (arith, get-insert PeerAddr-discrete c a dialing b.active)

pub has-record_all :
    (ds : List Dial) (a : PeerAddr) (now : ℕ) (b : Book) (ts : List PeerAddr)
    → has PeerAddr-discrete a b.active ≡ mem a ts
    → has PeerAddr-discrete a (record_all ds now b).active ≡ mem a (with_dials ds ts)
unfolding record_all
has-record_all [] a now b ts h = h
has-record_all (d ∷ ds) a now b ts h =
    has-record_all ds a now (record_dialing d.addr now b) (d.addr ∷ ts)
      (has-record_dialing d.addr a now b ts h)

-- Different addresses that no task has can all be given to tasks.
pub Exclusive-with_dials :
    (ds : List Dial) (ts : List PeerAddr)
    → Unique ds
    → All (λ (d : Dial). mem d.addr ts ≡ false) ds
    → Exclusive ts
    → Exclusive (with_dials ds ts)
Exclusive-with_dials [] ts u h e = e
Exclusive-with_dials (d ∷ ds) ts u h e =
    Exclusive-with_dials ds (d.addr ∷ ts) u.1 (still ds u.0 h.1) (h.0, e)
  where
    still :
        (xs : List Dial)
        → All (Apart d) xs
        → All (λ (x : Dial). mem x.addr ts ≡ false) xs
        → All (λ (x : Dial). mem x.addr (d.addr ∷ ts) ≡ false) xs
    still [] p q = tt
    still (x ∷ xs) p q = (
      if_neg (PeerAddr-discrete d.addr x.addr) (λ e. p.0 (sym e)) true (mem x.addr ts) ∙ q.0,
      still xs p.1 q.1,
    )

pub mem-drop_task_ne :
    (a c : PeerAddr) (ts : List PeerAddr) → a ≢ c → mem c (drop_task a ts) ≡ mem c ts
mem-drop_task_ne a c [] n = refl
mem-drop_task_ne a c (x ∷ ts) n = ground (arith, mem-drop_task_ne a c ts n)

pub drop_task-Exclusive :
    (a : PeerAddr) (ts : List PeerAddr)
    → Exclusive ts
    → Exclusive (drop_task a ts) × (mem a (drop_task a ts) ≡ false)
drop_task-Exclusive a [] e = (tt, refl)
drop_task-Exclusive a (x ∷ ts) e =
    ground (arith, drop_task-Exclusive a ts e.1, mem-drop_task_ne a x ts)
