-- ===== src/Manager/Tasks.antt =====
-- What every step of the manager and of the connection tasks keeps.
use p2p_observer.Common.{
  ℕ, ◌-◌, min, ◌≡◌, refl, sym, ◌∙◌, ap, Bool, true, false, List, [], ◌∷◌, arith, All, if_pos,
  if_neg, none, is_some, ◌≢◌, inl, inr, Option-cases, if◌then◌else◌,
}
use p2p_observer.Common.Map.{has, insert, get-insert, insert-IsMap, modify-IsMap}
use p2p_observer.Float.{F32}
use p2p_observer.PeerAddr.{PeerAddr, PeerAddr-discrete}
use p2p_observer.PeerAddr.Display.{Renderer}
use p2p_observer.Policy.{Outcome}
use p2p_observer.Book.Entry.{Dial, Gossiped, Phase}
use p2p_observer.Book.Ingest.Admits.{ingest-size}
use p2p_observer.Book.Outcomes.{record_connected, record_ended, record_v1_only}
use p2p_observer.Book.Outcomes.Ended.{record_ended-active, record_ended-IsBook}
use p2p_observer.Book.Pick.{pick}
use p2p_observer.Book.Pick.Effect.{pick-IsBook}
use p2p_observer.Book.Pick.Eligible.{Eligible, pick-Eligible}
use p2p_observer.Book.Pick.Nodup.{pick-Unique}
use p2p_observer.Book.State.{IsBook, dialing_count}
use p2p_observer.Manager.{
  Manager, connected, v1_only, ended, Command, dial_timer, life, gossip, command, tick, apply,
  ingest, handle,
}
use p2p_observer.Manager.Worlds.{
  mem, drop_task, with_dials, World, Step, dials, reports_connected, reports_v1_only, reports_end,
  hears, serves, boots, Seed, v1_reports, connected_reports, run_reports, run_seed, Reach, here,
  next, Coherent, has-record_all, Exclusive-with_dials, mem-drop_task_ne, drop_task-Exclusive,
}
use p2p_observer.Manager.Quiet.{Quiet, run_command-Quiet}

module _ (f : F32) (r : Renderer) where
  Quiet-Coherent :
      (w : World) (m : Manager)
      → Coherent w
      → Quiet w.manager.book m.book
      → Coherent (record w { manager = m })
  Quiet-Coherent w m c q = record {
    valid = q.valid;
    exclusive = c.exclusive;
    same = λ a. ap (λ t. has PeerAddr-discrete a t) q.active ∙ c.same a;
  }

  connected-Coherent :
      (now : ℕ) (a : PeerAddr) (services version : ℕ) (w : World)
      → mem a w.tasks ≡ true
      → Coherent w
      → Coherent (record w {
        manager = (handle f r now (life (connected a services version)) w.manager).0;
      })
  unfolding handle apply record_connected
  connected-Coherent now a services version w t c = record {
    valid = record {
      entries_IsMap = modify-IsMap PeerAddr-discrete a _ _ c.valid.entries_IsMap;
      active_IsMap = insert-IsMap PeerAddr-discrete a _ _ c.valid.active_IsMap;
    };
    exclusive = c.exclusive;
    same = λ x. mark x (PeerAddr-discrete a x);
  }
    where
      mark :
          (x : PeerAddr)
          → Dec (a ≡ x)
          → has PeerAddr-discrete x
              (insert PeerAddr-discrete a Phase.connected w.manager.book.active)
            ≡ mem x w.tasks
      mark x (yes p) = ground (
        arith,
        get-insert PeerAddr-discrete a x Phase.connected w.manager.book.active,
        ap (λ (y : PeerAddr). mem y w.tasks) p,
      )
      mark x (no n) =
          ground (
            arith,
            get-insert PeerAddr-discrete a x Phase.connected w.manager.book.active,
            c.same x,
          )

  ended-Coherent :
      (now : ℕ) (a : PeerAddr) (outcome : Outcome) (w : World)
      → Coherent w
      → Coherent (record {
        manager = (handle f r now (life (ended a outcome)) w.manager).0;
        tasks = drop_task a w.tasks;
      })
  unfolding handle apply
  ended-Coherent now a outcome w c = record {
    valid = record_ended-IsBook f a now outcome w.manager.book c.valid;
    exclusive = (drop_task-Exclusive a w.tasks c.exclusive).0;
    same = λ x. freed x (PeerAddr-discrete a x);
  }
    where
      freed :
          (x : PeerAddr)
          → Dec (a ≡ x)
          → has PeerAddr-discrete x (record_ended f a now outcome w.manager.book).active
            ≡ mem x (drop_task a w.tasks)
      freed x (yes p) = rw (← p) (
          ap is_some (
            record_ended-active f a a now outcome w.manager.book
            ∙ if_pos (PeerAddr-discrete a a) refl none _)
          ∙ sym (drop_task-Exclusive a w.tasks c.exclusive).1)
      freed x (no n) =
          ap is_some (
            record_ended-active f a x now outcome w.manager.book
            ∙ if_neg (PeerAddr-discrete a x) n none _)
          ∙ c.same x
          ∙ sym (mem-drop_task_ne a x w.tasks n)

  v1_only-Quiet :
      (now : ℕ) (a : PeerAddr) (w : World)
      → Coherent w
      → Quiet w.manager.book (handle f r now (life (v1_only a)) w.manager).0.book
  unfolding handle apply record_v1_only
  v1_only-Quiet now a w c = record {
    valid = record {
      entries_IsMap = modify-IsMap PeerAddr-discrete a _ _ c.valid.entries_IsMap;
      active_IsMap = c.valid.active_IsMap;
    };
    active = refl;
  }

  hears-Quiet :
      (now : ℕ) (gs : List Gossiped) (w : World)
      → Coherent w
      → Quiet w.manager.book (handle f r now (gossip gs) w.manager).0.book
  unfolding handle ingest
  hears-Quiet now gs w c =
      let k = ingest-size r w.manager.bans now gs w.manager.book c.valid in
      record { valid = k.0; active = k.2 }

  serves-Quiet :
      (now : ℕ) (cmd : Command) (save_failed : Bool) (w : World)
      → Coherent w
      → Quiet w.manager.book (handle f r now (command cmd save_failed) w.manager).0.book
  unfolding handle
  serves-Quiet now cmd save_failed w c = run_command-Quiet f r now cmd save_failed w.manager c.valid

  dials-Coherent :
      (now : ℕ) (w : World)
      → Coherent w
      → Coherent (record {
        manager = (handle f r now dial_timer w.manager).0;
        tasks = with_dials (handle f r now dial_timer w.manager).1 w.tasks;
      })
  unfolding handle tick
  dials-Coherent now w c =
      let m = w.manager in
      let budget = min m.cfg.dials_per_tick (m.cfg.max_dialing - dialing_count m.book) in
      record {
        valid = pick-IsBook f r m.bans m.cfg.nets now budget m.book c.valid;
        exclusive =
            Exclusive-with_dials _ w.tasks
              (pick-Unique f r m.bans m.cfg.nets now budget m.book c.valid)
              (untasked budget _ (pick-Eligible r m.bans m.cfg.nets now f budget m.book c.valid))
              c.exclusive;
        same = λ a. started budget a;
      }
    where
      untasked :
          (budget : ℕ) (ds : List Dial)
          → All (Eligible r w.manager.bans w.manager.cfg.nets now w.manager.book) ds
          → All (λ (d : Dial). mem d.addr w.tasks ≡ false) ds
      untasked budget [] h = tt
      untasked budget (d ∷ ds) ((p, e), h) =
          (sym (c.same d.addr) ∙ ap is_some e.idle, untasked budget ds h)

      started :
          (budget : ℕ) (a : PeerAddr)
          → has PeerAddr-discrete a
              (pick f r w.manager.bans w.manager.cfg.nets now budget w.manager.book).0.active
            ≡ mem a (
                with_dials
                  (pick f r w.manager.bans w.manager.cfg.nets now budget w.manager.book).1
                  w.tasks)
      started budget a = unfold pick in has-record_all _ a now _ w.tasks (c.same a)

  -- The book is well-formed, and no address but a seed's is held back.
  abbrev Only : PeerAddr → Manager → Type 0
  Only a m =
      IsBook m.book × ((x : PeerAddr) → a ≢ x → has PeerAddr-discrete x m.book.active ≡ false)

  v1_reports-Only :
      (now : ℕ) (s : Seed) (b : Bool) (m : Manager)
      → Only s.addr m
      → Only s.addr (run_reports f r now (if b then v1_only s.addr ∷ [] else []) m)
  unfolding run_reports handle apply record_v1_only
  v1_reports-Only now s false m h = h
  v1_reports-Only now s true m h = (
    record {
      entries_IsMap = modify-IsMap PeerAddr-discrete s.addr _ _ h.0.entries_IsMap;
      active_IsMap = h.0.active_IsMap;
    },
    h.1,
  )

  connected_reports-Only :
      (now : ℕ) (s : Seed) (m : Manager)
      → Only s.addr m
      → Only s.addr (run_reports f r now (connected_reports s) m)
  unfolding run_reports handle apply record_connected
  connected_reports-Only now s m h = elim (Option-cases s.handshake) [
    | inl e ↦ rw e h
    | inr ((services, version), e) ↦ rw e (
      record {
        entries_IsMap = modify-IsMap PeerAddr-discrete s.addr _ _ h.0.entries_IsMap;
        active_IsMap = insert-IsMap PeerAddr-discrete s.addr _ _ h.0.active_IsMap;
      },
      λ x n.
          ap is_some (
            get-insert PeerAddr-discrete s.addr x Phase.connected m.book.active
            ∙ if_neg (PeerAddr-discrete s.addr x) n _ _)
          ∙ h.1 x n,
    )
  ]

  boots-Coherent :
      (now : ℕ) (s : Seed) (w : World)
      → w.tasks ≡ []
      → Coherent w
      → Coherent (record w { manager = run_seed f r now s w.manager })
  unfolding handle apply
  boots-Coherent now s w none_runs c =
      let start : Only s.addr w.manager = (c.valid, λ x n. c.same x ∙ ap (mem x) none_runs) in
      let m1 = run_reports f r now (v1_reports s) w.manager in
      let m2 = run_reports f r now (connected_reports s) m1 in
      let h : Only s.addr m2 =
        connected_reports-Only now s m1 (v1_reports-Only now s s.reported_v1 w.manager start) in
      record {
        valid = record_ended-IsBook f s.addr now s.outcome m2.book h.0;
        exclusive = c.exclusive;
        same = λ x. freed m2 x h (PeerAddr-discrete s.addr x) ∙ sym (ap (mem x) none_runs);
      }
    where
      freed :
          (m : Manager) (x : PeerAddr)
          → Only s.addr m
          → Dec (s.addr ≡ x)
          → has PeerAddr-discrete x (record_ended f s.addr now s.outcome m.book).active ≡ false
      freed m x h (yes p) = ap is_some (
          record_ended-active f s.addr x now s.outcome m.book
          ∙ if_pos (PeerAddr-discrete s.addr x) p none _)
      freed m x h (no n) =
          ap is_some (
            record_ended-active f s.addr x now s.outcome m.book
            ∙ if_neg (PeerAddr-discrete s.addr x) n none _)
          ∙ h.1 x n

  Step-Coherent : {w x : World} → Step f r w x → Coherent w → Coherent x
  Step-Coherent {w} (dials now) c = dials-Coherent now w c
  Step-Coherent {w} (reports_connected now a services version t) c =
      connected-Coherent now a services version w t c
  Step-Coherent {w} (reports_v1_only now a) c = Quiet-Coherent w _ c (v1_only-Quiet now a w c)
  Step-Coherent {w} (reports_end now a outcome t) c = ended-Coherent now a outcome w c
  Step-Coherent {w} (hears now gs) c = Quiet-Coherent w _ c (hears-Quiet now gs w c)
  Step-Coherent {w} (boots now s e) c = boots-Coherent now s w e c
  Step-Coherent {w} (serves now cmd s) c = Quiet-Coherent w _ c (serves-Quiet now cmd s w c)

  -- From a world with no key twice in the book, at most one task for each address, and the active
  -- set that of the tasks, every history of dials, reports, gossip and commands, in any order, with
  -- the bootstrap's reports of a seed handled together while no task runs, leads to such a world:
  -- no address has two tasks at a time, and the manager holds an address back exactly while a task
  -- has it.
  pub Reach-Coherent : {w x : World} → Reach f r w x → Coherent w → Coherent x
  Reach-Coherent here c = c
  Reach-Coherent (next h s) c = Step-Coherent s (Reach-Coherent h c)
