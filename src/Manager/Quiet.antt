-- ===== src/Manager/Quiet.antt =====
-- The operations of the manager that start and end no task.
use p2p_observer.Common.{
  ℕ, ◌≡◌, refl, ◌∙◌, inl, inr, Bool, true, false, List, [], ◌∷◌, if◌then◌else◌, Option-cases, ltb,
}
use p2p_observer.Common.Map.{get, modify, insert-IsMap, modify-IsMap, retain-IsMap}
use p2p_observer.Float.{F32}
use p2p_observer.Banlist
use p2p_observer.Banlist.{BanEntry}
use p2p_observer.PeerAddr.{PeerAddr, PeerAddr-discrete}
use p2p_observer.PeerAddr.Display.{Renderer}
use p2p_observer.Policy.{Origin}
use p2p_observer.Book.Entry.{Entry}
use p2p_observer.Book.Ingest.{insert_manual, insert_manual_one}
use p2p_observer.Book.Evict.{is_manual}
use p2p_observer.Book.State.{Book, IsBook, purge_banned}
use p2p_observer.Manager.{
  Manager, Command, add_manual, ban, ban_list, get_stats, inspect, due_next, run_command,
}

-- What an operation does that starts and ends no task.
pub record Quiet (b c : Book) : Type 0 where
  pub valid : IsBook c
  pub active : c.active ≡ b.active

pub Quiet-trans : {b c d : Book} → Quiet b c → Quiet c d → Quiet b d
Quiet-trans p q = record { valid = q.valid; active = q.active ∙ p.active }

pub insert_manual_one-Quiet :
    (now : ℕ) (a : PeerAddr) (b : Book) → IsBook b → Quiet b (insert_manual_one now a b).0
unfolding insert_manual_one
insert_manual_one-Quiet now a b v = elim (Option-cases (get PeerAddr-discrete a b.entries)) [
  | inl e ↦
      rw (e, insert_manual_one)
        (record {
          valid = record {
            entries_IsMap = insert-IsMap PeerAddr-discrete a _ b.entries v.entries_IsMap;
            active_IsMap = v.active_IsMap;
          };
          active = refl;
        })
  | inr (x, e) ↦ rw (e, insert_manual_one) (promoted x (is_manual x))
]
  where
    promoted :
        (x : Entry) (m : Bool)
        → Quiet b
            (if◌then◌else◌ {A = Book × ℕ} m
              (b, 0)
              (
                record b {
                  entries =
                      modify PeerAddr-discrete a
                        (λ y. record y { origin = Origin.manual })
                        b.entries;
                },
                1,
              )).0
    promoted x true = record { valid = v; active = refl }
    promoted x false = record {
      valid = record {
        entries_IsMap = modify-IsMap PeerAddr-discrete a _ b.entries v.entries_IsMap;
        active_IsMap = v.active_IsMap;
      };
      active = refl;
    }

pub insert_manual-Quiet :
    (now : ℕ) (addrs : List PeerAddr) (b : Book) → IsBook b → Quiet b (insert_manual now addrs b).0
unfolding insert_manual
insert_manual-Quiet now [] b v = record { valid = v; active = refl }
insert_manual-Quiet now (a ∷ addrs) b v =
    let one = insert_manual_one-Quiet now a b v in
    Quiet-trans one (insert_manual-Quiet now addrs (insert_manual_one now a b).0 one.valid)

module _ (f : F32) (r : Renderer) where
  pub purge_banned-Quiet :
      (bans : List BanEntry) (b : Book) → IsBook b → Quiet b (purge_banned r bans b).0
  unfolding purge_banned
  purge_banned-Quiet bans b v = record {
    valid = record {
      entries_IsMap = retain-IsMap PeerAddr-discrete _ b.entries v.entries_IsMap;
      active_IsMap = v.active_IsMap;
    };
    active = refl;
  }

  pub run_command-Quiet :
      (now : ℕ) (cmd : Command) (save_failed : Bool) (m : Manager)
      → IsBook m.book
      → Quiet m.book (run_command f r now cmd save_failed m).0.book
  unfolding run_command
  run_command-Quiet now (add_manual addrs) s m v = insert_manual-Quiet now addrs m.book v
  run_command-Quiet now (ban e) s m v = purged (ltb 0 (Banlist.add m.bans e).1)
    where
      purged :
          (b : Bool)
          → Quiet m.book
              (if◌then◌else◌ {A = Book × ℕ} b
                (purge_banned r (Banlist.add m.bans e).0 m.book)
                (m.book, 0)).0
      purged true = purge_banned-Quiet (Banlist.add m.bans e).0 m.book v
      purged false = record { valid = v; active = refl }
  run_command-Quiet now ban_list s m v = record { valid = v; active = refl }
  run_command-Quiet now get_stats s m v = record { valid = v; active = refl }
  run_command-Quiet now (inspect a) s m v = record { valid = v; active = refl }
  run_command-Quiet now (due_next limit) s m v = record { valid = v; active = refl }
