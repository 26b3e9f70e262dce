-- ===== src/Manager.antt =====
-- observer/src/addresses/mod.rs: the task that owns the book and the ban list. A pass of its loop
-- is an event with the time at which it is handled; the dials that it starts and its answers are
-- returned. Channels, logging, saving to disk and the clock are left out.
pub mod Worlds
pub mod Quiet
pub mod Tasks
pub mod Ceiling
use p2p_observer.Common.{
  ℕ, ◌+◌, ◌-◌, min, Bool, true, false, ltb, leb, List, [], ◌∷◌, ◌++◌, Option, none, some,
  if◌then◌else◌, take,
}
use p2p_observer.Float.{F32}
use p2p_observer.Banlist
use p2p_observer.Banlist.{BanEntry}
use p2p_observer.PeerAddr.{PeerAddr}
use p2p_observer.PeerAddr.Display.{Renderer}
use p2p_observer.Policy.{Outcome, failed, other}
use p2p_observer.Book.Entry.{Entry, Dial, EnabledNets, Gossiped}
use p2p_observer.Book.Ingest.{insert_manual}
use p2p_observer.Book.Ingest
use p2p_observer.Book.Outcomes.{record_connected, record_ended, record_v1_only}
use p2p_observer.Book.Pick.{pick}
use p2p_observer.Book.State.{
  Book, Entries, Stats, new_book, restore, purge_banned, stats, entry, dialing_count,
}

pub record Config : Type 0 where
  pub dials_per_tick : ℕ
  pub max_dialing : ℕ
  pub capacity : ℕ
  pub nets : EnabledNets

pub record Manager : Type 0 where
  pub book : Book
  pub bans : List BanEntry
  pub cfg : Config

-- `Manager::new`, from the ban list and the snapshot that were read.
unfoldable pub new_manager : Renderer → ℕ → Config → List BanEntry → Entries → Manager
new_manager r now cfg bans snapshot = record {
  book = (purge_banned r bans (restore snapshot (new_book cfg.capacity now))).0;
  bans = bans;
  cfg = cfg;
}

pub data Lifecycle : Type 0 where
  connected : PeerAddr → ℕ → ℕ → Lifecycle
  v1_only : PeerAddr → Lifecycle
  ended : PeerAddr → Outcome → Lifecycle

-- `EndGuard`: the message that its drop sends, whichever way the task ended.
unfoldable pub end_guard : PeerAddr → Option Outcome → Lifecycle
end_guard a none = ended a (failed other)
end_guard a (some outcome) = ended a outcome

pub data Command : Type 0 where
  add_manual : List PeerAddr → Command
  ban : BanEntry → Command
  ban_list get_stats : Command
  inspect : PeerAddr → Command
  due_next : ℕ → Command

pub data Reply : Type 0 where
  added : ℕ → Reply
  -- Newly banned, purged, and whether the list could not be written.
  ban_result : ℕ → ℕ → Bool → Reply
  bans_are : List BanEntry → Reply
  stats_are : Stats → Reply
  entry_is : Option Entry → Reply
  due_are : List (PeerAddr × ℕ) → Reply

-- `sort_by_key`, which is stable.
insert_due : PeerAddr × ℕ → List (PeerAddr × ℕ) → List (PeerAddr × ℕ)
insert_due x [] = x ∷ []
insert_due x (y ∷ ys) = if leb x.1 y.1 then x ∷ y ∷ ys else y ∷ insert_due x ys

sort_due : List (PeerAddr × ℕ) → List (PeerAddr × ℕ)
unfolding insert_due
sort_due [] = []
sort_due (x ∷ xs) = insert_due x (sort_due xs)

due_times : Entries → List (PeerAddr × ℕ)
due_times [] = []
due_times ((a, e) ∷ es) = (a, e.next_attempt) ∷ due_times es

pub data Event : Type 0 where
  dial_timer : Event
  life : Lifecycle → Event
  gossip : List Gossiped → Event
  -- A command, and whether the ban list could not be written if the command writes it.
  command : Command → Bool → Event

module _ (f : F32) (r : Renderer) where
  unfoldable pub tick : ℕ → Manager → Manager × List Dial
  tick now m =
      let room = m.cfg.max_dialing - dialing_count m.book in
      let budget = min m.cfg.dials_per_tick room in
      let (book, picks) = pick f r m.bans m.cfg.nets now budget m.book in
      (record m { book = book }, picks)

  unfoldable pub apply : ℕ → Lifecycle → Manager → Manager
  apply now (connected a services transport_version) m = record m {
    book = record_connected a now services transport_version m.book;
  }
  apply now (v1_only a) m = record m { book = record_v1_only a m.book }
  apply now (ended a outcome) m = record m { book = record_ended f a now outcome m.book }

  unfoldable pub ingest : ℕ → List Gossiped → Manager → Manager × ℕ
  ingest now gs m =
      let (book, n) = Ingest.ingest r m.bans now gs m.book in (record m { book = book }, n)

  unfoldable pub run_command : ℕ → Command → Bool → Manager → Manager × Reply
  unfolding due_times sort_due
  run_command now (add_manual addrs) save_failed m =
      let (book, n) = insert_manual now addrs m.book in (record m { book = book }, added n)
  run_command now (ban e) save_failed m =
      let (bans, n) = Banlist.add m.bans e in
      let (book, purged) = if ltb 0 n then purge_banned r bans m.book else (m.book, 0) in
      (record m { book = book; bans = bans }, ban_result n purged save_failed)
  run_command now ban_list save_failed m = (m, bans_are m.bans)
  run_command now get_stats save_failed m = (m, stats_are (stats m.book))
  run_command now (inspect a) save_failed m = (m, entry_is (entry a m.book))
  run_command now (due_next limit) save_failed m =
      (m, due_are (take limit (sort_due (due_times m.book.entries))))

  -- One pass of the loop, and the dials that it starts.
  unfoldable pub handle : ℕ → Event → Manager → Manager × List Dial
  handle now dial_timer m = tick now m
  handle now (life msg) m = (apply now msg m, [])
  handle now (gossip gs) m = ((ingest now gs m).0, [])
  handle now (command cmd save_failed) m = ((run_command now cmd save_failed m).0, [])
