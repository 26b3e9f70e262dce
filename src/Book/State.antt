-- ===== src/Book/State.antt =====
-- `Book` of observer/src/addresses/book.rs: its state, and the operations that only read it.
use p2p_observer.Common.{ℕ, ◌+◌, ◌-◌, not, List, [], ◌∷◌, Option, length, suc}
use p2p_observer.Common.Map.{get, retain, IsMap}
use p2p_observer.Banlist.{BanEntry, contains}
use p2p_observer.PeerAddr.{PeerAddr, PeerAddr-discrete}
use p2p_observer.PeerAddr.Display.{Renderer}
use p2p_observer.Policy.{Class, unknown, good, was_good, bad}
use p2p_observer.Book.Entry.{Entry, Phase, dialing, connected, class_of}
use p2p_observer.Book.Rng.{seeded}

-- The three classes that share the dial budget, and a value for each: `[T; 3]`.
pub data Share : Type 0 where
  share_unknown share_was_good share_bad : Share

pub record Shares (A : Type 0) : Type 0 where
  pub of_unknown : A
  pub of_was_good : A
  pub of_bad : A

abbrev pub at : {A : Type 0} → Shares A → Share → A
at s share_unknown = s.of_unknown
at s share_was_good = s.of_was_good
at s share_bad = s.of_bad

abbrev pub put : {A : Type 0} → Shares A → Share → A → Shares A
put s share_unknown v = record s { of_unknown = v }
put s share_was_good v = record s { of_was_good = v }
put s share_bad v = record s { of_bad = v }

abbrev pub Entries : Type 0
Entries = List (PeerAddr × Entry)

abbrev pub Active : Type 0
Active = List (PeerAddr × Phase)

pub record Book : Type 0 where
  pub entries : Entries
  pub active : Active
  -- Float patterns.
  pub credit : Shares ℕ
  pub capacity : ℕ
  pub eviction_passes : ℕ
  pub rng : ℕ

unfoldable pub new_book : ℕ → ℕ → Book
unfolding seeded
new_book capacity seed = record {
  entries = [];
  active = [];
  credit = record { of_unknown = 0; of_was_good = 0; of_bad = 0 };
  capacity = capacity;
  eviction_passes = 0;
  rng = seeded seed;
}

unfoldable pub restore : Entries → Book → Book
restore entries b = record b { entries = entries; active = [] }

pub record Stats : Type 0 where
  pub total : ℕ
  pub unknown : ℕ
  pub good : ℕ
  pub was_good : ℕ
  pub bad : ℕ
  pub dialing : ℕ
  pub connected : ℕ

abbrev pub count_class : Stats → Class → Stats
count_class s unknown = record s { unknown = s.unknown + 1 }
count_class s good = record s { good = s.good + 1 }
count_class s was_good = record s { was_good = s.was_good + 1 }
count_class s bad = record s { bad = s.bad + 1 }

abbrev pub count_phase : Stats → Phase → Stats
count_phase s dialing = record s { dialing = s.dialing + 1 }
count_phase s connected = record s { connected = s.connected + 1 }

unfoldable pub count_classes : Stats → Entries → Stats
count_classes s [] = s
count_classes s ((_, e) ∷ es) = count_classes (count_class s (class_of e)) es

unfoldable pub count_phases : Stats → Active → Stats
count_phases s [] = s
count_phases s ((_, p) ∷ ps) = count_phases (count_phase s p) ps

unfoldable pub stats : Book → Stats
unfolding count_classes count_phases
stats b =
    count_phases
      (count_classes
        (record {
          total = length b.entries;
          unknown = 0;
          good = 0;
          was_good = 0;
          bad = 0;
          dialing = 0;
          connected = 0;
        })
        b.entries)
      b.active

unfoldable pub dialing_in : Active → ℕ
dialing_in [] = 0
dialing_in ((_, dialing) ∷ ps) = suc (dialing_in ps)
dialing_in ((_, connected) ∷ ps) = dialing_in ps

abbrev pub dialing_count : Book → ℕ
dialing_count b = dialing_in b.active

abbrev pub entry : PeerAddr → Book → Option Entry
entry a b = get PeerAddr-discrete a b.entries

-- Drop every entry that a ban matches, and count them.
unfoldable pub purge_banned : Renderer → List BanEntry → Book → Book × ℕ
purge_banned r bans b =
    let kept = retain PeerAddr-discrete (λ a _. not (contains r bans a)) b.entries in
    (record b { entries = kept }, length b.entries - length kept)

-- No address stands twice in either map.
pub record IsBook (b : Book) : Type 0 where
  pub entries_IsMap : IsMap PeerAddr-discrete b.entries
  pub active_IsMap : IsMap PeerAddr-discrete b.active
