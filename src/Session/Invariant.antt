-- ===== src/Session/Invariant.antt =====
-- What holds of a connection of observer/src/protocol.rs at every moment, and the steps of its
-- handlers that keep it.
pub mod BlocksKept
pub mod Kept
pub mod Dispatched
pub mod Always
use p2p_observer.Common.{
  ℕ, zero, suc, ◌+◌, ◌*◌, ◌≤◌, ◌≡◌, refl, min, Bool, true, false, List, [], ◌∷◌, ◌++◌, Option, none,
  some, arith, length, get_elem?, All, All-append, Option-cases, inl, inr, Bool-cases,
  if◌then◌else◌, ℕ_discrete,
}
use p2p_observer.Common.Map.{get}
use p2p_observer.HeaderTree.Insert.{insert_batch}
use p2p_observer.HeaderTree.Insert.Growth.{IsTree}
use p2p_observer.HeaderTree.Insert.Whole.{Led, insert_batch-IsTree}
use p2p_observer.HeaderTree.Locator.{
  build_locator, get_headers_from_locator, last_is, hashes_at, visit,
}
use p2p_observer.HeaderTree.Locator.Served.{Held, get_headers_from_locator-Run}
use p2p_observer.HeaderTree.Recovery.{Recovery}
use p2p_observer.HeaderTree.Tree.{Bitcoin, HeaderEntry, HeaderTree, Headers}
use p2p_observer.HeaderTree.Tree.Chain.{ChainTo, genesis, child}
use p2p_observer.Session.Bucket.{F64, F64Laws, Bucket, addr_burst, getheaders_burst}
use p2p_observer.Session.Messages.{Sent}
use p2p_observer.Session.State.{
  Connection, Result, and_then, ok, ended, Error, write_failed, Handler, ◌>>=◌, ◌>>◌, expect, gets,
  update, note, write, send, emit_event,
}
use p2p_observer.Session.Stats.{ConnectionStats}
use p2p_observer.Session.Stats.Window.{IsStats}

-- The code did not panic; `Q` holds of the value and the state that it left, or `F` of the error
-- that ended the session and the state.
pub data Holds {S A : Type 0} (Q : A → S → Type 0) (F : Error → S → Type 0)
    : Result S A → Type 0 where
  on_ok : {a : A} {s : S} → Q a s → Holds Q F (ok a s)
  on_ended : {e : Error} {s : S} → F e s → Holds Q F (ended e s)

module _ {Header : Type 0} {F : Error → Connection Header → Type 0} where
  pub and_then-Holds :
      {A B : Type 0} {Q : A → Connection Header → Type 0} {R : B → Connection Header → Type 0}
      {r : Result (Connection Header) A} {f : A → Handler Header B}
      → Holds Q F r
      → ((a : A) (s : Connection Header) → Q a s → Holds R F (f a s))
      → Holds R F (and_then r f)
  and_then-Holds (on_ok q) k = k _ _ q
  and_then-Holds (on_ended e) k = on_ended e

  pub imp-Holds :
      {A : Type 0} {Q R : A → Connection Header → Type 0} {r : Result (Connection Header) A}
      → Holds Q F r
      → ((a : A) (s : Connection Header) → Q a s → R a s)
      → Holds R F r
  imp-Holds (on_ok q) k = on_ok (k _ _ q)
  imp-Holds (on_ended e) k = on_ended e

  pub if-Holds :
      {A : Type 0} {Q : A → Connection Header → Type 0} (b : Bool) (m n : Handler Header A)
      {s : Connection Header}
      → Holds Q F (m s)
      → Holds Q F (n s)
      → Holds Q F ((if b then m else n) s)
  if-Holds true m n h k = h
  if-Holds false m n h k = k

pub loosen-Holds :
    {S A : Type 0} {Q R : A → S → Type 0} {F G : Error → S → Type 0} {r : Result S A}
    → Holds Q F r
    → ((a : A) (s : S) → Q a s → R a s)
    → ((e : Error) (s : S) → F e s → G e s)
    → Holds R G r
loosen-Holds (on_ok q) k j = on_ok (k _ _ q)
loosen-Holds (on_ended e) k j = on_ended (j _ _ e)

-- From a state of which `P` holds, `P` holds of the state that is left, and `E` of the error, if
-- one ended the session.
abbrev pub Keeps :
    {Header A : Type 0}
    → (Error → Type 0)
    → (Connection Header → Type 0)
    → Handler Header A
    → Type 0
Keeps {Header} E P m =
    (s : Connection Header) → P s → Holds (λ _ s'. P s') (λ e s'. E e × P s') (m s)

-- A tree whose headers are linked, whose tip has the most work and whose best chain leads to it.
abbrev pub Sound : {Header : Type 0} → Bitcoin Header → HeaderTree Header → Type 0
Sound bc t = IsTree bc t × Led bc t × (t.checkpoints ≡ [])

module _ {Header : Type 0} (bc : Bitcoin Header) (f : F64) (l : F64Laws f) where
  pub Sound-recovery :
      (t : HeaderTree Header) (r : Recovery) → Sound bc t → Sound bc (record t { recovery = r })
  Sound-recovery t r (v, led, none_set) = (
    record {
      linked = v.linked;
      top = v.top;
      top_held = v.top_held;
      top_height = v.top_height;
      top_work = v.top_work;
      most = v.most;
    },
    led,
    none_set,
  )

  ChainTo-Held :
      (t : HeaderTree Header) (hash : ℕ) (chain : List ℕ)
      → ChainTo bc t.headers hash chain
      → All (Held t) chain
  ChainTo-Held t _ _ (genesis hash e known h) = ((e, known), tt)
  ChainTo-Held t _ _ (child hash e chain known links) =
      All-append (Held t) chain (hash ∷ [])
        (ChainTo-Held t (bc.prev_blockhash e.header) chain links) ((e, known), tt)

  pub served :
      (t : HeaderTree Header) (locator : List ℕ) (stop_hash : ℕ)
      → Sound bc t
      → (xs : List Header) × (get_headers_from_locator t locator stop_hash ≡ some xs)
  served t locator stop_hash (v, (size, links), _) =
      let (xs, e, _, _, _) =
        get_headers_from_locator-Run t locator stop_hash (ChainTo-Held t t.tip t.best_chain links)
          (omega (arith, size)) in
      (xs, e)

  first_there : (xs : List ℕ) → 1 ≤ length xs → (x : ℕ) × (get_elem? xs 0 ≡ some x)
  first_there [] h = absurd (omega arith)
  first_there (x ∷ xs) h = (x, refl)

  pub located :
      (t : HeaderTree Header) → Sound bc t → (locator : List ℕ) × (build_locator t ≡ some locator)
  unfolding build_locator
  located t (v, (size, links), _) =
      let short = hashes_at t.best_chain (visit (t.tip_height + 1) t.tip_height 1) in
      let (x, e) = first_there t.best_chain (omega (arith, size)) in
      (if last_is x short then short else short ++ x ∷ [], rw (e, build_locator) refl)

  module _ (G : ConnectionStats → Type 0) where
    -- `G` holds of the statistics, the tree is sound, and no bucket holds more than its burst.
    abbrev pub Keeping : Connection Header → Type 0
    Keeping s =
        G s.stats
        × Sound bc s.header_tree
        × (l.value s.addr_bucket.tokens ≤ l.value (addr_burst f))
        × (l.value s.getheaders_bucket.tokens ≤ l.value (getheaders_burst f))

    module _ (E : Error → Type 0) (w : E write_failed) where
      write-Keeps : (room : ℕ) (msg : Sent Header) → Keeps E Keeping (write room msg)
      write-Keeps zero msg s h = on_ended (w, h)
      write-Keeps (suc room) msg s h = on_ok h

      pub send-Keeps : (msg : Sent Header) → Keeps E Keeping (send msg)
      unfolding send
      send-Keeps msg s h = write-Keeps s.room msg s h

  -- The statistics are within their limits, the tree is sound, and no bucket holds more than its
  -- burst.
  abbrev pub IsConnection : Connection Header → Type 0
  IsConnection = Keeping IsStats
