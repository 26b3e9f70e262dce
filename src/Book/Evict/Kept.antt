-- ===== src/Book/Evict/Kept.antt =====
-- What an eviction pass spares, and how much it reclaims.
use p2p_observer.Common.{
  ℕ, suc, ◌+◌, ◌-◌, ◌≤◌, ◌<◌, ◌≡◌, refl, ◌≢◌, ◌∙◌, ◌⊎◌, inl, inr, Bool, true, false, List, [], ◌∷◌,
  none, some, arith, subst, ◌↔◌, All, All-append, All-take, All-imp, length, length-append,
  length-take, take, if◌then◌else◌, Bool-cases,
}
use p2p_observer.Common.Map.{
  get, remove, has, IsMap, get_members, get-remove_ne, length-remove, remove-IsMap,
}
use p2p_observer.PeerAddr.{PeerAddr, PeerAddr-discrete}
use p2p_observer.Policy.{unknown}
use p2p_observer.Book.Entry.{Entry, Dial, class_of, forget_due, hint_unknown}
use p2p_observer.Book.Evict.{
  Scan, scan_entry, scan, scan_of, start_scan, batch_of, remove_all, dial_addrs, evict_batch,
  is_manual, is_unknown,
}
use p2p_observer.Book.Reservoir
use p2p_observer.Book.State.{Book, Entries, Active, IsBook}

-- An entry that a pass may remove: gossiped, unused, and past its forget rule or never tried.
pub record Victim (now : ℕ) (active : Active) (m : Entries) (a : PeerAddr) : Type 0 where
  pub entry : Entry
  pub known : get PeerAddr-discrete a m ≡ some entry
  pub gossiped : is_manual entry ≡ false
  pub idle : get PeerAddr-discrete a active ≡ none
  pub worthless : (forget_due now entry ≡ true) ⊎ (class_of entry ≡ unknown)

module _ (now batch : ℕ) (active : Active) (all : Entries) where
  abbrev OfDial : Dial → Type 0
  OfDial d = Victim now active all d.addr

  record Victims (s : Scan) : Type 0 where
    forgettable : All (Victim now active all) s.forgettable
    sampled : All OfDial s.sample.items

  victim :
      (a : PeerAddr) (e : Entry)
      → get PeerAddr-discrete a all ≡ some e
      → is_manual e ≡ false
      → has PeerAddr-discrete a active ≡ false
      → (forget_due now e ≡ true) ⊎ (class_of e ≡ unknown)
      → Victim now active all a
  victim a e known g i w = record {
    entry = e;
    known = known;
    gossiped = g;
    idle = ground arith;
    worthless = w;
  }

  is_unknown-eq : (e : Entry) → is_unknown e ≡ true → class_of e ≡ unknown
  is_unknown-eq e h = ground arith

  scan_entry-Victims :
      (a : PeerAddr) (e : Entry) (s : Scan)
      → get PeerAddr-discrete a all ≡ some e
      → Victims s
      → Victims (scan_entry now batch active a e s).0
  unfolding scan_entry
  scan_entry-Victims a e s known h = elim (Bool-cases (is_manual e)) [
    | inl m ↦ rw m h
    | inr g ↦ rw g (elim (Bool-cases (has PeerAddr-discrete a active)) [
      | inl u ↦ rw u h
      | inr i ↦ rw i (elim (Bool-cases (forget_due now e)) [
        | inl due ↦ rw due (record {
          forgettable =
              All-append (Victim now active all) s.forgettable (a ∷ []) h.forgettable
                (victim a e known g i (inl due), tt);
          sampled = h.sampled;
        })
        | inr keep ↦ rw keep (elim (Bool-cases (is_unknown e)) [
          | inl new ↦ rw new (record {
            forgettable = h.forgettable;
            sampled =
                Reservoir.offer-All OfDial s.rng s.sample
                  (record { addr = a; transport = hint_unknown })
                  (victim a e known g i (inr (is_unknown-eq e new))) h.sampled;
          })
          | inr old ↦ rw old h
        ])
      ])
    ])
  ]

  scan-Victims :
      (m : Entries) (s : Scan)
      → All (λ (p : PeerAddr × Entry). get PeerAddr-discrete p.0 all ≡ some p.1) m
      → Victims s
      → Victims (scan now batch active m s)
  unfolding scan
  scan-Victims [] s k h = h
  scan-Victims ((a, e) ∷ m) s k h =
      let v = scan_entry-Victims a e s k.0 h in
      either (scan_entry now batch active a e s).1 v
        (scan-Victims m (scan_entry now batch active a e s).0 k.1 v)
    where
      either : {x y : Scan} (b : Bool) → Victims x → Victims y → Victims (if b then x else y)
      either true p q = p
      either false p q = q

  -- The walk stops as soon as it has a whole batch of forgettable entries.
  scan_entry-length :
      (a : PeerAddr) (e : Entry) (s : Scan)
      → length s.forgettable < batch
      → (length (scan_entry now batch active a e s).0.forgettable ≤ batch)
        × ((scan_entry now batch active a e s).1 ≡ false
            → length (scan_entry now batch active a e s).0.forgettable < batch)
  unfolding scan_entry
  scan_entry-length a e s h = (
    ground (arith, length-append s.forgettable (a ∷ [])),
    λ k. ground (arith, length-append s.forgettable (a ∷ [])),
  )

  scan-length :
      (m : Entries) (s : Scan)
      → length s.forgettable < batch
      → length (scan now batch active m s).forgettable ≤ batch
  unfolding scan
  scan-length [] s h = omega arith
  scan-length ((a, e) ∷ m) s h =
      let k = scan_entry-length a e s h in
      elim (Bool-cases (scan_entry now batch active a e s).1) [
        | inl stop ↦ rw stop k.0
        | inr more ↦ rw more (scan-length m (scan_entry now batch active a e s).0 (k.1 more))
      ]

remove_all-get :
    (a : PeerAddr) (ks : List PeerAddr) (m : Entries)
    → All (λ k. k ≢ a) ks
    → get PeerAddr-discrete a (remove_all ks m).0 ≡ get PeerAddr-discrete a m
unfolding remove_all
remove_all-get a [] m h = refl
remove_all-get a (k ∷ ks) m h =
    remove_all-get a ks (remove PeerAddr-discrete k m) h.1
    ∙ get-remove_ne PeerAddr-discrete k a m h.0

remove_all-IsMap :
    (ks : List PeerAddr) (m : Entries)
    → IsMap PeerAddr-discrete m
    → IsMap PeerAddr-discrete (remove_all ks m).0
unfolding remove_all
remove_all-IsMap [] m h = h
remove_all-IsMap (k ∷ ks) m h =
    remove_all-IsMap ks (remove PeerAddr-discrete k m) (remove-IsMap PeerAddr-discrete k m h)

remove_all-length :
    (ks : List PeerAddr) (m : Entries)
    → IsMap PeerAddr-discrete m
    → (length (remove_all ks m).0 + (remove_all ks m).1 ≡ length m)
      × ((remove_all ks m).1 ≤ length ks)
unfolding remove_all
remove_all-length [] m h = omega arith
remove_all-length (k ∷ ks) m h =
    let ih =
      remove_all-length ks (remove PeerAddr-discrete k m) (remove-IsMap PeerAddr-discrete k m h) in
    let one = length-remove PeerAddr-discrete k m h in
    elim (Bool-cases (has PeerAddr-discrete k m)) [
      | inl hit ↦ rw hit (counted_in (rw hit at one) ih)
      | inr miss ↦ rw miss (omega (arith, rw miss at one))
    ]
  where
    counted_in :
        {n : ℕ}
        → length (remove PeerAddr-discrete k m) + 1 ≡ n
        → (length (remove_all ks (remove PeerAddr-discrete k m)).0
              + (remove_all ks (remove PeerAddr-discrete k m)).1
            ≡ length (remove PeerAddr-discrete k m))
          × ((remove_all ks (remove PeerAddr-discrete k m)).1 ≤ length ks)
        → (length (remove_all ks (remove PeerAddr-discrete k m)).0
              + ((remove_all ks (remove PeerAddr-discrete k m)).1 + 1)
            ≡ n)
          × ((remove_all ks (remove PeerAddr-discrete k m)).1 + 1 ≤ suc (length ks))
    counted_in p q = omega arith

module _ (now : ℕ) (b : Book) (v : IsBook b) where
  scan_of-Victims : Victims now (batch_of b.capacity) b.active b.entries (scan_of now b)
  unfolding Reservoir.empty
  scan_of-Victims =
      scan-Victims now (batch_of b.capacity) b.active b.entries b.entries
        (start_scan b.rng (batch_of b.capacity))
        (get_members PeerAddr-discrete b.entries v.entries_IsMap)
        (record { forgettable = tt; sampled = tt })

  module _ (a : PeerAddr) (safe : ¬ Victim now b.active b.entries a) where
    not_Victim : (ks : List PeerAddr) → All (Victim now b.active b.entries) ks → All (λ k. k ≢ a) ks
    not_Victim ks h =
        All-imp (Victim now b.active b.entries) (λ k. k ≢ a) ks
          (λ k w e. safe (subst (Victim now b.active b.entries) e w)) h

    dial_victims :
        (ds : List Dial)
        → All (OfDial now (batch_of b.capacity) b.active b.entries) ds
        → All (Victim now b.active b.entries) (dial_addrs ds)
    dial_victims [] h = tt
    dial_victims (d ∷ ds) h = (h.0, dial_victims ds h.1)

    -- Where no key stands twice in the book, a pass leaves every entry that is not a victim:
    -- gossiped, without a task, and either past its forget rule or never tried.
    pub evict_batch-spares :
        get PeerAddr-discrete a (evict_batch now b).0.entries ≡ get PeerAddr-discrete a b.entries
    unfolding evict_batch
    evict_batch-spares =
        let s = scan_of now b in
        let w = scan_of-Victims in
        let ks =
          take (batch_of b.capacity - (remove_all s.forgettable b.entries).1)
            (dial_addrs s.sample.items) in
        remove_all-get a ks (remove_all s.forgettable b.entries).0 (
          not_Victim ks (
            All-take (Victim now b.active b.entries) _ (dial_addrs s.sample.items)
              (dial_victims s.sample.items w.sampled)))
        ∙ remove_all-get a s.forgettable b.entries (not_Victim s.forgettable w.forgettable)

  -- Where no key stands twice in the book, a pass reports room exactly when it made some, and
  -- takes at most a batch.
  pub evict_batch-length :
      (((evict_batch now b).1 ≡ true) ↔ (length (evict_batch now b).0.entries < length b.entries))
      × (length b.entries ≤ length (evict_batch now b).0.entries + batch_of b.capacity)
      × (length (evict_batch now b).0.entries ≤ length b.entries)
  unfolding evict_batch
  evict_batch-length =
      let s = scan_of now b in
      let first = remove_all-length s.forgettable b.entries v.entries_IsMap in
      let m = (remove_all s.forgettable b.entries).0 in
      let ks =
        take (batch_of b.capacity - (remove_all s.forgettable b.entries).1)
          (dial_addrs s.sample.items) in
      let second =
        remove_all-length ks m (remove_all-IsMap s.forgettable b.entries v.entries_IsMap) in
      let few =
        scan-length now (batch_of b.capacity) b.active b.entries b.entries
          (start_scan b.rng (batch_of b.capacity)) (omega arith) in
      let short =
        length-take (batch_of b.capacity - (remove_all s.forgettable b.entries).1)
          (dial_addrs s.sample.items) in
      (((λ h. ground arith), (λ h. ground arith)), omega arith, omega arith)

  pub evict_batch-IsBook : IsBook (evict_batch now b).0
  unfolding evict_batch
  evict_batch-IsBook =
      let s = scan_of now b in
      record {
        entries_IsMap =
            remove_all-IsMap _ _ (remove_all-IsMap s.forgettable b.entries v.entries_IsMap);
        active_IsMap = v.active_IsMap;
      }
