-- ===== src/Banlist/Add.antt =====
-- `Banlist::add`: what is banned after a ban, and the count that it reports.
use p2p_observer.Common.{
  ◌+◌, ◌≡◌, refl, Bool, true, false, ◌||◌, List, [], ◌∷◌, ◌++◌, arith, any, length,
}
use p2p_observer.PeerAddr.{IpAddr}
use p2p_observer.Banlist.{
  BanEntry, IpNet, net_contains, contains_ip, has_net, new_nets, new_hosts, add, banlist_len,
}

or_assoc : (a b c : Bool) → ((a || b) || c) ≡ (a || (b || c))
or_assoc true b c = refl
or_assoc false b c = refl

any-append {ℓ} :
    {A : Type ℓ} (test : A → Bool) (xs ys : List A)
    → any test (xs ++ ys) ≡ (any test xs || any test ys)
any-append test [] ys = refl
any-append test (x ∷ xs) ys = ground (arith, any-append test xs ys)

module _ (i : IpAddr) where
  has_net-contains :
      (n : IpNet) (ns : List IpNet)
      → has_net n ns ≡ true
      → net_contains n i ≡ true
      → any (λ m. net_contains m i) ns ≡ true
  unfolding has_net
  has_net-contains n [] h k = cc
  has_net-contains n (m ∷ ms) h k = ground (arith, has_net-contains n ms)

  held-contains :
      (n : IpNet) (es : List BanEntry)
      → any (λ e. has_net n e.nets) es ≡ true
      → net_contains n i ≡ true
      → contains_ip es i ≡ true
  unfolding contains_ip
  held-contains n [] h k = cc
  held-contains n (e ∷ es) h k = ground (arith, has_net-contains n e.nets, held-contains n es)

  contains_ip-new_nets :
      (es : List BanEntry) (ns : List IpNet)
      → (contains_ip es i || any (λ n. net_contains n i) (new_nets es ns))
        ≡ (contains_ip es i || any (λ n. net_contains n i) ns)
  unfolding new_nets
  contains_ip-new_nets es [] = refl
  contains_ip-new_nets es (n ∷ ns) = ground (arith, held-contains n es, contains_ip-new_nets es ns)

  contains_ip-append :
      (es : List BanEntry) (e : BanEntry)
      → contains_ip (es ++ e ∷ []) i ≡ (contains_ip es i || any (λ n. net_contains n i) e.nets)
  unfolding contains_ip
  contains_ip-append [] e = ground arith
  contains_ip-append (x ∷ es) e = ground (arith, contains_ip-append es e)

  -- A ban of a network takes effect and lifts none: after `add` exactly the addresses are banned
  -- that were banned before or that a network of the new entry contains.
  pub contains_ip-add :
      (entries : List BanEntry) (entry : BanEntry)
      → contains_ip (add entries entry).0 i
        ≡ (contains_ip entries i || any (λ n. net_contains n i) entry.nets)
  unfolding add
  contains_ip-add entries entry = ground (
    arith,
    contains_ip-append entries (record {
      comment = entry.comment;
      nets = new_nets entries entry.nets;
      hosts = new_hosts entries entry.hosts;
    }),
    contains_ip-new_nets entries entry.nets,
    no_nets (new_nets entries entry.nets),
  )
    where
      no_nets : (ns : List IpNet) → length ns ≡ 0 → any (λ n. net_contains n i) ns ≡ false
      no_nets [] h = refl
      no_nets (n ∷ ns) h = absurd (omega arith)

len-append : (xs ys : List BanEntry) → banlist_len (xs ++ ys) ≡ banlist_len xs + banlist_len ys
unfolding banlist_len
len-append [] ys = omega arith
len-append (x ∷ xs) ys = omega (arith, len-append xs ys)

len_singleton : (e : BanEntry) → banlist_len (e ∷ []) ≡ length e.nets + length e.hosts
unfolding banlist_len
len_singleton e = omega arith

-- The count that `add` returns is what the list grew by.
banlist_len-add :
    (entries : List BanEntry) (entry : BanEntry)
    → banlist_len (add entries entry).0 ≡ banlist_len entries + (add entries entry).1
unfolding add
banlist_len-add entries entry =
    let new : BanEntry = record {
      comment = entry.comment;
      nets = new_nets entries entry.nets;
      hosts = new_hosts entries entry.hosts;
    } in
    ground (arith, len-append entries (new ∷ []), len_singleton new)
