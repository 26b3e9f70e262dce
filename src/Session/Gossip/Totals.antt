-- ===== src/Session/Gossip/Totals.antt =====
-- What the effects of a session of observer/src/protocol.rs say of the addresses in its messages.
use mathlib.Core.List.{append_assoc}
use p2p_observer.Common.{
  ℕ, ◌+◌, ◌≤◌, ◌≡◌, refl, sym, ap, ◌∙◌, Bool, true, false, List, [], ◌∷◌, ◌++◌, arith, length,
  length-take, take, if◌then◌else◌,
}
use p2p_observer.Book.Entry.{Gossiped}
use p2p_observer.Session.Bucket.{F64}
use p2p_observer.Session.Gossip.{announced, offer_gossip}
use p2p_observer.Session.Messages.{
  AddrMessage, AddressAnnouncement, Effect, Event, address_announcement, gossiped, published,
}
use p2p_observer.Session.State.{Handler, ◌>>◌, done}

-- An ADDR or ADDRV2: when it came, the number of entries that it declared, and those that parsed.
pub record Offer : Type 0 where
  pub now : ℕ
  pub message : AddrMessage
  pub received : ℕ
  pub parsed : List Gossiped

abbrev pub reply_in : Event → List AddressAnnouncement
reply_in (address_announcement a) = if a.solicited then a ∷ [] else []
reply_in _ = []

module _ {Header : Type 0} where
  unfoldable pub offer_all : F64 → List Offer → Handler Header Unit
  offer_all f [] = done
  offer_all f (o ∷ os) = offer_gossip f o.now o.message o.received o.parsed >> offer_all f os

  abbrev pub learnt_by : Effect Header → ℕ
  learnt_by (gossiped gs) = length gs
  learnt_by _ = 0

  -- The addresses that were handed to the manager.
  abbrev pub learnt : List (Effect Header) → ℕ
  learnt [] = 0
  learnt (e ∷ es) = learnt_by e + learnt es

  abbrev pub reply_of : Effect Header → List AddressAnnouncement
  reply_of (published e) = reply_in e
  reply_of _ = []

  -- The messages that were taken for the reply to our GETADDR.
  abbrev pub replies : List (Effect Header) → List AddressAnnouncement
  replies [] = []
  replies (e ∷ es) = reply_of e ++ replies es

  pub learnt-append : (es ds : List (Effect Header)) → learnt (es ++ ds) ≡ learnt es + learnt ds
  learnt-append [] ds = omega arith
  learnt-append (e ∷ es) ds = omega (arith, learnt-append es ds)

  pub replies-append :
      (es ds : List (Effect Header)) → replies (es ++ ds) ≡ replies es ++ replies ds
  replies-append [] ds = refl
  replies-append (e ∷ es) ds =
      ap (λ rs. reply_of e ++ rs) (replies-append es ds)
      ∙ sym (append_assoc (reply_of e) (replies es) (replies ds))

abbrev pub times : List Offer → List ℕ
times [] = []
times (o ∷ os) = o.now ∷ times os

-- The addresses of replies, which the limit spares.
abbrev pub spared : List AddressAnnouncement → ℕ
spared [] = 0
spared (r ∷ rs) = length r.addresses + spared rs

pub spared-append : (rs ts : List AddressAnnouncement) → spared (rs ++ ts) ≡ spared rs + spared ts
spared-append [] ts = omega arith
spared-append (r ∷ rs) ts = omega (arith, spared-append rs ts)

abbrev pub as_number : Bool → ℕ
as_number true = 1
as_number false = 0

pub length-take-le : (k : ℕ) (gs : List Gossiped) → length (take k gs) ≤ k
length-take-le k gs = omega (arith, length-take k gs)

pub spared_reply :
    (solicited : Bool) (message : AddrMessage) (received limited tokens : ℕ) (gs : List Gossiped)
    → spared (
        reply_in (address_announcement (announced message received gs solicited limited tokens))
        ++ [])
      ≡ (if solicited then length gs else 0)
unfolding announced
spared_reply true message received limited tokens gs = omega arith
spared_reply false message received limited tokens gs = refl

pub count_reply :
    (solicited : Bool) (message : AddrMessage) (received limited tokens : ℕ) (gs : List Gossiped)
    → length (
        reply_in (address_announcement (announced message received gs solicited limited tokens))
        ++ [])
      ≡ as_number solicited
unfolding announced
count_reply true message received limited tokens gs = refl
count_reply false message received limited tokens gs = refl
