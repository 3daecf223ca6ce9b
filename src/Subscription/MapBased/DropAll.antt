-- ===== src/Subscription/MapBased/DropAll.antt =====
-- Dropping all subscriptions of the map.
use sobjectizer.Base.{
  ℕ, ◌≡◌, refl, Bool, true, false, ◌&&◌, List, [], ◌∷◌, ◌==◌, if◌then◌else◌, arith,
}
use sobjectizer.Subscription.Iface.{SubscrInfo, has_pair, subscribed_after, InStep}
use sobjectizer.Subscription.VectorBased.DropAll.{unsubscriptions}
use sobjectizer.Subscription.MapBased.{key_less, unsubscribe_last, destroy_all_subscriptions}
use sobjectizer.Subscription.MapBased.Order.{AllAbove, IsSorted}

-- A pair that the next item is not of, and that stands before it, does not come back.
absent :
    (m t a b c : ℕ) (l : List SubscrInfo)
    → ((a == m) && (b == t)) ≡ false
    → key_less m t 0 a b c ≡ true
    → AllAbove a b c l
    → has_pair m t l ≡ false
unfolding has_pair
absent m t a b c [] n h s = refl
absent m t a b c (o ∷ os) n h s = ground (arith, absent m t a b c os n h s.1)

unsubscriptions-last :
    (m t : ℕ) (l : List SubscrInfo)
    → IsSorted l
    → unsubscriptions m t (unsubscribe_last l) ≡ (if has_pair m t l then 1 else 0)
unfolding unsubscriptions unsubscribe_last has_pair
unsubscriptions-last m t [] s = refl
unsubscriptions-last m t (o ∷ []) s = ground arith
unsubscriptions-last m t (o ∷ p ∷ os) s = ground (
  arith,
  unsubscriptions-last m t (p ∷ os) s.1,
  absent o.mbox o.msg_type p.mbox p.msg_type p.state os,
)

subscribed_after-last :
    (m t : ℕ) (before : Bool) (l : List SubscrInfo)
    → subscribed_after m t before (unsubscribe_last l)
      ≡ (before && (unsubscriptions m t (unsubscribe_last l) == 0))
unfolding subscribed_after unsubscriptions unsubscribe_last
subscribed_after-last m t before [] = ground arith
subscribed_after-last m t before (o ∷ []) = ground arith
subscribed_after-last m t before (o ∷ p ∷ os) =
    ground
      (arith, subscribed_after-last m t before (p ∷ os), subscribed_after-last m t false (p ∷ os))

-- Destroying all subscriptions of a sorted map empties it and tells the mbox of each pair that had
-- some, and no other, to drop the type, exactly once.
pub map_destroy_all_once :
    (s : List SubscrInfo) (m t : ℕ)
    → IsSorted s
    → let (s', calls) = destroy_all_subscriptions s in
      (s' ≡ []) × (unsubscriptions m t calls ≡ (if has_pair m t s then 1 else 0))
unfolding destroy_all_subscriptions
map_destroy_all_once s m t v = (refl, unsubscriptions-last m t s v)

pub drop_all_law :
    (s : List SubscrInfo)
    → IsSorted s
    → let (s', calls) = destroy_all_subscriptions s in IsSorted s' × (s' ≡ []) × InStep s calls []
unfolding destroy_all_subscriptions has_pair
drop_all_law s v = (tt, refl, (λ m t. emptied m t))
  where
    emptied : (m t : ℕ) → subscribed_after m t (has_pair m t s) (unsubscribe_last s) ≡ false
    emptied m t =
        ground (arith, subscribed_after-last m t (has_pair m t s) s, unsubscriptions-last m t s v)
