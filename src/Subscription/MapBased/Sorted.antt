-- ===== src/Subscription/MapBased/Sorted.antt =====
-- Sorted lists: putting an item in and taking one out.
use sobjectizer.Base.{ℕ, ◌≡◌, true, List, [], ◌∷◌, ◌++◌}
use sobjectizer.Subscription.Iface.{SubscrInfo}
use sobjectizer.Subscription.MapBased.{key_less}
use sobjectizer.Subscription.MapBased.Order.{AllBelow, AllAbove, IsSorted}

pub AllAbove-append :
    (m t k : ℕ) (b r : List SubscrInfo)
    → AllAbove m t k (b ++ r)
    → AllAbove m t k b × AllAbove m t k r
AllAbove-append m t k [] r a = (tt, a)
AllAbove-append m t k (x ∷ b) r a =
    let (front, back) = AllAbove-append m t k b r a.1 in ((a.0, front), back)

AllAbove-insert :
    (m t k : ℕ) (o : SubscrInfo) (b r : List SubscrInfo)
    → key_less m t k o.mbox o.msg_type o.state ≡ true
    → AllAbove m t k (b ++ r)
    → AllAbove m t k (b ++ o ∷ r)
AllAbove-insert m t k o [] r h a = (h, a)
AllAbove-insert m t k o (x ∷ b) r h a = (a.0, AllAbove-insert m t k o b r h a.1)

AllAbove-remove :
    (m t k : ℕ) (o : SubscrInfo) (b r : List SubscrInfo)
    → AllAbove m t k (b ++ o ∷ r)
    → AllAbove m t k (b ++ r) × (key_less m t k o.mbox o.msg_type o.state ≡ true)
AllAbove-remove m t k o [] r a = (a.1, a.0)
AllAbove-remove m t k o (x ∷ b) r a =
    let (rest, h) = AllAbove-remove m t k o b r a.1 in ((a.0, rest), h)

pub IsSorted-append : (b r : List SubscrInfo) → IsSorted (b ++ r) → IsSorted b × IsSorted r
IsSorted-append [] r s = (tt, s)
IsSorted-append (x ∷ b) r s =
    let (front, back) = IsSorted-append b r s.1 in
    (((AllAbove-append x.mbox x.msg_type x.state b r s.0).0, front), back)

pub IsSorted-insert :
    (o : SubscrInfo) (b r : List SubscrInfo)
    → AllBelow o.mbox o.msg_type o.state b
    → AllAbove o.mbox o.msg_type o.state r
    → IsSorted (b ++ r)
    → IsSorted (b ++ o ∷ r)
IsSorted-insert o [] r b' r' s = (r', s)
IsSorted-insert o (x ∷ b) r b' r' s =
    (AllAbove-insert x.mbox x.msg_type x.state o b r b'.0 s.0, IsSorted-insert o b r b'.1 r' s.1)

pub IsSorted-remove :
    (o : SubscrInfo) (b r : List SubscrInfo)
    → IsSorted (b ++ o ∷ r)
    → IsSorted (b ++ r)
      × AllBelow o.mbox o.msg_type o.state b
      × AllAbove o.mbox o.msg_type o.state r
IsSorted-remove o [] r s = (s.1, tt, s.0)
IsSorted-remove o (x ∷ b) r s =
    let (rest, below, above) = IsSorted-remove o b r s.1 in
    let (front, less) = AllAbove-remove x.mbox x.msg_type x.state o b r s.0 in
    ((front, rest), (less, below), above)
