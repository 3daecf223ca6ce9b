-- ===== src/Subscription/Lists.antt =====
-- Lists of subscriptions: an entry put into the middle, and taken out of it.
use sobjectizer.Base.{
  ℕ, suc, ◌≡◌, refl, ap, true, ◌||◌, none, some, List, [], ◌∷◌, ◌++◌, length, if◌then◌else◌, arith,
}
use sobjectizer.Subscription.Iface.{
  SubscrInfo, same_pair, same_key, lookup, has_pair, SameContent, Distinct,
}

-- Equal keys have equal answers.
pub lookup_same :
    (o : SubscrInfo) (l : List SubscrInfo) (m t k : ℕ)
    → same_key m t k o ≡ true
    → lookup o.mbox o.msg_type o.state l ≡ lookup m t k l
lookup_same o l m t k h = ground arith

module _ (o : SubscrInfo) where
  pub lookup-middle :
      (b r : List SubscrInfo) (m t k : ℕ)
      → lookup o.mbox o.msg_type o.state (b ++ r) ≡ none
      → lookup m t k (b ++ o ∷ r)
        ≡ (if same_key m t k o then some o.handler else lookup m t k (b ++ r))
  unfolding lookup
  lookup-middle [] r m t k h = refl
  lookup-middle (x ∷ b) r m t k h = ground (arith, lookup-middle b r m t k)

  pub has_pair-middle :
      (b r : List SubscrInfo) (m t : ℕ)
      → has_pair m t (b ++ o ∷ r) ≡ (same_pair m t o || has_pair m t (b ++ r))
  unfolding has_pair
  has_pair-middle [] r m t = refl
  has_pair-middle (x ∷ b) r m t = ground (arith, has_pair-middle b r m t)

  pub length-middle : (b r : List SubscrInfo) → length (b ++ o ∷ r) ≡ suc (length (b ++ r))
  length-middle [] r = refl
  length-middle (x ∷ b) r = ap suc (length-middle b r)

  pub Distinct-insert :
      (b r : List SubscrInfo)
      → lookup o.mbox o.msg_type o.state (b ++ r) ≡ none
      → Distinct (b ++ r)
      → Distinct (b ++ o ∷ r)
  unfolding lookup
  Distinct-insert [] r h d = (h, d)
  Distinct-insert (x ∷ b) r h d = (
    ground (arith, lookup-middle b r x.mbox x.msg_type x.state),
    Distinct-insert b r (ground arith) d.1,
  )

  pub Distinct-remove :
      (b r : List SubscrInfo)
      → Distinct (b ++ o ∷ r)
      → Distinct (b ++ r) × (lookup o.mbox o.msg_type o.state (b ++ r) ≡ none)
  unfolding lookup
  Distinct-remove [] r d = (d.1, d.0)
  Distinct-remove (x ∷ b) r d =
      let (rest, gone) = Distinct-remove b r d.1 in
      (
        (ground (arith, lookup-middle b r x.mbox x.msg_type x.state), rest),
        ground (arith, lookup-middle b r x.mbox x.msg_type x.state),
      )

  -- Taking the entry out changes the answer at its key alone.
  pub lookup-remove :
      (b r : List SubscrInfo) (m t k : ℕ)
      → Distinct (b ++ o ∷ r)
      → lookup m t k (b ++ r) ≡ (if same_key m t k o then none else lookup m t k (b ++ o ∷ r))
  lookup-remove b r m t k d =
      let (_, gone) = Distinct-remove b r d in
      ground (arith, lookup-middle b r m t k gone, lookup_same o (b ++ r) m t k)

pub same_content : (l : List SubscrInfo) → SameContent l l
same_content l = record { answers = λ m t k. refl; pairs = λ m t. refl; count = refl }
