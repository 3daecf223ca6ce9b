-- ===== src/Subscription/Adaptive/Laws.antt =====
-- The contract of a storage, for the adaptive storage over two storages.
use sobjectizer.Base.{
  ℕ, suc, ◌≡◌, sym, ap, ◌∙◌, inl, inr, Bool, true, false, ◌||◌, ◌&&◌, ◌==◌, none, some, List, [],
  length, leb, if◌then◌else◌, Bool-cases,
}
use sobjectizer.Subscription.Iface.{
  SubscrInfo, EventHandlerData, MboxCall, Error, evt_handler_already_provided, mbox_exception,
  Outcome, same_key, lookup, has_pair, Distinct, subscribed_after, StorageOps, InStep, Answers,
  SameContent, StorageLaws,
}
use sobjectizer.Subscription.Lists.{same_content}
use sobjectizer.Subscription.Adaptive.{
  Current, small_storage, large_storage, AdaptiveStorage, query_content, query_subscriptions_count,
  find_handler, to_large, to_small, try_switch_to_larger_storage, try_switch_to_smaller_storage,
  create_in_current, create_event_subscription, drop_in_current, drop_subscription,
  drop_subscription_for_all_states, drop_all_subscriptions, drop_content, setup_content,
  adaptive_storage,
}

same_trans : (a b c : List SubscrInfo) → SameContent a b → SameContent b c → SameContent a c
same_trans a b c f g = record {
  answers = λ m t k. g.answers m t k ∙ f.answers m t k;
  pairs = λ m t. g.pairs m t ∙ f.pairs m t;
  count = g.count ∙ f.count;
}

-- What a drop does to the contents, in any storage.
abbrev Dropped {ℓ} :
    {S : Type ℓ}
    → (S → Type 0)
    → (S → List SubscrInfo)
    → (ℕ → ℕ → ℕ → Bool)
    → S
    → S × List MboxCall
    → Type 0
Dropped Valid content changed s (s', calls) =
    Valid s' × Answers (content s) changed none (content s') × InStep (content s) calls (content s')

module _ (small large : StorageOps) (laws : StorageLaws small) (laws' : StorageLaws large) where
  -- The storage that is not the current one is empty.
  abbrev Idle : Current → small.Storage → large.Storage → Type 0
  Idle small_storage s l = large.query_content l ≡ []
  Idle large_storage s l = small.query_content s ≡ []

  pub record IsValid (a : AdaptiveStorage small large) : Type 0 where
    pub small_valid : laws.IsValid a.small_part
    pub large_valid : laws'.IsValid a.large_part
    pub idle : Idle a.current a.small_part a.large_part

  abbrev pack : ℕ → small.Storage → large.Storage → Current → AdaptiveStorage small large
  pack n s l c = record { threshold = n; small_part = s; large_part = l; current = c }

  abbrev content : AdaptiveStorage small large → List SubscrInfo
  content = query_content small large

  abbrev Switched : AdaptiveStorage small large → AdaptiveStorage small large → Type 0
  Switched a b = IsValid b × SameContent (content a) (content b)

  to_large_lem :
      (n : ℕ) (s : small.Storage) (l : large.Storage)
      → IsValid (pack n s l small_storage)
      → Switched (pack n s l small_storage) (to_large small large (pack n s l small_storage))
  unfolding query_content to_large
  to_large_lem n s l v =
      let (valid, same) =
        laws'.setup_law (small.query_content s) l (laws.distinct s v.small_valid) v.large_valid
          v.idle in
      let (small_valid, e) = laws.drop_content_law s v.small_valid in
      (record { small_valid = small_valid; large_valid = valid; idle = e }, same)

  to_small_lem :
      (n : ℕ) (s : small.Storage) (l : large.Storage)
      → IsValid (pack n s l large_storage)
      → Switched (pack n s l large_storage) (to_small small large (pack n s l large_storage))
  unfolding query_content to_small
  to_small_lem n s l v =
      let (valid, same) =
        laws.setup_law (large.query_content l) s (laws'.distinct l v.large_valid) v.small_valid
          v.idle in
      let (large_valid, e) = laws'.drop_content_law l v.large_valid in
      (record { small_valid = valid; large_valid = large_valid; idle = e }, same)

  larger_at :
      (n : ℕ) (s : small.Storage) (l : large.Storage) (c : Current)
      → IsValid (pack n s l c)
      → Switched (pack n s l c) (try_switch_to_larger_storage small large (pack n s l c))
  unfolding try_switch_to_larger_storage
  larger_at n s l small_storage v = elim (Bool-cases (leb n (small.query_subscriptions_count s))) [
    | inl e ↦ rw e (to_large_lem n s l v)
    | inr e ↦ rw e (v, same_content (content (pack n s l small_storage)))
  ]
  larger_at n s l large_storage v = (v, same_content (content (pack n s l large_storage)))

  smaller_at :
      (n : ℕ) (s : small.Storage) (l : large.Storage) (c : Current)
      → IsValid (pack n s l c)
      → Switched (pack n s l c) (try_switch_to_smaller_storage small large (pack n s l c))
  unfolding try_switch_to_smaller_storage
  smaller_at n s l small_storage v = (v, same_content (content (pack n s l small_storage)))
  smaller_at n s l large_storage v = elim (Bool-cases (leb (large.query_subscriptions_count l) n)) [
    | inl e ↦ rw e (to_small_lem n s l v)
    | inr e ↦ rw e (v, same_content (content (pack n s l large_storage)))
  ]

  -- A switch to the large storage changes no answer, nor does a switch back.
  larger :
      (a : AdaptiveStorage small large)
      → IsValid a
      → Switched a (try_switch_to_larger_storage small large a)
  larger a v = larger_at a.threshold a.small_part a.large_part a.current v

  smaller :
      (a : AdaptiveStorage small large)
      → IsValid a
      → Switched a (try_switch_to_smaller_storage small large a)
  smaller a v = smaller_at a.threshold a.small_part a.large_part a.current v

  -- What a creation does, refused or not.
  abbrev Rejected : Error → List SubscrInfo → Outcome (AdaptiveStorage small large) → Type 0
  Rejected e s r =
      (r.error ≡ some e) × (r.calls ≡ []) × IsValid r.storage × SameContent s (content r.storage)

  abbrev Made : SubscrInfo → List SubscrInfo → Outcome (AdaptiveStorage small large) → Type 0
  Made o s r =
      (r.error ≡ none)
      × IsValid r.storage
      × Answers s (λ m t k. same_key m t k o) (some o.handler) (content r.storage)
      × InStep s r.calls (content r.storage)
      × (length (content r.storage) ≡ suc (length s))

  known_at :
      (returns : Bool) (o : SubscrInfo) (h : EventHandlerData) (n : ℕ) (s : small.Storage)
      (l : large.Storage) (c : Current)
      → IsValid (pack n s l c)
      → lookup o.mbox o.msg_type o.state (content (pack n s l c)) ≡ some h
      → Rejected evt_handler_already_provided
          (content (pack n s l c))
          (create_in_current small large returns o (pack n s l c))
  unfolding query_content create_in_current
  known_at returns o h n s l small_storage v e =
      let (err, calls, valid, same) = laws.create_known returns o s h v.small_valid e in
      (err, calls, record { small_valid = valid; large_valid = v.large_valid; idle = v.idle }, same)
  known_at returns o h n s l large_storage v e =
      let (err, calls, valid, same) = laws'.create_known returns o l h v.large_valid e in
      (err, calls, record { small_valid = v.small_valid; large_valid = valid; idle = v.idle }, same)

  refused_at :
      (o : SubscrInfo) (n : ℕ) (s : small.Storage) (l : large.Storage) (c : Current)
      → IsValid (pack n s l c)
      → lookup o.mbox o.msg_type o.state (content (pack n s l c)) ≡ none
      → has_pair o.mbox o.msg_type (content (pack n s l c)) ≡ false
      → Rejected mbox_exception
          (content (pack n s l c))
          (create_in_current small large false o (pack n s l c))
  unfolding query_content create_in_current
  refused_at o n s l small_storage v e p =
      let (err, calls, valid, same) = laws.create_refused o s v.small_valid e p in
      (err, calls, record { small_valid = valid; large_valid = v.large_valid; idle = v.idle }, same)
  refused_at o n s l large_storage v e p =
      let (err, calls, valid, same) = laws'.create_refused o l v.large_valid e p in
      (err, calls, record { small_valid = v.small_valid; large_valid = valid; idle = v.idle }, same)

  created_at :
      (returns : Bool) (o : SubscrInfo) (n : ℕ) (s : small.Storage) (l : large.Storage)
      (c : Current)
      → IsValid (pack n s l c)
      → lookup o.mbox o.msg_type o.state (content (pack n s l c)) ≡ none
      → (returns || has_pair o.mbox o.msg_type (content (pack n s l c))) ≡ true
      → Made o (content (pack n s l c)) (create_in_current small large returns o (pack n s l c))
  unfolding query_content create_in_current
  created_at returns o n s l small_storage v e p =
      let (err, valid, answers, step, count) = laws.create_new returns o s v.small_valid e p in
      (
        err,
        record { small_valid = valid; large_valid = v.large_valid; idle = v.idle },
        answers,
        step,
        count,
      )
  created_at returns o n s l large_storage v e p =
      let (err, valid, answers, step, count) = laws'.create_new returns o l v.large_valid e p in
      (
        err,
        record { small_valid = v.small_valid; large_valid = valid; idle = v.idle },
        answers,
        step,
        count,
      )

  dropped_at :
      (changed : ℕ → ℕ → ℕ → Bool) (f : small.Storage → small.Storage × List MboxCall)
      (g : large.Storage → large.Storage × List MboxCall)
      → ((s : small.Storage)
          → laws.IsValid s
          → Dropped laws.IsValid small.query_content changed s (f s))
      → ((l : large.Storage)
          → laws'.IsValid l
          → Dropped laws'.IsValid large.query_content changed l (g l))
      → (n : ℕ) (s : small.Storage) (l : large.Storage) (c : Current) → IsValid (pack n s l c)
      → Dropped IsValid content changed
          (pack n s l c)
          (drop_in_current small large f g (pack n s l c))
  unfolding query_content drop_in_current
  dropped_at changed f g p q n s l small_storage v =
      let (valid, answers, step) = p s v.small_valid in
      (record { small_valid = valid; large_valid = v.large_valid; idle = v.idle }, answers, step)
  dropped_at changed f g p q n s l large_storage v =
      let (valid, answers, step) = q l v.large_valid in
      (record { small_valid = v.small_valid; large_valid = valid; idle = v.idle }, answers, step)

  -- A drop in the current storage, and the switch behind it.
  pub dropped :
      (changed : ℕ → ℕ → ℕ → Bool) (f : small.Storage → small.Storage × List MboxCall)
      (g : large.Storage → large.Storage × List MboxCall)
      → ((s : small.Storage)
          → laws.IsValid s
          → Dropped laws.IsValid small.query_content changed s (f s))
      → ((l : large.Storage)
          → laws'.IsValid l
          → Dropped laws'.IsValid large.query_content changed l (g l))
      → (a : AdaptiveStorage small large) → IsValid a
      → let (b, calls) = drop_in_current small large f g a in
        Dropped IsValid content changed a (try_switch_to_smaller_storage small large b, calls)
  dropped changed f g p q a v =
      let r = drop_in_current small large f g a in
      let (valid, answers, step) =
        dropped_at changed f g p q a.threshold a.small_part a.large_part a.current v in
      let (valid', same) = smaller r.0 valid in
      (
        valid',
        (λ m t k. same.answers m t k ∙ answers m t k),
        (λ m t. step m t ∙ sym (same.pairs m t)),
      )

  pub find_at :
      (m t k n : ℕ) (s : small.Storage) (l : large.Storage) (c : Current)
      → IsValid (pack n s l c)
      → find_handler small large m t k (pack n s l c) ≡ lookup m t k (content (pack n s l c))
  unfolding query_content find_handler
  find_at m t k n s l small_storage v = laws.find_law s m t k v.small_valid
  find_at m t k n s l large_storage v = laws'.find_law l m t k v.large_valid

  pub count_at :
      (n : ℕ) (s : small.Storage) (l : large.Storage) (c : Current)
      → query_subscriptions_count small large (pack n s l c) ≡ length (content (pack n s l c))
  unfolding query_content query_subscriptions_count
  count_at n s l small_storage = laws.count_law s
  count_at n s l large_storage = laws'.count_law l

  pub content-Distinct :
      (n : ℕ) (s : small.Storage) (l : large.Storage) (c : Current)
      → IsValid (pack n s l c)
      → Distinct (content (pack n s l c))
  unfolding query_content
  content-Distinct n s l small_storage v = laws.distinct s v.small_valid
  content-Distinct n s l large_storage v = laws'.distinct l v.large_valid

  pub drop_all_at :
      (n : ℕ) (s : small.Storage) (l : large.Storage) (c : Current)
      → IsValid (pack n s l c)
      → let (b, calls) = drop_all_subscriptions small large (pack n s l c) in
        IsValid b × (content b ≡ []) × InStep (content (pack n s l c)) calls []
  unfolding query_content drop_all_subscriptions
  drop_all_at n s l small_storage v =
      let (valid, e, step) = laws.drop_all_law s v.small_valid in
      (record { small_valid = valid; large_valid = v.large_valid; idle = v.idle }, e, step)
  drop_all_at n s l large_storage v =
      let (valid, e, step) = laws'.drop_all_law l v.large_valid in
      (record { small_valid = v.small_valid; large_valid = valid; idle = e }, v.idle, step)

  pub drop_content_at :
      (n : ℕ) (s : small.Storage) (l : large.Storage) (c : Current)
      → IsValid (pack n s l c)
      → let b = drop_content small large (pack n s l c) in IsValid b × (content b ≡ [])
  unfolding query_content drop_content
  drop_content_at n s l small_storage v =
      let (valid, e) = laws.drop_content_law s v.small_valid in
      (record { small_valid = valid; large_valid = v.large_valid; idle = v.idle }, e)
  drop_content_at n s l large_storage v =
      let (valid, e) = laws'.drop_content_law l v.large_valid in
      (record { small_valid = v.small_valid; large_valid = valid; idle = e }, v.idle)

  both_empty :
      (n : ℕ) (s : small.Storage) (l : large.Storage) (c : Current)
      → IsValid (pack n s l c)
      → content (pack n s l c) ≡ []
      → (small.query_content s ≡ []) × (large.query_content l ≡ [])
  unfolding query_content
  both_empty n s l small_storage v e = (e, v.idle)
  both_empty n s l large_storage v e = (v.idle, e)

  pub setup :
      (info : List SubscrInfo) (a : AdaptiveStorage small large)
      → Distinct info
      → IsValid a
      → content a ≡ []
      → let b = setup_content small large info a in IsValid b × SameContent info (content b)
  unfolding query_content setup_content
  setup info a d v e =
      let (none_small, none_large) =
        both_empty a.threshold a.small_part a.large_part a.current v e in
      elim (Bool-cases (leb (length info) a.threshold)) [
        | inl e ↦
            let (valid, same) = laws.setup_law info a.small_part d v.small_valid none_small in
            rw e
              (record { small_valid = valid; large_valid = v.large_valid; idle = none_large }, same)
        | inr e ↦
            let (valid, same) = laws'.setup_law info a.large_part d v.large_valid none_large in
            rw e
              (record { small_valid = v.small_valid; large_valid = valid; idle = none_small }, same)
      ]

  -- A creation, through the switch before it.
  pub create_known :
      (returns : Bool) (o : SubscrInfo) (a : AdaptiveStorage small large) (h : EventHandlerData)
      → IsValid a
      → lookup o.mbox o.msg_type o.state (content a) ≡ some h
      → Rejected evt_handler_already_provided
          (content a)
          (create_event_subscription small large returns o a)
  unfolding create_event_subscription
  create_known returns o a h v e =
      let b = try_switch_to_larger_storage small large a in
      let (valid, same) = larger a v in
      let (err, calls, valid', same') =
        known_at returns o h b.threshold b.small_part b.large_part b.current valid
          (same.answers o.mbox o.msg_type o.state ∙ e) in
      (err, calls, valid', same_trans (content a) (content b) _ same same')

  pub create_refused :
      (o : SubscrInfo) (a : AdaptiveStorage small large)
      → IsValid a
      → lookup o.mbox o.msg_type o.state (content a) ≡ none
      → has_pair o.mbox o.msg_type (content a) ≡ false
      → Rejected mbox_exception (content a) (create_event_subscription small large false o a)
  unfolding create_event_subscription
  create_refused o a v e p =
      let b = try_switch_to_larger_storage small large a in
      let (valid, same) = larger a v in
      let (err, calls, valid', same') =
        refused_at o b.threshold b.small_part b.large_part b.current valid
          (same.answers o.mbox o.msg_type o.state ∙ e) (same.pairs o.mbox o.msg_type ∙ p) in
      (err, calls, valid', same_trans (content a) (content b) _ same same')

  pub create_new :
      (returns : Bool) (o : SubscrInfo) (a : AdaptiveStorage small large)
      → IsValid a
      → lookup o.mbox o.msg_type o.state (content a) ≡ none
      → (returns || has_pair o.mbox o.msg_type (content a)) ≡ true
      → Made o (content a) (create_event_subscription small large returns o a)
  unfolding create_event_subscription
  create_new returns o a v e p =
      let b = try_switch_to_larger_storage small large a in
      let (valid, same) = larger a v in
      let (err, valid', answers, step, count) =
        created_at returns o b.threshold b.small_part b.large_part b.current valid
          (same.answers o.mbox o.msg_type o.state ∙ e)
          (ap (λ x. returns || x) (same.pairs o.mbox o.msg_type) ∙ p) in
      (
        err,
        valid',
        (λ m t k.
            answers m t k
            ∙ ap (λ x. if same_key m t k o then some o.handler else x) (same.answers m t k)),
        (λ m t.
            ap (λ x. subscribed_after m t x (create_in_current small large returns o b).calls)
              (sym (same.pairs m t))
            ∙ step m t),
        count ∙ ap suc same.count,
      )

  -- The adaptive storage meets the contract, whichever storage it is using.
  unfoldable pub adaptive-StorageLaws : StorageLaws (adaptive_storage small large)
  unfolding drop_subscription drop_subscription_for_all_states
  adaptive-StorageLaws = record {
    IsValid = IsValid;
    distinct = λ a v. content-Distinct a.threshold a.small_part a.large_part a.current v;
    find_law = λ a m t k v. find_at m t k a.threshold a.small_part a.large_part a.current v;
    count_law = λ a. count_at a.threshold a.small_part a.large_part a.current;
    create_known = create_known;
    create_refused = create_refused;
    create_new = create_new;
    drop_law = λ m t k a v.
        dropped (λ m' t' k'. (m == m') && ((t == t') && (k == k'))) (small.drop_subscription m t k)
          (large.drop_subscription m t k) (laws.drop_law m t k) (laws'.drop_law m t k) a v;
    drop_for_all_states_law = λ m t a v.
        dropped (λ m' t' k'. (m == m') && (t == t')) (small.drop_subscription_for_all_states m t)
          (large.drop_subscription_for_all_states m t) (laws.drop_for_all_states_law m t)
          (laws'.drop_for_all_states_law m t) a v;
    drop_all_law = λ a v. drop_all_at a.threshold a.small_part a.large_part a.current v;
    drop_content_law = λ a v. drop_content_at a.threshold a.small_part a.large_part a.current v;
    setup_law = setup;
  }
