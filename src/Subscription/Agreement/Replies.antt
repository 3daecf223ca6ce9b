-- ===== src/Subscription/Agreement/Replies.antt =====
-- The replies of two storages to one script of calls.
use sobjectizer.Base.{
  ℕ, ◌≡◌, refl, sym, ap, ap₂, ◌∙◌, inl, inr, Bool, true, false, ◌||◌, ◌&&◌, ◌==◌, Option, none,
  some, List, [], ◌∷◌, if◌then◌else◌, Bool-cases, Option-cases,
}
use sobjectizer.Subscription.Iface.{
  SubscrInfo, EventHandlerData, same_key, lookup, has_pair, StorageOps, StorageLaws,
}
use sobjectizer.Subscription.VectorBased.{vector_based_storage}
use sobjectizer.Subscription.VectorBased.DropAll.{IsSort}
use sobjectizer.Subscription.VectorBased.Laws.{vector_based-StorageLaws}
use sobjectizer.Subscription.MapBased.{map_based_storage}
use sobjectizer.Subscription.MapBased.Laws.{map_based-StorageLaws}
use sobjectizer.Subscription.Adaptive.{adaptive_storage, make, query_content}
use sobjectizer.Subscription.Adaptive.Laws.{adaptive-StorageLaws}
use sobjectizer.Subscription.Agreement.{
  StorageCall, creates, drops, drops_for_all_states, drops_all, finds, created, found, perform,
  replies, same_has_pair,
}

abbrev SameAnswers : List SubscrInfo → List SubscrInfo → Type 0
SameAnswers l l' = (m t k : ℕ) → lookup m t k l ≡ lookup m t k l'

-- The same change on both sides keeps the answers the same.
changed_alike :
    (changed : ℕ → ℕ → ℕ → Bool) (answer : Option EventHandlerData) (l l' n n' : List SubscrInfo)
    → SameAnswers l l'
    → ((m t k : ℕ) → lookup m t k n ≡ (if changed m t k then answer else lookup m t k l))
    → ((m t k : ℕ) → lookup m t k n' ≡ (if changed m t k then answer else lookup m t k l'))
    → SameAnswers n n'
changed_alike changed answer l l' n n' same a a' m t k =
    a m t k ∙ ap (λ x. if changed m t k then answer else x) (same m t k) ∙ sym (a' m t k)

module _ (ops ops' : StorageOps) (laws : StorageLaws ops) (laws' : StorageLaws ops') where
  record Alike (s : ops.Storage) (s' : ops'.Storage) : Type 0 where
    valid : laws.IsValid s
    valid' : laws'.IsValid s'
    same : SameAnswers (ops.query_content s) (ops'.query_content s')

  StepAlike : StorageCall → ops.Storage → ops'.Storage → Type 0
  StepAlike c s s' =
      ((perform ops c s).2 ≡ (perform ops' c s').2)
      × Alike (perform ops c s).0 (perform ops' c s').0

  module _ (o : SubscrInfo) (s : ops.Storage) (s' : ops'.Storage) (a : Alike s s') where
    known-Alike :
        (returns : Bool) (h : EventHandlerData)
        → lookup o.mbox o.msg_type o.state (ops.query_content s) ≡ some h
        → StepAlike (creates returns o) s s'
    unfolding StepAlike perform
    known-Alike returns h e =
        let e' = sym (a.same o.mbox o.msg_type o.state) ∙ e in
        let (err, calls, valid, kept) = laws.create_known returns o s h a.valid e in
        let (err', calls', valid', kept') = laws'.create_known returns o s' h a.valid' e' in
        (
          ap created (err ∙ sym err'),
          record {
            valid = valid;
            valid' = valid';
            same = λ m t k. kept.answers m t k ∙ a.same m t k ∙ sym (kept'.answers m t k);
          },
        )

    module _ (e : lookup o.mbox o.msg_type o.state (ops.query_content s) ≡ none) where
      unknown : lookup o.mbox o.msg_type o.state (ops'.query_content s') ≡ none
      unknown = sym (a.same o.mbox o.msg_type o.state) ∙ e

      pairs :
          has_pair o.mbox o.msg_type (ops'.query_content s')
          ≡ has_pair o.mbox o.msg_type (ops.query_content s)
      pairs = sym (
          same_has_pair o.mbox o.msg_type (ops.query_content s) (ops'.query_content s')
            (λ k. a.same o.mbox o.msg_type k))

      new-Alike :
          (returns : Bool)
          → (returns || has_pair o.mbox o.msg_type (ops.query_content s)) ≡ true
          → StepAlike (creates returns o) s s'
      unfolding StepAlike perform
      new-Alike returns p =
          let (err, valid, answers, step, count) = laws.create_new returns o s a.valid e p in
          let (err', valid', answers', step', count') =
            laws'.create_new returns o s' a.valid' unknown (ap (λ x. returns || x) pairs ∙ p) in
          (
            ap created (err ∙ sym err'),
            record {
              valid = valid;
              valid' = valid';
              same =
                  changed_alike (λ m t k. same_key m t k o) (some o.handler) (ops.query_content s)
                    (ops'.query_content s') _ _ a.same answers answers';
            },
          )

      refused-Alike :
          has_pair o.mbox o.msg_type (ops.query_content s) ≡ false
          → StepAlike (creates false o) s s'
      unfolding StepAlike perform
      refused-Alike p =
          let (err, calls, valid, kept) = laws.create_refused o s a.valid e p in
          let (err', calls', valid', kept') =
            laws'.create_refused o s' a.valid' unknown (pairs ∙ p) in
          (
            ap created (err ∙ sym err'),
            record {
              valid = valid;
              valid' = valid';
              same = λ m t k. kept.answers m t k ∙ a.same m t k ∙ sym (kept'.answers m t k);
            },
          )

      unknown-Alike : (returns : Bool) → StepAlike (creates returns o) s s'
      unknown-Alike true = new-Alike true refl
      unknown-Alike false = elim (Bool-cases (has_pair o.mbox o.msg_type (ops.query_content s))) [
        | inl p ↦ new-Alike false p
        | inr p ↦ refused-Alike p
      ]

    create-Alike : (returns : Bool) → StepAlike (creates returns o) s s'
    create-Alike returns =
        elim (Option-cases (lookup o.mbox o.msg_type o.state (ops.query_content s))) [
          | inl e ↦ unknown-Alike e returns
          | inr (h, e) ↦ known-Alike returns h e
        ]

  perform-Alike :
      (c : StorageCall) (s : ops.Storage) (s' : ops'.Storage) → Alike s s' → StepAlike c s s'
  unfolding StepAlike perform
  perform-Alike (creates returns o) s s' a = create-Alike o s s' a returns
  perform-Alike (drops m t k) s s' a =
      let (valid, answers, step) = laws.drop_law m t k s a.valid in
      let (valid', answers', step') = laws'.drop_law m t k s' a.valid' in
      (
        refl,
        record {
          valid = valid;
          valid' = valid';
          same =
              changed_alike (λ m' t' k'. (m == m') && ((t == t') && (k == k'))) none
                (ops.query_content s) (ops'.query_content s') _ _ a.same answers answers';
        },
      )
  perform-Alike (drops_for_all_states m t) s s' a =
      let (valid, answers, step) = laws.drop_for_all_states_law m t s a.valid in
      let (valid', answers', step') = laws'.drop_for_all_states_law m t s' a.valid' in
      (
        refl,
        record {
          valid = valid;
          valid' = valid';
          same =
              changed_alike (λ m' t' k'. (m == m') && (t == t')) none (ops.query_content s)
                (ops'.query_content s') _ _ a.same answers answers';
        },
      )
  perform-Alike drops_all s s' a =
      let (valid, e, step) = laws.drop_all_law s a.valid in
      let (valid', e', step') = laws'.drop_all_law s' a.valid' in
      (
        refl,
        record {
          valid = valid;
          valid' = valid';
          same = λ m t k. ap (λ x. lookup m t k x) (e ∙ sym e');
        },
      )
  perform-Alike (finds m t k) s s' a = (
    ap found
        (laws.find_law s m t k a.valid ∙ a.same m t k ∙ sym (laws'.find_law s' m t k a.valid')),
    a,
  )

  replies-Alike :
      (s : ops.Storage) (s' : ops'.Storage) (cs : List StorageCall)
      → Alike s s'
      → replies ops s cs ≡ replies ops' s' cs
  unfolding replies StepAlike
  replies-Alike s s' [] a = refl
  replies-Alike s s' (c ∷ cs) a =
      let (reply, a') = perform-Alike c s s' a in
      ap₂ ◌∷◌ reply (replies-Alike (perform ops c s).0 (perform ops' c s').0 cs a')

-- With a sort as documented of `std::sort`, the vector-based and the map-based storage, both empty at
-- first, give the same replies to every script of calls: the same exceptions of creations, where an
-- mbox refuses or not, and the same handlers found.
pub vector_like_map :
    (sort : List SubscrInfo → List SubscrInfo) (is_sort : IsSort sort) (script : List StorageCall)
    → replies (vector_based_storage sort) [] script ≡ replies map_based_storage [] script
vector_like_map sort is_sort script =
    replies-Alike (vector_based_storage sort) map_based_storage
      (vector_based-StorageLaws sort is_sort) map_based-StorageLaws [] [] script
      (record { valid = tt; valid' = tt; same = λ m t k. refl })

-- With a sort as documented, the adaptive storage over an empty vector and an empty map gives the
-- same replies to every script of calls as a map-based storage, whatever its threshold and however
-- often the script makes it switch.
pub adaptive_like_map :
    (sort : List SubscrInfo → List SubscrInfo) (is_sort : IsSort sort) (threshold : ℕ)
    (script : List StorageCall)
    → replies
        (adaptive_storage (vector_based_storage sort) map_based_storage)
        (make (vector_based_storage sort) map_based_storage threshold [] [])
        script
      ≡ replies map_based_storage [] script
unfolding make query_content adaptive-StorageLaws
adaptive_like_map sort is_sort threshold script =
    let small = vector_based-StorageLaws sort is_sort in
    replies-Alike (adaptive_storage (vector_based_storage sort) map_based_storage) map_based_storage
      (adaptive-StorageLaws (vector_based_storage sort) map_based_storage small
        map_based-StorageLaws)
      map_based-StorageLaws (make (vector_based_storage sort) map_based_storage threshold [] []) []
      script
      (record {
        valid = record { small_valid = tt; large_valid = tt; idle = refl };
        valid' = tt;
        same = λ m t k. refl;
      })
