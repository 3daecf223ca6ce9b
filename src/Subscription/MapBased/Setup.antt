-- ===== src/Subscription/MapBased/Setup.antt =====
-- Filling the map from another storage's contents.
use sobjectizer.Base.{
  ℕ, ◌≡◌, refl, sym, ap, subst, ◌∙◌, none, List, [], ◌∷◌, ◌++◌, length, append-nil, append_assoc,
  arith,
}
use sobjectizer.Subscription.Iface.{SubscrInfo, lookup, has_pair, Distinct}
use sobjectizer.Subscription.Lists.{
  lookup-middle, has_pair-middle, length-middle, Distinct-insert, Distinct-remove,
}
use sobjectizer.Subscription.MapBased.{lower_bound, find, insert, insert_all, setup_content}
use sobjectizer.Subscription.MapBased.Order.{
  IsSorted, lower_bound-append, lower_bound-AllBelow, find-none-AllAbove,
}
use sobjectizer.Subscription.MapBased.Sorted.{IsSorted-insert}
use sobjectizer.Subscription.MapBased.Find.{find_new}

-- `new` has the items of `old`, with the same answers.
pub record Filled (old new : List SubscrInfo) : Type 0 where
  pub sorted : IsSorted new
  pub answers : (m t k : ℕ) → lookup m t k new ≡ lookup m t k old
  pub pairs : (m t : ℕ) → has_pair m t new ≡ has_pair m t old
  pub count : length new ≡ length old

lookup-prefix :
    (m t k : ℕ) (xs ys : List SubscrInfo) → lookup m t k (xs ++ ys) ≡ none → lookup m t k xs ≡ none
unfolding lookup
lookup-prefix m t k [] ys e = refl
lookup-prefix m t k (o ∷ xs) ys e = ground (arith, lookup-prefix m t k xs ys)

module _ (o : SubscrInfo) (acc os : List SubscrInfo) (v : IsSorted acc)
    (d : Distinct (acc ++ o ∷ os)) where
  abbrev before : List SubscrInfo
  before = (lower_bound o.mbox o.msg_type o.state acc).0

  abbrev rest : List SubscrInfo
  rest = (lower_bound o.mbox o.msg_type o.state acc).1

  split : before ++ rest ≡ acc
  split = lower_bound-append o.mbox o.msg_type o.state acc

  moved : before ++ (rest ++ os) ≡ acc ++ os
  moved = sym (append_assoc before rest os) ∙ ap (λ x. x ++ os) split

  gone : lookup o.mbox o.msg_type o.state (acc ++ os) ≡ none
  gone = (Distinct-remove o acc os d).1

  not_found : find o.mbox o.msg_type o.state acc ≡ none
  not_found =
      find_new o.mbox o.msg_type o.state acc (lookup-prefix o.mbox o.msg_type o.state acc os gone)

  insert_lem : insert o acc ≡ before ++ o ∷ rest
  unfolding insert
  insert_lem = rw (not_found, insert)

  insert-IsSorted : IsSorted (insert o acc)
  insert-IsSorted = rw insert_lem (
      IsSorted-insert o before rest (lower_bound-AllBelow o.mbox o.msg_type o.state acc)
        (find-none-AllAbove o.mbox o.msg_type o.state acc v not_found) (rw split v))

  inserted : insert o acc ++ os ≡ before ++ o ∷ (rest ++ os)
  inserted = ap (λ x. x ++ os) insert_lem ∙ append_assoc before (o ∷ rest) os

  insert-Distinct : Distinct (insert o acc ++ os)
  insert-Distinct = rw inserted (
      Distinct-insert o before (rest ++ os) (rw moved gone)
        (rw moved (Distinct-remove o acc os d).0))

  insert-lookup : (m t k : ℕ) → lookup m t k (insert o acc ++ os) ≡ lookup m t k (acc ++ o ∷ os)
  insert-lookup m t k = rw inserted (
      lookup-middle o before (rest ++ os) m t k (rw moved gone)
      ∙ (rw moved (sym (lookup-middle o acc os m t k gone))))

  insert-has_pair : (m t : ℕ) → has_pair m t (insert o acc ++ os) ≡ has_pair m t (acc ++ o ∷ os)
  insert-has_pair m t =
      rw inserted (
        has_pair-middle o before (rest ++ os) m t ∙ (rw moved (sym (has_pair-middle o acc os m t))))

  insert-length : length (insert o acc ++ os) ≡ length (acc ++ o ∷ os)
  insert-length =
      rw inserted (length-middle o before (rest ++ os) ∙ (rw moved (sym (length-middle o acc os))))

insert_all_lem :
    (acc l : List SubscrInfo)
    → IsSorted acc
    → Distinct (acc ++ l)
    → Filled (acc ++ l) (insert_all acc l)
unfolding insert_all
insert_all_lem acc [] v d =
    subst (λ x. Filled x acc) (sym (append-nil acc))
      (record { sorted = v; answers = λ m t k. refl; pairs = λ m t. refl; count = refl })
insert_all_lem acc (o ∷ os) v d =
    let done =
      insert_all_lem (insert o acc) os (insert-IsSorted o acc os v d)
        (insert-Distinct o acc os v d) in
    record {
      sorted = done.sorted;
      answers = λ m t k. done.answers m t k ∙ insert-lookup o acc os v d m t k;
      pairs = λ m t. done.pairs m t ∙ insert-has_pair o acc os v d m t;
      count = done.count ∙ insert-length o acc os v d;
    }

-- Contents without a repeated key come over whole.
pub setup_content_lem : (l s : List SubscrInfo) → Distinct l → Filled l (setup_content l s)
unfolding setup_content
setup_content_lem l s d = insert_all_lem [] l tt d
