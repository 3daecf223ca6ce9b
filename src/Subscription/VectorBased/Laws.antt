-- ===== src/Subscription/VectorBased/Laws.antt =====
-- The contract of a storage, for the vector-based storage.
use sobjectizer.Base.{refl, List}
use sobjectizer.Subscription.Iface.{SubscrInfo, Distinct, StorageLaws}
use sobjectizer.Subscription.Lists.{same_content}
use sobjectizer.Subscription.VectorBased.{vector_based_storage}
use sobjectizer.Subscription.VectorBased.Create.{create_known, create_refused, create_new}
use sobjectizer.Subscription.VectorBased.Drop.{find_law, drop_law}
use sobjectizer.Subscription.VectorBased.DropAll.{drop_for_all_states_law, IsSort, drop_all_law}

-- With a sort as documented, the vector meets the contract: each operation changes the answers as it
-- should, a subscription is made and dropped at an mbox with the first and the last entry of the
-- pair, and a creation that fails changes nothing.
abbrev pub vector_based-StorageLaws :
    (sort : List SubscrInfo → List SubscrInfo)
    → IsSort sort
    → StorageLaws (vector_based_storage sort)
vector_based-StorageLaws sort is_sort = record {
  IsValid = Distinct;
  distinct = λ s v. v;
  find_law = λ s m t k v. find_law s m t k;
  count_law = λ s. refl;
  create_known =
      λ returns o s h v e. rw (create_known returns o s h e) (refl, refl, v, same_content s);
  create_refused = λ o s v e p. rw (create_refused o s e p) (refl, refl, v, same_content s);
  create_new = λ returns o s v e p. create_new returns o s v e p;
  drop_law = λ m t k s v. drop_law m t k s v;
  drop_for_all_states_law = λ m t s v. drop_for_all_states_law m t s v;
  drop_all_law = λ s v. drop_all_law sort is_sort s;
  drop_content_law = λ s v. (tt, refl);
  setup_law = λ l s d v e. (d, same_content l);
}
