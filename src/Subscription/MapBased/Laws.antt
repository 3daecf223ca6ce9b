-- ===== src/Subscription/MapBased/Laws.antt =====
-- The contract of a storage, for the map-based storage.
use sobjectizer.Base.{refl}
use sobjectizer.Subscription.Iface.{StorageLaws}
use sobjectizer.Subscription.Lists.{same_content}
use sobjectizer.Subscription.MapBased.{map_based_storage}
use sobjectizer.Subscription.MapBased.Order.{IsSorted}
use sobjectizer.Subscription.MapBased.Find.{Distinct-of_sorted, find_law}
use sobjectizer.Subscription.MapBased.Create.{create_known, create_refused, create_new}
use sobjectizer.Subscription.MapBased.Drop.{drop_law}
use sobjectizer.Subscription.MapBased.DropPair.{drop_for_all_states_law}
use sobjectizer.Subscription.MapBased.DropAll.{drop_all_law}
use sobjectizer.Subscription.MapBased.Setup.{setup_content_lem}

-- The map meets the same contract as the vector, though it looks for other entries of a pair only at
-- the two neighbours of a place.
abbrev pub map_based-StorageLaws : StorageLaws map_based_storage
map_based-StorageLaws = record {
  IsValid = IsSorted;
  distinct = Distinct-of_sorted;
  find_law = λ s m t k v. find_law s m t k v;
  count_law = λ s. refl;
  create_known =
      λ returns o s h v e. rw (create_known returns o s h v e) (refl, refl, v, same_content s);
  create_refused = λ o s v e p. rw (create_refused o s v e p) (refl, refl, v, same_content s);
  create_new = λ returns o s v e p. create_new o s v e returns p;
  drop_law = drop_law;
  drop_for_all_states_law = drop_for_all_states_law;
  drop_all_law = drop_all_law;
  drop_content_law = λ s v. (tt, refl);
  setup_law = λ l s d v e.
      let same = setup_content_lem l s d in
      (same.sorted, record { answers = same.answers; pairs = same.pairs; count = same.count });
}
