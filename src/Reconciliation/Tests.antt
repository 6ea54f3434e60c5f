-- ===== src/Reconciliation/Tests.antt =====
-- A run that awaits payment, paid and expired.
use ship_yard.Prelude.{
  ◌≡◌, refl, true, false, Bool, codes, text_eq, same_folded, to_lower, includes, unique, unseen,
  has, ok, lt_wf, dec_lt,
}
use ship_yard.Dates.{sample_dates}
use ship_yard.Money.{to_string}
use ship_yard.Run.{same_status, transition_run, check_command, permits, find_rule, has_actor}
use ship_yard.Settlement.{
  find_log, same_address, matches_transfer, matches_transfer_log, settlement_failures,
  verify_settlement,
}
use ship_yard.Settlement.Samples.{plain}
use ship_yard.Table.{find_row, update_row}
use ship_yard.Reconciliation.Store.{Store, commit_funded_run, commit_expired_run}
use ship_yard.Reconciliation.Reconciler.{funding_of, reconcile_loaded, reconcile, expire}
use ship_yard.Reconciliation.Funded.{IsFunding, funding_of-IsFunding}
use ship_yard.Reconciliation.Race.{reconcile_loaded-expire, expire-reconcile_loaded}
use ship_yard.Reconciliation.Retry.{reconcile_again}
use ship_yard.Reconciliation.Samples.{
  waiting_run, context, store, no_hash, ports, payment, funding, paid_store, expired_rows, seen_run,
  seen_context, seen_store, seen_paid_store,
}

machine : Unit {0}
unfolding codes text_eq same_folded to_lower includes unique unseen has lt_wf dec_lt to_string
    same_status transition_run check_command permits find_rule has_actor find_log same_address
    matches_transfer matches_transfer_log settlement_failures verify_settlement find_row update_row
    commit_funded_run commit_expired_run funding_of reconcile_loaded reconcile expire
machine = tt

funds : funding_of sample_dates plain no_hash ports (codes "run") context 9 ≡ ok funding
unfolding machine
funds = refl

pays : reconcile sample_dates plain no_hash ports (codes "run") 9 store ≡ ok (payment, paid_store)
unfolding machine
pays = refl

pays_loaded :
    reconcile_loaded sample_dates plain no_hash ports (codes "run") context 9 store
    ≡ ok (payment, paid_store)
unfolding machine
pays_loaded = refl

expires : expire sample_dates waiting_run (codes "expired-run") 2000 store ≡ ok (true, expired_rows)
unfolding machine
expires = refl

pays_seen :
    reconcile_loaded sample_dates plain no_hash ports (codes "run") seen_context 9 seen_store
    ≡ ok (payment, seen_paid_store)
unfolding machine
pays_seen = refl

expires_seen :
    expire sample_dates seen_run (codes "expired-run") 2000 seen_paid_store
    ≡ ok (false, seen_paid_store)
unfolding machine
expires_seen = refl

funding_of-IsFunding_example : IsFunding sample_dates plain no_hash ports context 9 funding
funding_of-IsFunding_example =
    funding_of-IsFunding sample_dates plain no_hash ports (codes "run") context 9 funding funds

reconcile_loaded-expire_example :
    ◌≡◌ {A = Bool × Store} (false, seen_paid_store) (false, seen_paid_store)
reconcile_loaded-expire_example =
    reconcile_loaded-expire sample_dates plain no_hash ports (codes "run") seen_context 9 seen_store
      seen_paid_store payment (codes "expired-run") 2000 (false, seen_paid_store) refl pays_seen
      expires_seen

expire-reconcile_loaded_example : ¬ (
    reconcile_loaded sample_dates plain no_hash ports (codes "run") context 9 expired_rows
    ≡ ok (payment, paid_store))
expire-reconcile_loaded_example =
    expire-reconcile_loaded sample_dates plain no_hash ports (codes "run") context 2000 store
      expired_rows (codes "expired-run") 9 refl expires payment paid_store

reconcile_again_example :
    reconcile sample_dates plain no_hash ports (codes "run") 99 paid_store
    ≡ ok (payment, paid_store)
reconcile_again_example =
    reconcile_again sample_dates plain no_hash ports (codes "run") 9 store paid_store payment pays
      sample_dates plain no_hash ports 99
