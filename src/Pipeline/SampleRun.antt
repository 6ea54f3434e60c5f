-- ===== src/Pipeline/SampleRun.antt =====
-- The funded run of the samples, driven to its verdict.
use ship_yard.Prelude.{
  ◌≡◌, refl, ok, codes, text_eq, includes, unique, unseen, has, lt_wf, dec_lt, to_lower,
  same_folded, is_hex, is_blank,
}
use ship_yard.Pipeline.Steps.{onward, perform}
use ship_yard.Pipeline.Stores.{
  status_order, status_text, transition_key, save_run, move, advance, load_checkpoint,
  merge_checkpoint, find_pack, find_attestation, put_pack, put_attestation, find_run,
}
use ship_yard.Pipeline.Procurement.{
  denial_text, build_mandate, authorize, read_payment, acquire_anew, send_refund,
  run_procurement_phase,
}
use ship_yard.Pipeline.CrossChain.{
  target_is_remote, resolve_cross_chain_payer, authorize_procurement,
  run_cross_chain_procurement_phase,
}
use ship_yard.Pipeline.Bridging.{record_leg, fund_destination_by_bridge}
use ship_yard.Pipeline.Scenarios.{
  find_executor, some_verdict, aggregate_scenario_result, execute, some_unsigned,
  verify_scenario_provenance,
}
use ship_yard.Pipeline.Phases.{run_risk_analysis_phase, probe_all, run_execution_phase}
use ship_yard.Pipeline.Evidence.{
  can_build_tool_receipt, failure_text, receipt_failure, receiptable, build_unsigned_tool_receipt,
  sign_all, build_evidence_pack, run_evidence_phase, build_attestation_input, run_attestation_phase,
}
use ship_yard.Pipeline.Drive.{
  deliver_as, drive, find_quote, run_orchestrator_pipeline, finalize, finalize_run_as_inconclusive,
}
use ship_yard.Checkpoint.{coalesce_row, values, parse_row, load, upsert, merge, upsert_all}
use ship_yard.Delivery.Scenario.{is_success, has_backslash, is_origin_relative, is_valid_attempt}
use ship_yard.Delivery.Replay.{has_status, validate_replay, response_to, run_replay}
use ship_yard.Delivery.Credential.{zero_hash, validate_credential, run_credential}
use ship_yard.Plan.{clamp, compile_test_plan}
use ship_yard.Run.{
  same_status, same_actor, has_status as has_status_of_run, has_actor, is_terminal_run_status,
  find_rule, permits, check_command, transition_run,
}
use ship_yard.Policy.Hosts.{
  trim_start, trim_end, drop_last_dot, canonical, has_unit, canonicalize_host,
}
use ship_yard.Policy.Forbidden.{
  behind, ends_with, split_on, number_of, is_forbidden_pair, is_forbidden_ipv4, read_hex, dotted,
  extract_ipv4_mapped_address, is_forbidden_ipv6, is_forbidden_name, is_forbidden_host,
}
use ship_yard.Policy.Mandate.{is_well_formed, parse_run_mandate}
use ship_yard.Policy.Purchase.{canonical_hosts, read_figures, authorize_purchase}
use ship_yard.Money.{
  read_digits, parse_atomic_amount, to_string, same_asset, assert_same_asset, amount_of, add_money,
}
use ship_yard.Run.{funded, delivered_pass}
use ship_yard.Pipeline.State.{World}
use ship_yard.Pipeline.Drive.{PipelineResult}
use ship_yard.Pipeline.Samples.{sample_deps, start_world}

machine : Unit {0}
unfolding onward perform status_order status_text transition_key save_run move advance
    load_checkpoint merge_checkpoint find_pack find_attestation put_pack put_attestation find_run
    denial_text build_mandate authorize read_payment acquire_anew send_refund run_procurement_phase
    target_is_remote resolve_cross_chain_payer record_leg authorize_procurement
    fund_destination_by_bridge run_cross_chain_procurement_phase find_executor some_verdict
    aggregate_scenario_result execute some_unsigned verify_scenario_provenance
    run_risk_analysis_phase probe_all run_execution_phase can_build_tool_receipt failure_text
    receipt_failure receiptable build_unsigned_tool_receipt sign_all build_evidence_pack
    run_evidence_phase build_attestation_input run_attestation_phase deliver_as drive find_quote
    run_orchestrator_pipeline finalize finalize_run_as_inconclusive coalesce_row values parse_row
    load upsert merge upsert_all is_success has_backslash is_origin_relative is_valid_attempt
    has_status validate_replay response_to run_replay zero_hash validate_credential run_credential
    clamp compile_test_plan same_status same_actor has_status_of_run has_actor
    is_terminal_run_status find_rule permits check_command transition_run trim_start trim_end
    drop_last_dot canonical has_unit canonicalize_host behind ends_with split_on number_of
    is_forbidden_pair is_forbidden_ipv4 read_hex dotted extract_ipv4_mapped_address
    is_forbidden_ipv6 is_forbidden_name is_forbidden_host is_well_formed parse_run_mandate
    canonical_hosts read_figures authorize_purchase read_digits parse_atomic_amount to_string
    same_asset assert_same_asset amount_of add_money codes text_eq includes unique unseen has lt_wf
    dec_lt to_lower same_folded is_hex is_blank
machine = tt

abbrev pub passed_out : PipelineResult
passed_out = record {
  run_id = codes "run";
  final_status = delivered_pass;
  attestation_transaction_hash = codes "0x04";
}

abbrev pub passed_world : World
passed_world = (run_orchestrator_pipeline sample_deps (codes "run") (start_world funded)).1

pub passes :
    run_orchestrator_pipeline sample_deps (codes "run") (start_world funded)
    ≡ (ok passed_out, passed_world)
unfolding machine
passes = refl
