-- ===== src/Status/Code.antt =====
-- The numbers of the status codes, include/agentd/status_codes.h and include/agentd/status_codes/.
use v_c_agentd.Prelude.{ℕ, ◌+◌, ◌*◌, ◌-◌, ◌^◌, ◌%◌}
use v_c_agentd.Status.{
  Status, success, external, fault, not_authorized, not_found, mdb_txn_begin_failure,
  mdb_txn_commit_failure, would_truncate, mdb_get_failure, mdb_put_failure, mdb_del_failure,
  vccrypt_suite_options_init_failure, vccert_parser_options_init_failure,
  vccert_parser_init_failure, no_child_transactions, invalid_stored_block_node,
  missing_block_height, invalid_block_height, missing_previous_block_uuid,
  invalid_previous_block_uuid, missing_block_uuid, invalid_block_uuid,
  missing_child_transaction_uuid, missing_child_previous_transaction_uuid,
  missing_child_artifact_uuid, missing_child_state, invalid_artifact_node_size, invalid_index_entry,
  invalid_stored_transaction_node, out_of_memory, request_packet_invalid_size, request_packet_bad,
  invalid_parameter, response_packet_invalid_size, unexpected_method_code,
  response_invalid_parameter, unexpected_data_packet_size, out_of_child_instances,
  child_context_max_reached, child_context_create_failure, child_context_bad_index,
  child_context_invalid, child_details_delete_failure,
}

-- AGENTD_STATUS_ERROR_MACRO, for a service and a reason in their ranges, whose bits are apart
abbrev pub error_code : ℕ → ℕ → ℕ
error_code service reason = 2 ^ 27 + (service * 2 ^ 16 + reason)

-- The number that is sent. A code of another library is sent as it is; for `fault` C promises nothing.
abbrev pub status_code : Status → ℕ
status_code success = 0
status_code (external n) = n % 2 ^ 32
status_code fault = 2 ^ 32 - 1
status_code not_authorized = error_code 3 3
status_code not_found = error_code 3 1
status_code mdb_txn_begin_failure = error_code 3 41
status_code mdb_txn_commit_failure = error_code 3 43
status_code would_truncate = error_code 3 65
status_code mdb_get_failure = error_code 3 45
status_code mdb_put_failure = error_code 3 46
status_code mdb_del_failure = error_code 3 47
status_code vccrypt_suite_options_init_failure = error_code 3 51
status_code vccert_parser_options_init_failure = error_code 3 52
status_code vccert_parser_init_failure = error_code 3 53
status_code no_child_transactions = error_code 3 12
status_code invalid_stored_block_node = error_code 3 49
status_code missing_block_height = error_code 3 54
status_code invalid_block_height = error_code 3 55
status_code missing_previous_block_uuid = error_code 3 56
status_code invalid_previous_block_uuid = error_code 3 57
status_code missing_block_uuid = error_code 3 58
status_code invalid_block_uuid = error_code 3 59
status_code missing_child_transaction_uuid = error_code 3 60
status_code missing_child_previous_transaction_uuid = error_code 3 61
status_code missing_child_artifact_uuid = error_code 3 62
status_code missing_child_state = error_code 3 63
status_code invalid_artifact_node_size = error_code 3 48
status_code invalid_index_entry = error_code 3 50
status_code invalid_stored_transaction_node = error_code 3 44
status_code out_of_memory = error_code 0 1
status_code request_packet_invalid_size = error_code 3 16
status_code request_packet_bad = error_code 3 20
status_code invalid_parameter = error_code 3 69
status_code response_packet_invalid_size = error_code 3 66
status_code unexpected_method_code = error_code 3 6
status_code response_invalid_parameter = error_code 3 67
status_code unexpected_data_packet_size = error_code 3 5
status_code out_of_child_instances = error_code 3 64
status_code child_context_max_reached = error_code 3 19
status_code child_context_create_failure = error_code 3 36
status_code child_context_bad_index = error_code 3 17
status_code child_context_invalid = error_code 3 18
status_code child_details_delete_failure = error_code 3 30
