-- ===== src/Method.antt =====
-- The method ids of `dataservice_api_method_enum`, in include/agentd/dataservice.h.
use v_c_agentd.Prelude.{ℕ}

pub data Method : Type 0 where
  ll_root_context_create ll_root_context_reduce_caps : Method
  ll_child_context_create ll_child_context_close : Method
  ll_database_backup ll_database_restore ll_database_upgrade : Method
  app_global_setting_read app_global_setting_write : Method
  app_block_id_latest_read app_block_id_next_read app_block_id_prev_read : Method
  app_block_id_with_transaction_read app_block_read app_transaction_read : Method
  app_pq_transaction_submit app_pq_transaction_promote : Method
  app_pq_transaction_first_read app_pq_transaction_read app_pq_transaction_drop : Method
  app_artifact_read app_block_write app_block_id_by_height_read : Method

-- the enumerators' values, in order from `DATASERVICE_API_METHOD_LOWER_BOUND`
abbrev pub method_id : Method → ℕ
method_id ll_root_context_create = 0
method_id ll_root_context_reduce_caps = 1
method_id ll_child_context_create = 2
method_id ll_child_context_close = 3
method_id ll_database_backup = 4
method_id ll_database_restore = 5
method_id ll_database_upgrade = 6
method_id app_global_setting_read = 7
method_id app_global_setting_write = 8
method_id app_block_id_latest_read = 9
method_id app_block_id_next_read = 10
method_id app_block_id_prev_read = 11
method_id app_block_id_with_transaction_read = 12
method_id app_block_read = 13
method_id app_transaction_read = 14
method_id app_pq_transaction_submit = 15
method_id app_pq_transaction_promote = 16
method_id app_pq_transaction_first_read = 17
method_id app_pq_transaction_read = 18
method_id app_pq_transaction_drop = 19
method_id app_artifact_read = 20
method_id app_block_write = 21
method_id app_block_id_by_height_read = 22
