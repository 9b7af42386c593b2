-- ===== src/Codec/Dispatch.antt =====
-- The switch of src/dataservice/dataservice_decode_and_dispatch.c, over the handlers of the methods.
use v_c_agentd.Prelude.{ℕ, ◌==◌, ltb, if◌then◌else◌, length, drop}
use v_c_agentd.Wire.{Bytes, get32}
use v_c_agentd.Status.{Status, request_packet_invalid_size}
use v_c_agentd.Method.{
  method_id, ll_root_context_create, ll_root_context_reduce_caps, ll_child_context_create,
  ll_child_context_close, app_global_setting_read, app_global_setting_write,
  app_block_id_latest_read, app_block_read, app_transaction_read, app_pq_transaction_submit,
  app_pq_transaction_promote, app_pq_transaction_first_read, app_pq_transaction_read,
  app_pq_transaction_drop, app_artifact_read, app_block_write, app_block_id_by_height_read,
}

-- What the switch calls: one handler for each case, on the payload; what a plain return of a status
-- gives; and the default case, which is given the method id.
pub record Handlers (R : Type 0) : Type 0 where
  pub root_context_create : Bytes → R
  pub root_context_reduce_caps : Bytes → R
  pub child_context_create : Bytes → R
  pub child_context_close : Bytes → R
  pub global_setting_get : Bytes → R
  pub global_setting_set : Bytes → R
  pub transaction_submit : Bytes → R
  pub transaction_get_first : Bytes → R
  pub transaction_get : Bytes → R
  pub transaction_drop : Bytes → R
  pub transaction_promote : Bytes → R
  pub artifact_read : Bytes → R
  pub block_make : Bytes → R
  pub block_read : Bytes → R
  pub block_id_by_height_read : Bytes → R
  pub block_id_latest_read : Bytes → R
  pub canonized_transaction_get : Bytes → R
  pub return_status : Status → R
  pub bad_method : ℕ → R

unfoldable pub switch : {R : Type 0} → Handlers R → ℕ → Bytes → R
switch h method payload =
    if method == method_id ll_root_context_create
    then h.root_context_create payload
    else if method == method_id ll_root_context_reduce_caps
    then h.root_context_reduce_caps payload
    else if method == method_id ll_child_context_create
    then h.child_context_create payload
    else if method == method_id ll_child_context_close
    then h.child_context_close payload
    else if method == method_id app_global_setting_read
    then h.global_setting_get payload
    else if method == method_id app_global_setting_write
    then h.global_setting_set payload
    else if method == method_id app_pq_transaction_submit
    then h.transaction_submit payload
    else if method == method_id app_pq_transaction_first_read
    then h.transaction_get_first payload
    else if method == method_id app_pq_transaction_read
    then h.transaction_get payload
    else if method == method_id app_pq_transaction_drop
    then h.transaction_drop payload
    else if method == method_id app_pq_transaction_promote
    then h.transaction_promote payload
    else if method == method_id app_artifact_read
    then h.artifact_read payload
    else if method == method_id app_block_write
    then h.block_make payload
    else if method == method_id app_block_read
    then h.block_read payload
    else if method == method_id app_block_id_by_height_read
    then h.block_id_by_height_read payload
    else if method == method_id app_block_id_latest_read
    then h.block_id_latest_read payload
    else if method == method_id app_transaction_read
    then h.canonized_transaction_get payload
    else h.bad_method method

unfoldable pub decode_and_dispatch : {R : Type 0} → Handlers R → Bytes → R
unfolding switch
decode_and_dispatch h req =
    if ltb (length req) 4
    then h.return_status request_packet_invalid_size
    else switch h (get32 req) (drop 4 req)
