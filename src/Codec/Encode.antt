-- ===== src/Codec/Encode.antt =====
-- The request encoders, src/dataservice/dataservice_encode_request_*.c. Each returns the bytes of the
-- return buffer. A length argument is the length of the bytes it goes with.
use v_c_agentd.Prelude.{ℕ, zero, suc, ◌+◌, Bool, true, false, Option, [], ◌∷◌, ◌++◌, length, take}
use v_c_agentd.Wire.{Bytes, put32, put64}
use v_c_agentd.Status.{Result, non_null, ◌>>=◌, ◌>>◌}
use v_c_agentd.Method.{
  method_id, ll_root_context_create, ll_root_context_reduce_caps, ll_child_context_create,
  ll_child_context_close, app_global_setting_read, app_global_setting_write,
  app_block_id_latest_read, app_block_read, app_transaction_read, app_pq_transaction_submit,
  app_pq_transaction_promote, app_pq_transaction_first_read, app_pq_transaction_read,
  app_pq_transaction_drop, app_artifact_read, app_block_write, app_block_id_by_height_read,
}
use v_c_agentd.Codec.{Target, check_target, fill}

-- `strlen`: the bytes in front of the first zero byte
unfoldable pub strlen : Bytes → ℕ
strlen [] = 0
strlen (zero ∷ bs) = 0
strlen (suc c ∷ bs) = suc (strlen bs)

-- `(uint8_t)read_cert`
abbrev pub flag : Bool → ℕ
flag true = 1
flag false = 0

unfoldable pub encode_request_root_context_init : Target → ℕ → Option Bytes → Result Bytes
encode_request_root_context_init t max_database_size datadir = do
  check_target t
  datadir ← non_null datadir
  let datadirlen = strlen datadir
  fill t (4 + 8 + datadirlen) (
      put32 (method_id ll_root_context_create)
      ++ (put64 max_database_size ++ take datadirlen datadir))

unfoldable pub encode_request_root_context_reduce_caps : Target → Option Bytes → Result Bytes
encode_request_root_context_reduce_caps t caps = do
  check_target t
  caps ← non_null caps
  fill t (4 + length caps) (put32 (method_id ll_root_context_reduce_caps) ++ caps)

unfoldable pub encode_request_child_context_create : Target → Option Bytes → Result Bytes
encode_request_child_context_create t caps = do
  check_target t
  caps ← non_null caps
  fill t (4 + length caps) (put32 (method_id ll_child_context_create) ++ caps)

unfoldable pub encode_request_child_context_close : Target → ℕ → Result Bytes
encode_request_child_context_close t child = do
  check_target t
  fill t (4 + 4) (put32 (method_id ll_child_context_close) ++ put32 child)

unfoldable pub encode_request_global_settings_get : Target → ℕ → ℕ → Result Bytes
encode_request_global_settings_get t child key = do
  check_target t
  fill t (4 + 4 + 8) (put32 (method_id app_global_setting_read) ++ (put32 child ++ put64 key))

unfoldable pub encode_request_global_settings_set : Target → ℕ → ℕ → Option Bytes → Result Bytes
encode_request_global_settings_set t child key val = do
  check_target t
  val ← non_null val
  fill t (4 + 4 + 8 + length val)
      (put32 (method_id app_global_setting_write) ++ (put32 child ++ (put64 key ++ val)))

unfoldable pub encode_request_transaction_submit :
    Target → ℕ → Option Bytes → Option Bytes → Option Bytes → Result Bytes
encode_request_transaction_submit t child txn_id artifact_id val = do
  check_target t
  txn_id ← non_null txn_id
  artifact_id ← non_null artifact_id
  val ← non_null val
  fill t (4 + 4 + 16 + 16 + length val) (
      put32 (method_id app_pq_transaction_submit)
      ++ (put32 child ++ (take 16 txn_id ++ (take 16 artifact_id ++ val))))

unfoldable pub encode_request_transaction_get_first : Target → ℕ → Result Bytes
encode_request_transaction_get_first t child = do
  check_target t
  fill t (4 + 4) (put32 (method_id app_pq_transaction_first_read) ++ put32 child)

unfoldable pub encode_request_transaction_get : Target → ℕ → Option Bytes → Result Bytes
encode_request_transaction_get t child txn_id = do
  check_target t
  txn_id ← non_null txn_id
  fill t (4 + 4 + 16) (put32 (method_id app_pq_transaction_read) ++ (put32 child ++ take 16 txn_id))

unfoldable pub encode_request_transaction_drop : Target → ℕ → Option Bytes → Result Bytes
encode_request_transaction_drop t child txn_id = do
  check_target t
  txn_id ← non_null txn_id
  fill t (4 + 4 + 16) (put32 (method_id app_pq_transaction_drop) ++ (put32 child ++ take 16 txn_id))

unfoldable pub encode_request_transaction_promote : Target → ℕ → Option Bytes → Result Bytes
encode_request_transaction_promote t child txn_id = do
  check_target t
  txn_id ← non_null txn_id
  fill t (4 + 4 + 16)
      (put32 (method_id app_pq_transaction_promote) ++ (put32 child ++ take 16 txn_id))

unfoldable pub encode_request_artifact_get : Target → ℕ → Option Bytes → Result Bytes
encode_request_artifact_get t child artifact_id = do
  check_target t
  artifact_id ← non_null artifact_id
  fill t (4 + 4 + 16) (put32 (method_id app_artifact_read) ++ (put32 child ++ take 16 artifact_id))

unfoldable pub encode_request_block_make : Target → ℕ → Option Bytes → Option Bytes → Result Bytes
encode_request_block_make t child block_id block_cert = do
  check_target t
  block_id ← non_null block_id
  block_cert ← non_null block_cert
  fill t (4 + 4 + 16 + length block_cert)
      (put32 (method_id app_block_write) ++ (put32 child ++ (take 16 block_id ++ block_cert)))

unfoldable pub encode_request_block_get : Target → ℕ → Option Bytes → Bool → Result Bytes
encode_request_block_get t child block_id read_cert = do
  check_target t
  block_id ← non_null block_id
  fill t (4 + 4 + 16 + 1) (
      put32 (method_id app_block_read)
      ++ (put32 child ++ (take 16 block_id ++ flag read_cert ∷ [])))

unfoldable pub encode_request_block_id_by_height_get : Target → ℕ → ℕ → Result Bytes
encode_request_block_id_by_height_get t child height = do
  check_target t
  fill t (4 + 4 + 8)
      (put32 (method_id app_block_id_by_height_read) ++ (put32 child ++ put64 height))

unfoldable pub encode_request_latest_block_id_get : Target → ℕ → Result Bytes
encode_request_latest_block_id_get t child = do
  check_target t
  fill t (4 + 4) (put32 (method_id app_block_id_latest_read) ++ put32 child)

unfoldable pub encode_request_canonized_transaction_get :
    Target → ℕ → Option Bytes → Bool → Result Bytes
encode_request_canonized_transaction_get t child txn_id read_cert = do
  check_target t
  txn_id ← non_null txn_id
  fill t (4 + 4 + 16 + 1) (
      put32 (method_id app_transaction_read)
      ++ (put32 child ++ (take 16 txn_id ++ flag read_cert ∷ [])))
