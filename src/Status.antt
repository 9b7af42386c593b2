-- ===== src/Status.antt =====
-- Status codes and results, of include/agentd/status_codes/ (those that the modelled code returns).
pub mod Ensures
pub mod Code
use v_c_agentd.Prelude.{ℕ, Bool, true, false, Option, none, some}

-- `AGENTD_STATUS_SUCCESS` is `Result.ok`. `external` is a status of code outside the repository.
-- `fault` has no counterpart in the program: an access outside an object, or a read of unset bytes.
pub data Status : Type 0 where
  success not_authorized not_found : Status
  mdb_txn_begin_failure mdb_txn_commit_failure would_truncate : Status
  mdb_get_failure mdb_put_failure mdb_del_failure : Status
  vccrypt_suite_options_init_failure vccert_parser_options_init_failure : Status
  vccert_parser_init_failure no_child_transactions invalid_stored_block_node : Status
  missing_block_height invalid_block_height : Status
  missing_previous_block_uuid invalid_previous_block_uuid : Status
  missing_block_uuid invalid_block_uuid missing_child_transaction_uuid : Status
  missing_child_previous_transaction_uuid missing_child_artifact_uuid : Status
  missing_child_state invalid_artifact_node_size invalid_index_entry : Status
  invalid_stored_transaction_node out_of_memory : Status
  request_packet_invalid_size request_packet_bad invalid_parameter : Status
  response_packet_invalid_size unexpected_method_code response_invalid_parameter : Status
  unexpected_data_packet_size : Status
  out_of_child_instances child_context_max_reached child_context_create_failure : Status
  child_context_bad_index child_context_invalid child_details_delete_failure : Status
  fault : Status
  external : ℕ → Status

pub data Result {ℓ} (A : Type ℓ) : Type ℓ where
  ok : A → Result A
  err : Status → Result A

infixl 5 ◌>>=◌ ◌>>◌
unfoldable pub ◌>>=◌ {ℓ κ} : {A : Type ℓ} {B : Type κ} → Result A → (A → Result B) → Result B
ok a >>= f = f a
err e >>= f = err e

unfoldable pub ◌>>◌ {ℓ} : {B : Type ℓ} → Result (Unit {0}) → Result B → Result B
unfolding ◌>>=◌
m >> k = m >>= λ _. k

-- `if (!b) return e;`
unfoldable pub guard : Bool → Status → Result (Unit {0})
guard true e = ok tt
guard false e = err e

-- A pointer argument is `none` if it is `NULL`.
unfoldable pub non_null {ℓ} : {A : Type ℓ} → Option A → Result A
non_null none = err invalid_parameter
non_null (some a) = ok a
