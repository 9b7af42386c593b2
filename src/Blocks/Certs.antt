-- ===== src/Blocks/Certs.antt =====
-- What dataservice_block_make.c uses of the vccert and vccrypt libraries, which are not part of the
-- repository, and the checks that it makes of a certificate's fields.
use v_c_agentd.Prelude.{ℕ, ◌+◌, ◌%◌, ◌^◌, Bool, Option, none, some, List, ◌==◌, length}
use mathlib.Core.Bool.{not}
use v_c_agentd.Wire.{Bytes, from_le, get32, get64}
use v_c_agentd.Status.{
  Status, Result, ok, err, guard, ◌>>=◌, ◌>>◌, vccrypt_suite_options_init_failure,
  vccert_parser_options_init_failure, vccert_parser_init_failure, missing_block_height,
  invalid_block_height, missing_previous_block_uuid, invalid_previous_block_uuid,
  missing_block_uuid, invalid_block_uuid, missing_child_transaction_uuid,
  missing_child_previous_transaction_uuid, missing_child_artifact_uuid, missing_child_state,
}
use v_c_agentd.Queue.{Uuid, begin_id, end_id}
use v_c_agentd.Database.{BlockNode}

-- the VCCERT_FIELD_TYPE_... that are looked for
pub data Field : Type 0 where
  block_uuid block_height previous_block_uuid : Field
  certificate_id previous_certificate_id artifact_id new_artifact_state : Field

-- The libraries: whether the options are initialized and a parser opens a certificate; what
-- `vccert_parser_find_short` finds for a field; the wrapped transactions that it and then
-- `vccert_parser_find_next` find, in order; and the id of the root block.
pub record Certificates : Type 0 where
  pub suite_init : Bool
  pub options_init : Bool
  pub opens : Bytes → Bool
  pub find : Bytes → Field → Option Bytes
  pub wrapped_transactions : Bytes → List Bytes
  pub root_block : Uuid

-- the number that the sixteen bytes of an id make
abbrev pub uuid_of : Bytes → Uuid
uuid_of bs = from_le bs

-- What is expected of a block: by the end node, or by default if there is none. The height is a
-- `uint64_t`.
abbrev pub expected_height : Option BlockNode → ℕ
expected_height none = 1
expected_height (some end) = (1 + end.block_height) % 2 ^ 64

-- The fields of a child transaction.
pub record Child : Type 0 where
  pub transaction_id : Uuid
  pub prev_transaction_id : Uuid
  pub artifact : Uuid
  pub state : ℕ

module _ (c : Certificates) where
  abbrev pub expected_prev : Option BlockNode → Uuid
  expected_prev none = c.root_block
  expected_prev (some end) = end.prev

  -- a field of a size, and the return if it is missing
  unfoldable pub field : Bytes → Field → ℕ → Status → Result Bytes
  field cert f size e = elim (c.find cert f) [
    | none ↦ err e
    | some bs ↦ guard (length bs == size) e >> ok bs
  ]

  unfoldable pub constraint_matching_block_height : Bytes → Option BlockNode → Result ℕ
  constraint_matching_block_height cert end_node = do
    raw ← field cert block_height 8 missing_block_height
    guard (get64 raw == expected_height end_node) invalid_block_height
    ok (expected_height end_node)

  unfoldable pub constraint_matching_prev_uuid : Bytes → Option BlockNode → Result Uuid
  constraint_matching_prev_uuid cert end_node = do
    raw ← field cert previous_block_uuid 16 missing_previous_block_uuid
    guard (uuid_of raw == expected_prev end_node) invalid_previous_block_uuid
    ok (uuid_of raw)

  unfoldable pub constraint_sane_block_uuid : Bytes → Uuid → Result (Unit {0})
  constraint_sane_block_uuid cert block_id = do
    raw ← field cert block_uuid 16 missing_block_uuid
    guard (block_id == uuid_of raw) invalid_block_uuid
    guard (not (block_id == c.root_block)) invalid_block_uuid
    guard (not (block_id == begin_id)) invalid_block_uuid
    guard (not (block_id == end_id)) invalid_block_uuid

  -- dataservice_make_block_get_first_transaction_id
  unfoldable pub get_first_transaction_id : Bytes → Result Uuid
  get_first_transaction_id txn_cert = do
    guard (c.opens txn_cert) vccert_parser_init_failure
    raw ← field txn_cert certificate_id 16 missing_child_transaction_uuid
    ok (uuid_of raw)

  -- the start of dataservice_block_make_process_child: the fields, in the order in which they are
  -- looked for
  unfoldable pub child_fields : Bytes → Result Child
  child_fields txn_cert = do
    guard (c.opens txn_cert) vccert_parser_init_failure
    id ← field txn_cert certificate_id 16 missing_child_transaction_uuid
    prev ← field txn_cert previous_certificate_id 16 missing_child_previous_transaction_uuid
    artifact ← field txn_cert artifact_id 16 missing_child_artifact_uuid
    state ← field txn_cert new_artifact_state 4 missing_child_state
    ok (record {
      transaction_id = uuid_of id;
      prev_transaction_id = uuid_of prev;
      artifact = uuid_of artifact;
      state = get32 state;
    })

  -- the start of dataservice_block_make: the options and the parser
  unfoldable pub open_block : Bytes → Result (Unit {0})
  open_block block_data = do
    guard c.suite_init vccrypt_suite_options_init_failure
    guard c.options_init vccert_parser_options_init_failure
    guard (c.opens block_data) vccert_parser_init_failure
