-- ===== src/Codec.antt =====
-- The requests of the data service, and the buffers that its wire code works with
-- (src/dataservice/dataservice_protocol_internal.h).
pub mod Encode
pub mod Decode
pub mod Dispatch
pub mod Layout
pub mod EncodeLaws
pub mod DecodeLaws
pub mod Accepts
pub mod RoundTrip
pub mod Examples
use v_c_agentd.Prelude.{ℕ, Bool, true, false, ◌&&◌, Option, none, some, ◌==◌, if◌then◌else◌, length}
use v_c_agentd.Wire.{Bytes}
use v_c_agentd.Status.{Result, ok, err, guard, ◌>>◌, Status, invalid_parameter, fault}

-- One constructor for each `dataservice_request_..._t`. The first number is `hdr.child_index`, where
-- the request has one; an id is its sixteen bytes, and a certificate or value its bytes.
pub data Request : Type 0 where
  root_context_init : (max_database_size : ℕ) (datadir : Bytes) → Request
  root_context_reduce_caps : (caps : Bytes) → Request
  child_context_create : (caps : Bytes) → Request
  child_context_close : (child_index : ℕ) → Request
  global_setting_get : (child_index key : ℕ) → Request
  global_setting_set : (child_index key : ℕ) (val : Bytes) → Request
  transaction_submit : (child_index : ℕ) (txn_id artifact_id cert : Bytes) → Request
  transaction_get_first : (child_index : ℕ) → Request
  transaction_get : (child_index : ℕ) (txn_id : Bytes) → Request
  transaction_drop : (child_index : ℕ) (txn_id : Bytes) → Request
  transaction_promote : (child_index : ℕ) (txn_id : Bytes) → Request
  payload_artifact_read : (child_index : ℕ) (artifact_id : Bytes) → Request
  block_make : (child_index : ℕ) (block_id cert : Bytes) → Request
  block_read : (child_index : ℕ) (block_id : Bytes) (read_cert : Bool) → Request
  block_id_by_height_read : (child_index block_height : ℕ) → Request
  block_id_latest_read : (child_index : ℕ) → Request
  canonized_transaction_get : (child_index : ℕ) (txn_id : Bytes) (read_cert : Bool) → Request

-- The return buffer and the allocator of an encoder: whether the pointers are given, and the status
-- of `vccrypt_buffer_init` for a size (`none` is success), which belongs to the vccrypt library.
pub record Target : Type 0 where
  pub buffer : Bool
  pub alloc_opts : Bool
  pub buffer_init : ℕ → Option Status

-- the runtime check that opens every encoder
unfoldable pub check_target : Target → Result (Unit {0})
check_target t = guard (t.buffer && t.alloc_opts) invalid_parameter

-- Create a buffer of `reqbuflen` bytes, copy the parts to it one behind the other, and move it to
-- the caller. Parts that overrun the buffer, or leave some of it unset, are a fault.
unfoldable pub fill : Target → ℕ → Bytes → Result Bytes
fill t reqbuflen parts = elim (t.buffer_init reqbuflen) [
  | some e ↦ err e
  | none ↦ if length parts == reqbuflen then ok parts else err fault
]
