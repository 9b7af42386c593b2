-- ===== src/Codec/Decode.antt =====
-- The request decoders, src/dataservice/dataservice_decode_request_*.c and
-- dataservice_request_init*.c. The request is what follows the method id; its size is its length.
use v_c_agentd.Prelude.{ℕ, ◌+◌, Bool, false, Option, ◌==◌, leb, ltb, length, take, drop}
use mathlib.Core.Bool.{not}
use mathlib.Core.List.{[], ◌∷◌}
use v_c_agentd.Wire.{Bytes, get32, get64}
use v_c_agentd.Status.{
  Result, ok, guard, non_null, ◌>>=◌, ◌>>◌, request_packet_invalid_size, invalid_parameter,
  out_of_memory,
}
use v_c_agentd.Codec.{
  Request, root_context_init, root_context_reduce_caps, child_context_create, child_context_close,
  global_setting_get, global_setting_set, transaction_submit, transaction_get_first,
  transaction_get, transaction_drop, transaction_promote, payload_artifact_read, block_make,
  block_read, block_id_by_height_read, block_id_latest_read, canonized_transaction_get,
}

-- a check of the remaining size
abbrev check_size : Bool → Result (Unit {0})
check_size b = guard b request_packet_invalid_size

-- Reads the child index, and returns it with the rest of the request.
unfoldable pub request_init : Bytes → Result (ℕ × Bytes)
request_init breq = do check_size (not (ltb (length breq) 4)); ok (get32 breq, drop 4 breq)

-- For requests with no child index; the request pointer may be `NULL`.
unfoldable pub request_init_empty : Option Bytes → Result Bytes
request_init_empty breq = non_null breq

-- `sizeof(dreq->caps)`: one 32-bit word holds the 23 bits of `dataservice_api_cap_enum`.
abbrev pub sizeof_caps : ℕ
sizeof_caps = 4

-- The allocator says for each size whether `allocate` gives memory.
unfoldable pub decode_request_root_context_init :
    Option Bytes → Option (ℕ → Bool) → Bool → Result Request
decode_request_root_context_init req alloc_opts dreq = do
  breq ← non_null req
  allocate ← non_null alloc_opts
  guard dreq invalid_parameter
  check_size (not (leb (length breq) 8))
  let datadir = drop 8 breq
  guard (allocate (length datadir + 1)) out_of_memory
  ok (root_context_init (get64 breq) datadir)

unfoldable pub decode_request_root_context_reduce_caps : Option Bytes → Result Request
unfolding request_init_empty
decode_request_root_context_reduce_caps req = do
  breq ← request_init_empty req
  check_size (length breq == sizeof_caps)
  ok (root_context_reduce_caps breq)

unfoldable pub decode_request_child_context_create : Option Bytes → Result Request
unfolding request_init_empty
decode_request_child_context_create req = do
  breq ← request_init_empty req
  check_size (length breq == sizeof_caps)
  ok (child_context_create breq)

unfoldable pub decode_request_child_context_close : Bytes → Result Request
unfolding request_init
decode_request_child_context_close req = do
  (child_index, breq) ← request_init req
  ok (child_context_close child_index)

unfoldable pub decode_request_global_setting_get : Bytes → Result Request
unfolding request_init
decode_request_global_setting_get req = do
  (child_index, breq) ← request_init req
  check_size (length breq == 8)
  ok (global_setting_get child_index (get64 breq))

unfoldable pub decode_request_global_setting_set : Bytes → Result Request
unfolding request_init
decode_request_global_setting_set req = do
  (child_index, breq) ← request_init req
  check_size (not (leb (length breq) 8))
  ok (global_setting_set child_index (get64 breq) (drop 8 breq))

unfoldable pub decode_request_transaction_submit : Bytes → Result Request
unfolding request_init
decode_request_transaction_submit req = do
  (child_index, breq) ← request_init req
  check_size (not (leb (length breq) (16 + 16)))
  let txn_id = take 16 breq
  let breq' = drop 16 breq
  ok (transaction_submit child_index txn_id (take 16 breq') (drop 16 breq'))

unfoldable pub decode_request_transaction_get_first : Bytes → Result Request
unfolding request_init
decode_request_transaction_get_first req = do
  (child_index, breq) ← request_init req
  ok (transaction_get_first child_index)

unfoldable pub decode_request_transaction_get : Bytes → Result Request
unfolding request_init
decode_request_transaction_get req = do
  (child_index, breq) ← request_init req
  check_size (length breq == 16)
  ok (transaction_get child_index (take 16 breq))

unfoldable pub decode_request_transaction_drop : Bytes → Result Request
unfolding request_init
decode_request_transaction_drop req = do
  (child_index, breq) ← request_init req
  check_size (length breq == 16)
  ok (transaction_drop child_index (take 16 breq))

unfoldable pub decode_request_transaction_promote : Bytes → Result Request
unfolding request_init
decode_request_transaction_promote req = do
  (child_index, breq) ← request_init req
  check_size (length breq == 16)
  ok (transaction_promote child_index (take 16 breq))

unfoldable pub decode_request_payload_artifact_read : Bytes → Result Request
unfolding request_init
decode_request_payload_artifact_read req = do
  (child_index, breq) ← request_init req
  check_size (length breq == 16)
  ok (payload_artifact_read child_index (take 16 breq))

unfoldable pub decode_request_block_make : Bytes → Result Request
unfolding request_init
decode_request_block_make req = do
  (child_index, breq) ← request_init req
  check_size (not (ltb (length breq) 16))
  ok (block_make child_index (take 16 breq) (drop 16 breq))

-- `if (breq[16]) ... = true; else ... = false;`
abbrev flag_at : Bytes → Bool
flag_at bs = elim bs [ [] ↦ false | b ∷ _ ↦ not (b == 0) ]

unfoldable pub decode_request_block_read : Bytes → Result Request
unfolding request_init
decode_request_block_read req = do
  (child_index, breq) ← request_init req
  check_size (length breq == 16 + 1)
  ok (block_read child_index (take 16 breq) (flag_at (drop 16 breq)))

unfoldable pub decode_request_block_id_by_height_read : Bytes → Result Request
unfolding request_init
decode_request_block_id_by_height_read req = do
  (child_index, breq) ← request_init req
  check_size (length breq == 8)
  ok (block_id_by_height_read child_index (get64 breq))

unfoldable pub decode_request_block_id_latest_read : Bytes → Result Request
unfolding request_init
decode_request_block_id_latest_read req = do
  (child_index, breq) ← request_init req
  ok (block_id_latest_read child_index)

unfoldable pub decode_request_canonized_transaction_get : Bytes → Result Request
unfolding request_init
decode_request_canonized_transaction_get req = do
  (child_index, breq) ← request_init req
  check_size (length breq == 16 + 1)
  ok (canonized_transaction_get child_index (take 16 breq) (flag_at (drop 16 breq)))
