-- ===== src/Codec/Layout.antt =====
-- The packets that the comments in the encoders draw, and the requests that fit them; the client's
-- encoders and the service's decoders, each as one function.
use v_c_agentd.Prelude.{ℕ, ◌^◌, ◌<◌, ◌≡◌, true, some, [], ◌∷◌, ◌++◌, length}
use v_c_agentd.Wire.{Bytes, put32, put64}
use v_c_agentd.Status.{Result, err, request_packet_bad}
use v_c_agentd.Method.{
  method_id, ll_root_context_create, ll_root_context_reduce_caps, ll_child_context_create,
  ll_child_context_close, app_global_setting_read, app_global_setting_write,
  app_block_id_latest_read, app_block_read, app_transaction_read, app_pq_transaction_submit,
  app_pq_transaction_promote, app_pq_transaction_first_read, app_pq_transaction_read,
  app_pq_transaction_drop, app_artifact_read, app_block_write, app_block_id_by_height_read,
}
use v_c_agentd.Codec.{
  Target, Request, root_context_init, root_context_reduce_caps, child_context_create,
  child_context_close, global_setting_get, global_setting_set, transaction_submit,
  transaction_get_first, transaction_get, transaction_drop, transaction_promote,
  payload_artifact_read, block_make, block_read, block_id_by_height_read, block_id_latest_read,
  canonized_transaction_get,
}
use v_c_agentd.Codec.Encode
use v_c_agentd.Codec.Encode.{flag}
use v_c_agentd.Codec.Decode
use v_c_agentd.Codec.Decode.{sizeof_caps}
use v_c_agentd.Codec.Dispatch.{Handlers}

-- The packet of a request.
abbrev pub layout : Request → Bytes
layout (root_context_init s d) = put32 (method_id ll_root_context_create) ++ (put64 s ++ d)
layout (root_context_reduce_caps c) = put32 (method_id ll_root_context_reduce_caps) ++ c
layout (child_context_create c) = put32 (method_id ll_child_context_create) ++ c
layout (child_context_close i) = put32 (method_id ll_child_context_close) ++ put32 i
layout (global_setting_get i k) = put32 (method_id app_global_setting_read) ++ (put32 i ++ put64 k)
layout (global_setting_set i k v) =
    put32 (method_id app_global_setting_write) ++ (put32 i ++ (put64 k ++ v))
layout (transaction_submit i x a c) =
    put32 (method_id app_pq_transaction_submit) ++ (put32 i ++ (x ++ (a ++ c)))
layout (transaction_get_first i) = put32 (method_id app_pq_transaction_first_read) ++ put32 i
layout (transaction_get i x) = put32 (method_id app_pq_transaction_read) ++ (put32 i ++ x)
layout (transaction_drop i x) = put32 (method_id app_pq_transaction_drop) ++ (put32 i ++ x)
layout (transaction_promote i x) = put32 (method_id app_pq_transaction_promote) ++ (put32 i ++ x)
layout (payload_artifact_read i a) = put32 (method_id app_artifact_read) ++ (put32 i ++ a)
layout (block_make i b c) = put32 (method_id app_block_write) ++ (put32 i ++ (b ++ c))
layout (block_read i b r) = put32 (method_id app_block_read) ++ (put32 i ++ (b ++ flag r ∷ []))
layout (block_id_by_height_read i h) =
    put32 (method_id app_block_id_by_height_read) ++ (put32 i ++ put64 h)
layout (block_id_latest_read i) = put32 (method_id app_block_id_latest_read) ++ put32 i
layout (canonized_transaction_get i x r) =
    put32 (method_id app_transaction_read) ++ (put32 i ++ (x ++ flag r ∷ []))

abbrev pub IsU32 : ℕ → Type 0
IsU32 n = n < 2 ^ 32

abbrev pub IsU64 : ℕ → Type 0
IsU64 n = n < 2 ^ 64

abbrev pub IsUuid : Bytes → Type 0
IsUuid bs = length bs ≡ 16

-- no byte of a C string is zero
abbrev pub IsText : Bytes → Type 0
IsText [] = Unit
IsText (c ∷ cs) = (0 < c) × IsText cs

-- The values that fit the packet: ids of sixteen bytes, integers of their width, capabilities of one
-- word; a setting, a transaction certificate and a directory are not empty.
abbrev pub IsValid : Request → Type 0
IsValid (root_context_init s d) = IsU64 s × (0 < length d)
IsValid (root_context_reduce_caps c) = length c ≡ sizeof_caps
IsValid (child_context_create c) = length c ≡ sizeof_caps
IsValid (child_context_close i) = IsU32 i
IsValid (global_setting_get i k) = IsU32 i × IsU64 k
IsValid (global_setting_set i k v) = IsU32 i × IsU64 k × (0 < length v)
IsValid (transaction_submit i x a c) = IsU32 i × IsUuid x × IsUuid a × (0 < length c)
IsValid (transaction_get_first i) = IsU32 i
IsValid (transaction_get i x) = IsU32 i × IsUuid x
IsValid (transaction_drop i x) = IsU32 i × IsUuid x
IsValid (transaction_promote i x) = IsU32 i × IsUuid x
IsValid (payload_artifact_read i a) = IsU32 i × IsUuid a
IsValid (block_make i b c) = IsU32 i × IsUuid b
IsValid (block_read i b r) = IsU32 i × IsUuid b
IsValid (block_id_by_height_read i h) = IsU32 i × IsU64 h
IsValid (block_id_latest_read i) = IsU32 i
IsValid (canonized_transaction_get i x r) = IsU32 i × IsUuid x

-- The directory is handed to the encoder as a C string.
abbrev pub IsEncodable : Request → Type 0
IsEncodable (root_context_init s d) = IsText d
IsEncodable r = Unit

-- What the caller passes for a directory: its characters and the closing zero.
abbrev pub c_string : Bytes → Bytes
c_string d = d ++ 0 ∷ []

-- The client's encoders, at pointers that are given.
abbrev pub encode : Target → Request → Result Bytes
encode t (root_context_init s d) = Encode.encode_request_root_context_init t s (some (c_string d))
encode t (root_context_reduce_caps c) = Encode.encode_request_root_context_reduce_caps t (some c)
encode t (child_context_create c) = Encode.encode_request_child_context_create t (some c)
encode t (child_context_close i) = Encode.encode_request_child_context_close t i
encode t (global_setting_get i k) = Encode.encode_request_global_settings_get t i k
encode t (global_setting_set i k v) = Encode.encode_request_global_settings_set t i k (some v)
encode t (transaction_submit i x a c) =
    Encode.encode_request_transaction_submit t i (some x) (some a) (some c)
encode t (transaction_get_first i) = Encode.encode_request_transaction_get_first t i
encode t (transaction_get i x) = Encode.encode_request_transaction_get t i (some x)
encode t (transaction_drop i x) = Encode.encode_request_transaction_drop t i (some x)
encode t (transaction_promote i x) = Encode.encode_request_transaction_promote t i (some x)
encode t (payload_artifact_read i a) = Encode.encode_request_artifact_get t i (some a)
encode t (block_make i b c) = Encode.encode_request_block_make t i (some b) (some c)
encode t (block_read i b r) = Encode.encode_request_block_get t i (some b) r
encode t (block_id_by_height_read i h) = Encode.encode_request_block_id_by_height_get t i h
encode t (block_id_latest_read i) = Encode.encode_request_latest_block_id_get t i
encode t (canonized_transaction_get i x r) =
    Encode.encode_request_canonized_transaction_get t i (some x) r

-- The service's decoders, each at the method whose handler calls it. The allocator has memory.
abbrev pub decoders : Handlers (Result Request)
decoders = record {
  root_context_create =
      λ req. Decode.decode_request_root_context_init (some req) (some (λ n. true)) true;
  root_context_reduce_caps = λ req. Decode.decode_request_root_context_reduce_caps (some req);
  child_context_create = λ req. Decode.decode_request_child_context_create (some req);
  child_context_close = Decode.decode_request_child_context_close;
  global_setting_get = Decode.decode_request_global_setting_get;
  global_setting_set = Decode.decode_request_global_setting_set;
  transaction_submit = Decode.decode_request_transaction_submit;
  transaction_get_first = Decode.decode_request_transaction_get_first;
  transaction_get = Decode.decode_request_transaction_get;
  transaction_drop = Decode.decode_request_transaction_drop;
  transaction_promote = Decode.decode_request_transaction_promote;
  artifact_read = Decode.decode_request_payload_artifact_read;
  block_make = Decode.decode_request_block_make;
  block_read = Decode.decode_request_block_read;
  block_id_by_height_read = Decode.decode_request_block_id_by_height_read;
  block_id_latest_read = Decode.decode_request_block_id_latest_read;
  canonized_transaction_get = Decode.decode_request_canonized_transaction_get;
  return_status = err;
  bad_method = λ method. err request_packet_bad;
}
