-- ===== src/Responses/Reads.antt =====
-- The encoders and decoders of the responses to the other methods,
-- src/dataservice/dataservice_{encode,decode}_response_*.c. A field that a decoder keeps in network order is
-- its bytes.
use v_c_agentd.Prelude.{
  ℕ, ◌+◌, ◌*◌, ◌-◌, ◌%◌, ◌^◌, Bool, Option, some, [], ◌++◌, ◌==◌, ltb, if◌then◌else◌, length, take,
  drop,
}
use mathlib.Core.Bool.{not}
use v_c_agentd.Wire.{Bytes, put32, put64}
use v_c_agentd.Status.{
  Result, ok, err, guard, ◌>>=◌, ◌>>◌, out_of_memory, response_packet_invalid_size,
}
use v_c_agentd.Method.{
  Method, method_id, ll_root_context_create, ll_root_context_reduce_caps, ll_child_context_close,
  app_global_setting_read, app_global_setting_write, app_block_id_latest_read, app_block_read,
  app_transaction_read, app_pq_transaction_promote, app_pq_transaction_first_read,
  app_pq_transaction_drop, app_artifact_read, app_block_write, app_block_id_by_height_read,
}
use v_c_agentd.Responses.{
  Reply, Decoded, check_response, read_header, with_body, dat_size, reply_of,
}

-- dataservice_encode_response_transaction_get_first, which has the body of the encoder of the other read
unfoldable pub encode_response_transaction_get_first : (ℕ → Bool) → Reply → Result Bytes
encode_response_transaction_get_first malloc r =
    if malloc (4 * 16 + 4 + length r.cert)
    then ok (
        take 16 r.txn_id
        ++ (take 16 r.prev_id
            ++ (take 16 r.next_id
                ++ (take 16 r.artifact_id ++ (take 4 r.net_txn_state ++ r.cert)))))
    else err out_of_memory

-- the certificate if it is asked for
abbrev pub asked : Bool → Bytes → Bytes
asked write_cert cert = if write_cert then cert else []

-- a block in a response
pub record BlockReply : Type 0 where
  pub block_id : Bytes
  pub prev_id : Bytes
  pub next_id : Bytes
  pub first_txn_id : Bytes
  pub net_block_height : Bytes
  pub cert : Bytes

-- dataservice_encode_response_block_read
unfoldable pub encode_response_block_read :
    (ℕ → Bool)
    → (block_id prev_id next_id first_txn_id : Bytes) (block_height : ℕ) (write_cert : Bool)
      (cert : Bytes)
    → Result Bytes
encode_response_block_read malloc block_id prev_id next_id first_txn_id block_height write_cert
      cert =
    if malloc (4 * 16 + 8 + length (asked write_cert cert))
    then ok (
        take 16 block_id
        ++ (take 16 prev_id
            ++ (take 16 next_id
                ++ (take 16 first_txn_id ++ (put64 block_height ++ asked write_cert cert)))))
    else err out_of_memory

abbrev pub block_of_reply : ℕ → Bytes → BlockReply
block_of_reply n bval = record {
  block_id = take 16 bval;
  prev_id = take 16 (drop 16 bval);
  next_id = take 16 (drop 32 bval);
  first_txn_id = take 16 (drop 48 bval);
  net_block_height = take 8 (drop 64 bval);
  cert = take n (drop 72 bval);
}

-- dataservice_decode_response_block_get
unfoldable pub decode_response_block_get : Option Bytes → Bool → Decoded BlockReply
unfolding check_response read_header
decode_response_block_get packet dresp = do
  resp ← check_response packet dresp
  (offset, status) ← read_header (method_id app_block_read) resp
  with_body offset status (not (ltb (length resp) (12 + 72))) response_packet_invalid_size
      (block_of_reply (dat_size (length resp) 72) (drop 12 resp))

-- a transaction of a block in a response
pub record CanonizedReply : Type 0 where
  pub txn_id : Bytes
  pub prev_id : Bytes
  pub next_id : Bytes
  pub artifact_id : Bytes
  pub block_id : Bytes
  pub net_txn_state : Bytes
  pub cert : Bytes

-- dataservice_encode_response_canonized_transaction_get
unfoldable pub encode_response_canonized_transaction_get :
    (ℕ → Bool) → CanonizedReply → (write_cert : Bool) → Result Bytes
encode_response_canonized_transaction_get malloc r write_cert =
    if malloc (5 * 16 + 4 + length (asked write_cert r.cert))
    then ok (
        take 16 r.txn_id
        ++ (take 16 r.prev_id
            ++ (take 16 r.next_id
                ++ (take 16 r.artifact_id
                    ++ (take 16 r.block_id
                        ++ (take 4 r.net_txn_state ++ asked write_cert r.cert))))))
    else err out_of_memory

abbrev pub canonized_of_reply : ℕ → Bytes → CanonizedReply
canonized_of_reply n bval = record {
  txn_id = take 16 bval;
  prev_id = take 16 (drop 16 bval);
  next_id = take 16 (drop 32 bval);
  artifact_id = take 16 (drop 48 bval);
  block_id = take 16 (drop 64 bval);
  net_txn_state = take 4 (drop 80 bval);
  cert = take n (drop 84 bval);
}

-- dataservice_decode_response_canonized_transaction_get
unfoldable pub decode_response_canonized_transaction_get :
    Option Bytes → Bool → Decoded CanonizedReply
unfolding check_response read_header
decode_response_canonized_transaction_get packet dresp = do
  resp ← check_response packet dresp
  (offset, status) ← read_header (method_id app_transaction_read) resp
  with_body offset status (not (ltb (length resp) (12 + 84))) response_packet_invalid_size
      (canonized_of_reply (dat_size (length resp) 84) (drop 12 resp))

-- an artifact in a response
pub record ArtifactReply : Type 0 where
  pub artifact_id : Bytes
  pub txn_first : Bytes
  pub txn_latest : Bytes
  pub net_height_first : Bytes
  pub net_height_latest : Bytes
  pub net_state_latest : Bytes

-- dataservice_encode_response_payload_artifact_read
unfoldable pub encode_response_payload_artifact_read :
    (ℕ → Bool)
    → (artifact_id txn_first txn_latest : Bytes) (height_first height_latest state_latest : ℕ)
    → Result Bytes
encode_response_payload_artifact_read malloc artifact_id txn_first txn_latest height_first
      height_latest state_latest =
    if malloc (3 * 16 + 2 * 8 + 4)
    then ok (
        take 16 artifact_id
        ++ (take 16 txn_first
            ++ (take 16 txn_latest
                ++ (put64 height_first ++ (put64 height_latest ++ put32 state_latest)))))
    else err out_of_memory

abbrev pub artifact_of_reply : Bytes → ArtifactReply
artifact_of_reply bval = record {
  artifact_id = take 16 bval;
  txn_first = take 16 (drop 16 bval);
  txn_latest = take 16 (drop 32 bval);
  net_height_first = take 8 (drop 48 bval);
  net_height_latest = take 8 (drop 56 bval);
  net_state_latest = take 4 (drop 64 bval);
}

-- dataservice_decode_response_artifact_get; `dat_size` is a `uint32_t`
unfoldable pub decode_response_artifact_get : Option Bytes → Bool → Decoded ArtifactReply
unfolding check_response read_header
decode_response_artifact_get packet dresp = do
  resp ← check_response packet dresp
  (offset, status) ← read_header (method_id app_artifact_read) resp
  with_body offset status ((length resp % 2 ^ 32 + 2 ^ 32 - 12) % 2 ^ 32 == 68)
      response_packet_invalid_size (artifact_of_reply (drop 12 resp))

-- dataservice_encode_response_block_id_by_height_read
unfoldable pub encode_response_block_id_by_height_read : (ℕ → Bool) → Bytes → Result Bytes
encode_response_block_id_by_height_read malloc block_id =
    if malloc 16 then ok (take 16 block_id) else err out_of_memory

-- dataservice_encode_response_block_id_latest_read
unfoldable pub encode_response_block_id_latest_read : (ℕ → Bool) → Bytes → Result Bytes
encode_response_block_id_latest_read malloc block_id =
    if malloc 16 then ok (take 16 block_id) else err out_of_memory

-- dataservice_decode_response_block_id_by_height_get
unfoldable pub decode_response_block_id_by_height_get : Option Bytes → Bool → Decoded Bytes
unfolding check_response read_header
decode_response_block_id_by_height_get packet dresp = do
  resp ← check_response packet dresp
  (offset, status) ← read_header (method_id app_block_id_by_height_read) resp
  with_body offset status (not (ltb (length resp) (12 + 16))) response_packet_invalid_size
      (take 16 (drop 12 resp))

-- dataservice_decode_response_latest_block_id_get
unfoldable pub decode_response_latest_block_id_get : Option Bytes → Bool → Decoded Bytes
unfolding check_response read_header
decode_response_latest_block_id_get packet dresp = do
  resp ← check_response packet dresp
  (offset, status) ← read_header (method_id app_block_id_latest_read) resp
  with_body offset status (not (ltb (length resp) (12 + 16))) response_packet_invalid_size
      (take 16 (drop 12 resp))

-- dataservice_decode_response_transaction_get_first
unfoldable pub decode_response_transaction_get_first : Option Bytes → Bool → Decoded Reply
unfolding check_response read_header
decode_response_transaction_get_first packet dresp = do
  resp ← check_response packet dresp
  (offset, status) ← read_header (method_id app_pq_transaction_first_read) resp
  with_body offset status (not (ltb (length resp) (12 + 68))) response_packet_invalid_size
      (reply_of (dat_size (length resp) 68) (drop 12 resp))

-- dataservice_decode_response_global_settings_get: the data is taken whatever the status is
unfoldable pub decode_response_global_settings_get : Option Bytes → Bool → Decoded Bytes
unfolding check_response read_header
decode_response_global_settings_get packet dresp = do
  resp ← check_response packet dresp
  (offset, status) ← read_header (method_id app_global_setting_read) resp
  ok (offset, status, some (drop 12 resp))

-- the body of the decoders of a response without data
unfoldable pub decode_status : Method → Option Bytes → Bool → Decoded (Unit {0})
unfolding check_response read_header
decode_status method packet dresp = do
  resp ← check_response packet dresp
  guard (length resp == 12) response_packet_invalid_size
  (offset, status) ← read_header (method_id method) resp
  ok (offset, status, some tt)

abbrev pub decode_response_root_context_init : Option Bytes → Bool → Decoded (Unit {0})
decode_response_root_context_init = decode_status ll_root_context_create

abbrev pub decode_response_root_context_reduce_caps : Option Bytes → Bool → Decoded (Unit {0})
decode_response_root_context_reduce_caps = decode_status ll_root_context_reduce_caps

abbrev pub decode_response_child_context_close : Option Bytes → Bool → Decoded (Unit {0})
decode_response_child_context_close = decode_status ll_child_context_close

abbrev pub decode_response_global_settings_set : Option Bytes → Bool → Decoded (Unit {0})
decode_response_global_settings_set = decode_status app_global_setting_write

abbrev pub decode_response_transaction_drop : Option Bytes → Bool → Decoded (Unit {0})
decode_response_transaction_drop = decode_status app_pq_transaction_drop

abbrev pub decode_response_transaction_promote : Option Bytes → Bool → Decoded (Unit {0})
decode_response_transaction_promote = decode_status app_pq_transaction_promote

abbrev pub decode_response_block_make : Option Bytes → Bool → Decoded (Unit {0})
decode_response_block_make = decode_status app_block_write
