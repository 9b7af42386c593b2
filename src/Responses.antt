-- ===== src/Responses.antt =====
-- Responses of the data service: src/dataservice/dataservice_decode_and_dispatch_write_status.c, which
-- makes the packet that is written to the socket, the encoders of its payload, and the client's
-- decoders, for the methods that submit and read a queued transaction and create a child context.
pub mod Packet
pub mod Fields
pub mod Reads
pub mod Laws
pub mod Answers
pub mod Examples
use v_c_agentd.Prelude.{
  ℕ, ◌+◌, ◌-◌, ◌*◌, ◌%◌, ◌^◌, Bool, true, false, Option, none, some, [], ◌++◌, ◌==◌, ltb,
  if◌then◌else◌, length, take, drop,
}
use mathlib.Core.Bool.{not}
use v_c_agentd.Wire.{Bytes, put32, get32}
use v_c_agentd.Status.{
  Status, Result, ok, err, guard, ◌>>=◌, ◌>>◌, out_of_memory, response_packet_invalid_size,
  unexpected_method_code, response_invalid_parameter, unexpected_data_packet_size,
}
use v_c_agentd.Method.{
  method_id, ll_child_context_create, app_pq_transaction_submit, app_pq_transaction_read,
}

-- `data`, which may be `NULL`
abbrev pub data_of : Option Bytes → Bytes
data_of none = []
data_of (some bs) = bs

-- dataservice_decode_and_dispatch_write_status, up to the packet that is written: `ipc_write_data_noblock`
-- takes its size as a `uint32_t`. The function says for each size whether `malloc` gives memory.
unfoldable pub write_status : (ℕ → Bool) → ℕ → ℕ → ℕ → Option Bytes → Result Bytes
write_status malloc method offset status payload =
    if malloc (12 + length (data_of payload))
    then ok (
        take ((12 + length (data_of payload)) % 2 ^ 32)
          (put32 method ++ (put32 offset ++ (put32 status ++ data_of payload))))
    else err out_of_memory

-- The ids, the state as its four bytes, and the certificate of a transaction in a response.
pub record Reply : Type 0 where
  pub txn_id : Bytes
  pub prev_id : Bytes
  pub next_id : Bytes
  pub artifact_id : Bytes
  pub net_txn_state : Bytes
  pub cert : Bytes

-- dataservice_encode_response_transaction_get
unfoldable pub encode_response_transaction_get : (ℕ → Bool) → Reply → Result Bytes
encode_response_transaction_get malloc r =
    if malloc (4 * 16 + 4 + length r.cert)
    then ok (
        take 16 r.txn_id
        ++ (take 16 r.prev_id
            ++ (take 16 r.next_id
                ++ (take 16 r.artifact_id ++ (take 4 r.net_txn_state ++ r.cert)))))
    else err out_of_memory

-- dataservice_encode_response_child_context_create
unfoldable pub encode_response_child_context_create : (ℕ → Bool) → ℕ → Result Bytes
encode_response_child_context_create malloc child_offset =
    if malloc 4 then ok (put32 child_offset) else err out_of_memory

-- `hdr.offset`, `hdr.status`, and the rest of the structure, which an error leaves unset
abbrev pub Decoded : Type 0 → Type 0
Decoded A = Result (ℕ × ℕ × Option A)

-- the checks that open a decoder
unfoldable pub check_response : Option Bytes → Bool → Result Bytes
check_response none dresp = err response_invalid_parameter
check_response (some resp) dresp = do guard dresp response_invalid_parameter; ok resp

-- the method, the offset and the status
unfoldable pub read_header : ℕ → Bytes → Result (ℕ × ℕ)
read_header method resp = do
  guard (not (ltb (length resp) 12)) response_packet_invalid_size
  guard (method == get32 resp) unexpected_method_code
  ok (get32 (drop 4 resp), get32 (drop 8 resp))

-- The end of a decoder: if the status is that of success, a check of the size, and the body.
abbrev pub with_body : {A : Type 0} → ℕ → ℕ → Bool → Status → A → Decoded A
with_body offset status long e a =
    if status == 0
    then (if long then ok (offset, status, some a) else err e)
    else ok (offset, status, none)

-- dataservice_decode_response_transaction_submit
unfoldable pub decode_response_transaction_submit : Option Bytes → Bool → Decoded (Unit {0})
unfolding check_response read_header
decode_response_transaction_submit packet dresp = do
  resp ← check_response packet dresp
  guard (length resp == 12) response_packet_invalid_size
  (offset, status) ← read_header (method_id app_pq_transaction_submit) resp
  ok (offset, status, some tt)

-- dataservice_decode_response_child_context_create
unfoldable pub decode_response_child_context_create : Option Bytes → Bool → Decoded ℕ
unfolding check_response read_header
decode_response_child_context_create packet dresp = do
  resp ← check_response packet dresp
  (offset, status) ← read_header (method_id ll_child_context_create) resp
  with_body offset status (not (ltb (length resp) (12 + 4))) unexpected_data_packet_size
      (get32 (drop 12 resp))

-- `dat_size`, a `uint32_t`: the size of the packet less those of the header and the node
abbrev pub dat_size : (size node : ℕ) → ℕ
dat_size size node = (size % 2 ^ 32 + 2 ^ 32 - (12 + node)) % 2 ^ 32

-- the node and the certificate of a size, behind the header
abbrev pub reply_of : ℕ → Bytes → Reply
reply_of n bval = record {
  txn_id = take 16 bval;
  prev_id = take 16 (drop 16 bval);
  next_id = take 16 (drop 32 bval);
  artifact_id = take 16 (drop 48 bval);
  net_txn_state = take 4 (drop 64 bval);
  cert = take n (drop 68 bval);
}

-- dataservice_decode_response_transaction_get
unfoldable pub decode_response_transaction_get : Option Bytes → Bool → Decoded Reply
unfolding check_response read_header
decode_response_transaction_get packet dresp = do
  resp ← check_response packet dresp
  (offset, status) ← read_header (method_id app_pq_transaction_read) resp
  with_body offset status (not (ltb (length resp) (12 + 68))) response_packet_invalid_size
      (reply_of (dat_size (length resp) 68) (drop 12 resp))
