-- ===== src/Responses/Answers.antt =====
-- The responses to the reads and to the methods without data, as one type.
pub mod Certified
pub mod Plain
use v_c_agentd.Prelude.{
  ℕ, ◌+◌, ◌*◌, ◌<◌, ◌^◌, ◌%◌, ◌-◌, ◌≡◌, refl, ◌∙◌, Bool, true, false, Option, none, some, List, [],
  ◌∷◌, ◌++◌, ◌==◌, arith, ltb, length, take, drop, take-append, take_all, if◌then◌else◌,
}
use mathlib.Core.Bool.{not}
use v_c_agentd.Wire.{Bytes, put32, put64}
use v_c_agentd.Wire.Laws.{length-put32, length-put64}
use v_c_agentd.Status.{Status, Result, ok, err, guard, ◌>>=◌, ◌>>◌}
use v_c_agentd.Method.{
  Method, method_id, app_block_read, app_transaction_read, app_artifact_read,
  app_pq_transaction_first_read, app_global_setting_read, app_block_id_latest_read,
  app_block_id_by_height_read,
}
use v_c_agentd.Responses.{data_of, write_status, check_response, read_header, Decoded}
use v_c_agentd.Responses.Packet.{packet, length-packet, behind_status, read_header-packet}
use v_c_agentd.Responses.Laws.{write_status-packet}
use v_c_agentd.Responses.Fields.{behind, total, length-behind, rest_at, field_at}
use v_c_agentd.Responses.Reads.{
  asked, BlockReply, encode_response_block_read, block_of_reply, decode_response_block_get,
  CanonizedReply, encode_response_canonized_transaction_get, canonized_of_reply,
  decode_response_canonized_transaction_get, ArtifactReply, encode_response_payload_artifact_read,
  artifact_of_reply, decode_response_artifact_get, encode_response_block_id_by_height_read,
  encode_response_block_id_latest_read, decode_response_block_id_by_height_get,
  decode_response_latest_block_id_get, decode_status, decode_response_global_settings_get,
}
use v_c_agentd.Responses.Answers.Certified.{IsId, block-answer, canonized-answer}
use v_c_agentd.Responses.Answers.Plain.{artifact-answer, id-answer, status-answer, settings-answer}

-- What the service answers, to the methods whose responses this module is about.
pub data Answer : Type 0 where
  block :
      (block_id prev_id next_id first_txn_id : Bytes) (block_height : ℕ) (write_cert : Bool)
      (cert : Bytes)
      → Answer
  canonized : CanonizedReply → (write_cert : Bool) → Answer
  artifact :
      (artifact_id txn_first txn_latest : Bytes) (height_first height_latest state_latest : ℕ)
      → Answer
  id_by_height : (block_id : Bytes) → Answer
  id_latest : (block_id : Bytes) → Answer
  settings : (status : ℕ) (payload : Option Bytes) → Answer
  no_data : (m : Method) (status : ℕ) → Answer

-- The ids have sixteen bytes, the state of a transaction four, a status 32 bits, and the packet of the
-- response a size of 32 bits.
abbrev pub IsAnswer : Answer → Type 0
IsAnswer (block a b c d height write_cert cert) =
    IsId a × IsId b × IsId c × IsId d × (84 + length (asked write_cert cert) < 2 ^ 32)
IsAnswer (canonized r write_cert) =
    IsId r.txn_id
    × IsId r.prev_id
    × IsId r.next_id
    × IsId r.artifact_id
    × IsId r.block_id
    × (length r.net_txn_state ≡ 4)
    × (96 + length (asked write_cert r.cert) < 2 ^ 32)
IsAnswer (artifact a b c first latest state) = IsId a × IsId b × IsId c
IsAnswer (id_by_height a) = IsId a
IsAnswer (id_latest a) = IsId a
IsAnswer (settings status payload) = (status < 2 ^ 32) × (12 + length (data_of payload) < 2 ^ 32)
IsAnswer (no_data m status) = status < 2 ^ 32

-- The client decodes what the service encodes: the certificate only if it was asked for, and integers in
-- network order.
abbrev pub Arrives : (ℕ → Bool) → ℕ → Answer → Type 0
Arrives malloc offset (block a b c d height write_cert cert) =
    (encode_response_block_read malloc a b c d height write_cert cert >>= λ payload.
    write_status malloc (method_id app_block_read) offset 0 (some payload) >>= λ resp.
    decode_response_block_get (some resp) true)
    ≡ ok (
      offset,
      0,
      some (record {
        block_id = a;
        prev_id = b;
        next_id = c;
        first_txn_id = d;
        net_block_height = put64 height;
        cert = asked write_cert cert;
      }),
    )
Arrives malloc offset (canonized r write_cert) =
    (encode_response_canonized_transaction_get malloc r write_cert >>= λ payload.
    write_status malloc (method_id app_transaction_read) offset 0 (some payload) >>= λ resp.
    decode_response_canonized_transaction_get (some resp) true)
    ≡ ok (offset, 0, some (record r { cert = asked write_cert r.cert }))
Arrives malloc offset (artifact a b c first latest state) =
    (encode_response_payload_artifact_read malloc a b c first latest state >>= λ payload.
    write_status malloc (method_id app_artifact_read) offset 0 (some payload) >>= λ resp.
    decode_response_artifact_get (some resp) true)
    ≡ ok (
      offset,
      0,
      some (record {
        artifact_id = a;
        txn_first = b;
        txn_latest = c;
        net_height_first = put64 first;
        net_height_latest = put64 latest;
        net_state_latest = put32 state;
      }),
    )
Arrives malloc offset (id_by_height a) =
    (encode_response_block_id_by_height_read malloc a >>= λ payload.
    write_status malloc (method_id app_block_id_by_height_read) offset 0 (some payload) >>= λ resp.
    decode_response_block_id_by_height_get (some resp) true)
    ≡ ok (offset, 0, some a)
Arrives malloc offset (id_latest a) =
    (encode_response_block_id_latest_read malloc a >>= λ payload.
    write_status malloc (method_id app_block_id_latest_read) offset 0 (some payload) >>= λ resp.
    decode_response_latest_block_id_get (some resp) true)
    ≡ ok (offset, 0, some a)
Arrives malloc offset (settings status payload) =
    (write_status malloc (method_id app_global_setting_read) offset status payload >>= λ resp.
    decode_response_global_settings_get (some resp) true)
    ≡ ok (offset, status, some (data_of payload))
Arrives malloc offset (no_data m status) =
    (write_status malloc (method_id m) offset status none >>= λ resp.
    decode_status m (some resp) true)
    ≡ ok (offset, status, some tt)

-- Where there is memory, with a 32-bit offset and in a packet of fewer than 2^32 bytes: a block, a
-- transaction of a block and an artifact, whose ids have sixteen bytes and whose transaction's state
-- has four, and a block's id, sent with the status of success, are decoded by the client with their
-- certificate if it was asked for; and so are a setting, and the response of a method without data,
-- with any 32-bit status.
pub answer-Arrives :
    (malloc : ℕ → Bool) (memory : (n : ℕ) → malloc n ≡ true) (offset : ℕ) (a : Answer)
    → offset < 2 ^ 32
    → IsAnswer a
    → Arrives malloc offset a
answer-Arrives malloc memory offset (block a b c d height write_cert cert) ho
      (ha, hb, hc, hd, bound) =
    block-answer malloc memory offset ho a b c d height write_cert cert ha hb hc hd bound
answer-Arrives malloc memory offset (canonized r write_cert) ho (ha, hb, hc, hd, hb', hs, bound) =
    canonized-answer malloc memory offset ho r write_cert (ha, hb, hc, hd, hb', hs) bound
answer-Arrives malloc memory offset (artifact a b c first latest state) ho (ha, hb, hc) =
    artifact-answer malloc memory offset ho a b c first latest state ha hb hc
answer-Arrives malloc memory offset (id_by_height a) ho h =
    (id-answer malloc memory offset ho a h).0
answer-Arrives malloc memory offset (id_latest a) ho h = (id-answer malloc memory offset ho a h).1
answer-Arrives malloc memory offset (settings status payload) ho (h, small) =
    settings-answer malloc memory offset ho status h payload small
answer-Arrives malloc memory offset (no_data m status) ho h =
    status-answer malloc memory offset ho status h m
