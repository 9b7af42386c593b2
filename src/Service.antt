-- ===== src/Service.antt =====
-- The data service as a whole: the handlers src/dataservice/dataservice_decode_and_dispatch_*.c, which
-- decode a request, look its child context up, call the operation and write the response, behind the
-- switch of dataservice_decode_and_dispatch.c.
pub mod Laws
pub mod Exchange
pub mod Effects
pub mod Readings
pub mod Stored
pub mod Records
pub mod RecordExamples
pub mod Examples
use v_c_agentd.Prelude.{ℕ, Bool, true, false, Option, none, some, List, [], ◌∷◌}
use v_c_agentd.Wire.{Bytes, le, from_le, put32}
use v_c_agentd.Status.{Status, Result, ok, err, ◌>>=◌, request_packet_bad}
use v_c_agentd.Status.Code.{status_code}
use v_c_agentd.Method.{
  Method, method_id, ll_root_context_reduce_caps, ll_child_context_create, ll_child_context_close,
  app_block_id_latest_read, app_block_read, app_transaction_read, app_pq_transaction_submit,
  app_pq_transaction_promote, app_pq_transaction_first_read, app_pq_transaction_read,
  app_pq_transaction_drop, app_artifact_read, app_block_write, app_block_id_by_height_read,
  app_global_setting_read, app_global_setting_write,
}
use v_c_agentd.Bitcap.{Caps}
use v_c_agentd.Lmdb.Cmd.{Cmd}
use v_c_agentd.Codec.{
  Request, root_context_init, root_context_reduce_caps, child_context_create, child_context_close,
  global_setting_get, global_setting_set, transaction_submit, transaction_get_first,
  transaction_get, transaction_drop, transaction_promote, payload_artifact_read, block_make,
  block_read, block_id_by_height_read, block_id_latest_read, canonized_transaction_get,
}
use v_c_agentd.Codec.Decode
use v_c_agentd.Codec.Dispatch.{Handlers, decode_and_dispatch}
use v_c_agentd.Contexts.{
  Instance, child_context_lookup, dispatch_child_context_create, dispatch_child_context_close,
  dispatch_root_context_reduce_caps,
}
use v_c_agentd.Queue.{Uuid, Node}
use v_c_agentd.Queue.Submit
use v_c_agentd.Queue.Drop
use v_c_agentd.Queue.Promote
use v_c_agentd.Queue.Read as QueueRead
use v_c_agentd.Settings as SettingStore
use v_c_agentd.Database.{pq_db, global_db, BlockNode, ArtifactRecord, Environment, on}
use v_c_agentd.Blocks.Certs.{Certificates, uuid_of}
use v_c_agentd.Blocks.Make as BlockMake
use v_c_agentd.Blocks.Read as BlockRead
use v_c_agentd.Responses.{Reply, write_status, encode_response_transaction_get}
use v_c_agentd.Responses.Reads.{
  CanonizedReply, encode_response_transaction_get_first, encode_response_block_read,
  encode_response_canonized_transaction_get, encode_response_payload_artifact_read,
  encode_response_block_id_by_height_read, encode_response_block_id_latest_read,
}

-- the sixteen bytes of an id
abbrev pub bytes_of : Uuid → Bytes
bytes_of id = le 16 id

abbrev pub reply_of_node : Node × Bytes → Reply
reply_of_node (n, cert) = record {
  txn_id = bytes_of n.key;
  prev_id = bytes_of n.prev;
  next_id = bytes_of n.next;
  artifact_id = bytes_of n.artifact_id;
  net_txn_state = put32 n.txn_state;
  cert = cert;
}

abbrev pub canonized_of_node : Node × Bytes → CanonizedReply
canonized_of_node (n, cert) = record {
  txn_id = bytes_of n.key;
  prev_id = bytes_of n.prev;
  next_id = bytes_of n.next;
  artifact_id = bytes_of n.artifact_id;
  block_id = bytes_of n.block_id;
  net_txn_state = put32 n.txn_state;
  cert = cert;
}

-- `hdr.child_index` of a decoded request
abbrev pub child_index : Request → ℕ
child_index (root_context_init s d) = 0
child_index (root_context_reduce_caps c) = 0
child_index (child_context_create c) = 0
child_index (child_context_close i) = i
child_index (global_setting_get i k) = i
child_index (global_setting_set i k v) = i
child_index (transaction_submit i x a c) = i
child_index (transaction_get_first i) = i
child_index (transaction_get i x) = i
child_index (transaction_drop i x) = i
child_index (transaction_promote i x) = i
child_index (payload_artifact_read i a) = i
child_index (block_make i b c) = i
child_index (block_read i b r) = i
child_index (block_id_by_height_read i h) = i
child_index (block_id_latest_read i) = i
child_index (canonized_transaction_get i x r) = i

-- What the service is made of: its databases, the certificate library, and the build option ATTESTATION.
pub record Setup : Type 1 where
  pub env : Environment
  pub certs : Certificates
  pub attestation : Bool

-- the contexts and the database
pub record State (e : Environment) : Type 0 where
  pub inst : Instance
  pub store : e.T

-- a read, and the encoding of what it gives
abbrev pub reading_then :
    {T A : Type 0} → (T → Result A) → (A → Result Bytes) → Cmd T (Option Bytes)
reading_then query encode store =
    ((query store >>= λ a. encode a >>= λ payload. ok (some payload)), store)

-- a change, which is answered without data
abbrev pub without_data : {T : Type 0} → Result (Unit {0}) × T → Result (Option Bytes) × T
without_data (ok u, t) = (ok none, t)
without_data (err e, t) = (err e, t)

-- `sizeof(buffer)` in dataservice_decode_and_dispatch_global_setting_get
abbrev pub setting_buffer : ℕ
setting_buffer = 16384

module _ (s : Setup) where
  -- What a handler calls on a context with these capabilities, and the payload that it encodes.
  unfoldable pub operate : Request → Caps → Cmd s.env.T (Option Bytes)
  operate (transaction_submit i x a c) caps store = without_data (
      Submit.transaction_submit (on s.env pq_db) s.attestation caps (uuid_of x) (uuid_of a) c store)
  operate (transaction_drop i x) caps store =
      without_data (Drop.transaction_drop (on s.env pq_db) false caps (uuid_of x) store)
  operate (transaction_promote i x) caps store =
      without_data (Promote.transaction_promote (on s.env pq_db) false caps (uuid_of x) store)
  operate (block_make i b c) caps store =
      without_data (BlockMake.block_make s.env s.certs caps (uuid_of b) c store)
  operate (transaction_get i x) caps store =
      reading_then (QueueRead.transaction_get (on s.env pq_db) false caps (uuid_of x))
        (λ n. encode_response_transaction_get s.env.malloc (reply_of_node n)) store
  operate (transaction_get_first i) caps store =
      reading_then (QueueRead.transaction_get_first (on s.env pq_db) false caps)
        (λ n. encode_response_transaction_get_first s.env.malloc (reply_of_node n)) store
  operate (payload_artifact_read i a) caps store =
      reading_then (BlockRead.artifact_get s.env false caps (uuid_of a))
        (λ r.
          encode_response_payload_artifact_read s.env.malloc (bytes_of r.key) (bytes_of r.txn_first)
            (bytes_of r.txn_latest) r.height_first r.height_latest r.state_latest)
        store
  operate (block_read i b read_cert) caps store =
      reading_then (BlockRead.block_get s.env s.certs.root_block false caps (uuid_of b))
        (λ (n, cert).
          encode_response_block_read s.env.malloc (bytes_of n.key) (bytes_of n.prev)
            (bytes_of n.next) (bytes_of n.first_transaction_id) n.block_height read_cert cert)
        store
  operate (block_id_by_height_read i h) caps store =
      reading_then (BlockRead.block_id_by_height_get s.env false caps h)
        (λ id. encode_response_block_id_by_height_read s.env.malloc (bytes_of id)) store
  operate (block_id_latest_read i) caps store =
      reading_then (BlockRead.latest_block_id_get s.env s.certs.root_block false caps)
        (λ id. encode_response_block_id_latest_read s.env.malloc (bytes_of id)) store
  operate (canonized_transaction_get i x read_cert) caps store =
      reading_then (BlockRead.canonized_transaction_get s.env false caps (uuid_of x))
        (λ n.
          encode_response_canonized_transaction_get s.env.malloc (canonized_of_node n) read_cert)
        store
  operate (global_setting_get i k) caps store =
      reading_then
        (λ t. (SettingStore.global_settings_get (on s.env global_db) caps k setting_buffer t).0)
        (λ val. ok val) store
  operate (global_setting_set i k v) caps store =
      without_data (SettingStore.global_settings_set (on s.env global_db) caps k v store)
  operate r caps store = (err request_packet_bad, store)

  -- the response to a method: the status of success with the payload, or that of an error
  unfoldable pub respond : ℕ → ℕ → Result (Option Bytes) → Result Bytes
  respond method offset (ok payload) = write_status s.env.malloc method offset 0 payload
  respond method offset (err e) = write_status s.env.malloc method offset (status_code e) none

  -- What a handler, and the switch, gives: the response that is written or the status that is returned,
  -- and the state then.
  abbrev pub Handler : Type 0
  Handler = State s.env → Result Bytes × State s.env

  abbrev pub after_lookup : ℕ → Request → Result ℕ → Handler
  after_lookup method r (err e) st = (respond method (child_index r) (err e), st)
  after_lookup method r (ok i) st =
      let x = operate r (st.inst.children i).childcaps st.store in
      (respond method (child_index r) (x.0), record st { store = x.1 })

  -- The body of the handlers. The structure of a request that is not decoded is all zero.
  unfoldable pub serve : Method → Result Request → Handler
  serve m (err e) st = (respond (method_id m) 0 (err e), st)
  serve m (ok r) st = after_lookup (method_id m) r (child_context_lookup st.inst (child_index r)) st

  -- a handler of the contexts, which answers with or without data
  abbrev pub in_instance :
      Method → ℕ → (Bytes → Option Bytes) → (Instance → Result Bytes × Instance) → Handler
  in_instance m offset payload_of run st =
      let x = run st.inst in
      (respond (method_id m) offset (x.0 >>= λ bs. ok (payload_of bs)), record st { inst = x.1 })

  abbrev pub index_or_zero : Result Request → ℕ
  index_or_zero (ok r) = child_index r
  index_or_zero (err e) = 0

  -- dataservice_decode_and_dispatch_*, one by one
  abbrev pub dispatch_transaction_submit : Bytes → Handler
  dispatch_transaction_submit req =
      serve app_pq_transaction_submit (Decode.decode_request_transaction_submit req)

  abbrev pub dispatch_transaction_get_first : Bytes → Handler
  dispatch_transaction_get_first req =
      serve app_pq_transaction_first_read (Decode.decode_request_transaction_get_first req)

  abbrev pub dispatch_transaction_get : Bytes → Handler
  dispatch_transaction_get req =
      serve app_pq_transaction_read (Decode.decode_request_transaction_get req)

  abbrev pub dispatch_transaction_drop : Bytes → Handler
  dispatch_transaction_drop req =
      serve app_pq_transaction_drop (Decode.decode_request_transaction_drop req)

  abbrev pub dispatch_transaction_promote : Bytes → Handler
  dispatch_transaction_promote req =
      serve app_pq_transaction_promote (Decode.decode_request_transaction_promote req)

  abbrev pub dispatch_artifact_read : Bytes → Handler
  dispatch_artifact_read req =
      serve app_artifact_read (Decode.decode_request_payload_artifact_read req)

  abbrev pub dispatch_block_make : Bytes → Handler
  dispatch_block_make req = serve app_block_write (Decode.decode_request_block_make req)

  abbrev pub dispatch_block_read : Bytes → Handler
  dispatch_block_read req = serve app_block_read (Decode.decode_request_block_read req)

  abbrev pub dispatch_block_id_by_height_read : Bytes → Handler
  dispatch_block_id_by_height_read req =
      serve app_block_id_by_height_read (Decode.decode_request_block_id_by_height_read req)

  abbrev pub dispatch_block_id_latest_read : Bytes → Handler
  dispatch_block_id_latest_read req =
      serve app_block_id_latest_read (Decode.decode_request_block_id_latest_read req)

  abbrev pub dispatch_global_setting_get : Bytes → Handler
  dispatch_global_setting_get req =
      serve app_global_setting_read (Decode.decode_request_global_setting_get req)

  abbrev pub dispatch_global_setting_set : Bytes → Handler
  dispatch_global_setting_set req =
      serve app_global_setting_write (Decode.decode_request_global_setting_set req)

  abbrev pub dispatch_canonized_transaction_get : Bytes → Handler
  dispatch_canonized_transaction_get req =
      serve app_transaction_read (Decode.decode_request_canonized_transaction_get req)

  -- the switch over all handlers; the one that opens the database is given
  unfoldable pub service : (root_create : Bytes → Handler) → Handlers Handler
  service root_create = record {
    root_context_create = root_create;
    root_context_reduce_caps = λ req.
        in_instance ll_root_context_reduce_caps 0 (λ bs. none)
          (dispatch_root_context_reduce_caps req);
    child_context_create = λ req.
        in_instance ll_child_context_create 0 (λ bs. some bs)
          (dispatch_child_context_create (s.env.malloc 4) req);
    child_context_close = λ req.
        in_instance ll_child_context_close
          (index_or_zero (Decode.decode_request_child_context_close req)) (λ bs. none)
          (dispatch_child_context_close req);
    global_setting_get = dispatch_global_setting_get;
    global_setting_set = dispatch_global_setting_set;
    transaction_submit = dispatch_transaction_submit;
    transaction_get_first = dispatch_transaction_get_first;
    transaction_get = dispatch_transaction_get;
    transaction_drop = dispatch_transaction_drop;
    transaction_promote = dispatch_transaction_promote;
    artifact_read = dispatch_artifact_read;
    block_make = dispatch_block_make;
    block_read = dispatch_block_read;
    block_id_by_height_read = dispatch_block_id_by_height_read;
    block_id_latest_read = dispatch_block_id_latest_read;
    canonized_transaction_get = dispatch_canonized_transaction_get;
    return_status = λ e st. (err e, st);
    bad_method = λ method st. (respond method 0 (err request_packet_bad), st);
  }
