-- ===== src/Service/Readings.antt =====
-- Exchanges of clients that read from the block databases.
use v_c_agentd.Prelude.{ℕ, ◌+◌, ◌<◌, ◌^◌, length, ◌≡◌, refl, ap, ◌∙◌, Bool, true, false, some, ◌∷◌}
use v_c_agentd.Wire.{Bytes, put64}
use v_c_agentd.Wire.Laws.{length-le}
use v_c_agentd.Bitcap.{Caps, isset}
use v_c_agentd.Status.{Result, ok, err, ◌>>=◌}
use v_c_agentd.Method.{method_id, app_block_id_latest_read, app_block_read}
use v_c_agentd.Codec.{Target, Request, block_read, block_id_latest_read}
use v_c_agentd.Codec.Layout.{layout, IsValid, IsEncodable, encode}
use v_c_agentd.Codec.EncodeLaws.{IsReady, encode-layout}
use v_c_agentd.Codec.Dispatch.{decode_and_dispatch}
use v_c_agentd.Contexts.{child_context_lookup}
use v_c_agentd.Queue.{end_id}
use v_c_agentd.Database.{BlockNode}
use v_c_agentd.Database.Reliable.{IsReliableEnv}
use v_c_agentd.Blocks.Certs.{uuid_of}
use v_c_agentd.Blocks.Chain.{parent_id, reserved}
use v_c_agentd.Blocks.Ledger.{Ledger}
use v_c_agentd.Blocks.Holds.{Represents}
use v_c_agentd.Blocks.Read.{cap_block_id_latest_read, cap_block_read}
use v_c_agentd.Blocks.ReadLaws.{latest_block_id_get-newest, block_get-block, block_of}
use v_c_agentd.Responses.{write_status}
use v_c_agentd.Responses.Reads.{
  asked, encode_response_block_read, encode_response_block_id_latest_read,
  decode_response_block_get, decode_response_latest_block_id_get,
}
use v_c_agentd.Responses.Answers.Certified.{IsId, block-answer}
use v_c_agentd.Responses.Answers.Plain.{id-answer}
use v_c_agentd.Service.{Setup, State, Handler, bytes_of, child_index, operate, respond}
use v_c_agentd.Service.Laws.{method_of, operates, handlers, dispatch-serve}
use v_c_agentd.Service.Exchange.{serve-eq}

pub bytes_of-IsId : (id : ℕ) → IsId (bytes_of id)
bytes_of-IsId id = length-le 16 id

module _ (s : Setup) (root_create : Bytes → Handler s) where
  -- the packet of a read, what the service responds, and the response as the client decodes it
  abbrev pub reading_of :
      {A : Type 0} → (Bytes → Result A) → Target → Request → State s.env → Result A
  reading_of decode t r st =
      encode t r >>= λ packet. (decode_and_dispatch (handlers s root_create) packet st).0 >>= decode

  abbrev pub left_by : Request → State s.env → State s.env
  left_by r st = (decode_and_dispatch (handlers s root_create) (layout r) st).1

  -- the response with a payload that is encoded
  pub respond-payload :
      {A : Type 0} (m offset : ℕ) (x : Result Bytes) (decode : Bytes → Result A) (a : A)
      → (x >>= λ payload. write_status s.env.malloc m offset 0 (some payload) >>= decode) ≡ ok a
      → (respond s m offset (x >>= λ payload. ok (some payload)) >>= decode) ≡ ok a
  unfolding respond ◌>>=◌
  respond-payload m offset (ok payload) decode a h = h
  respond-payload m offset (err e) decode a h = cc

  module _ (memory : (n : ℕ) → s.env.malloc n ≡ true) (t : Target) (ready : IsReady t)
      (st : State s.env) (i : ℕ) where
    -- What the client of an operation decodes, and the state then.
    pub exchange-operate :
        {A : Type 0} (req : Request) (decode : Bytes → Result A)
        → IsValid req
        → IsEncodable req
        → operates req ≡ true
        → child_context_lookup st.inst (child_index req) ≡ ok i
        → (reading_of decode t req st ≡ (
            respond s
              (method_id (method_of req))
              (child_index req)
              (operate s req (st.inst.children i).childcaps st.store).0
            >>= decode))
          × (left_by req st
              ≡ record st { store = (operate s req (st.inst.children i).childcaps st.store).1 })
    unfolding ◌>>=◌
    exchange-operate req decode valid text op open_context =
        let done =
          ap (λ f. f st) (dispatch-serve s root_create req valid op)
          ∙ serve-eq s root_create memory req st i open_context in
        (rw (encode-layout ready req valid text, done) refl, ap (λ x. x.1) done)

  module _ (memory : (n : ℕ) → s.env.malloc n ≡ true) (r : IsReliableEnv s.env) (t : Target)
      (ready : IsReady t) (st : State s.env) (i : ℕ) (l : Ledger)
      (h : Represents s.env s.certs.root_block st.store l) where
    abbrev caps : Caps
    caps = (st.inst.children i).childcaps

    -- A client's exchange of a valid request of the latest block id, on an open child context with the
    -- capability, where LMDB, `malloc` and the buffers do not fail, on databases that hold a ledger: the
    -- client decodes its index, the status of success and the id of the newest block, or that of the
    -- root block where there is none, and the service is as before.
    pub exchange-latest :
        (index : ℕ)
        → IsValid (block_id_latest_read index)
        → child_context_lookup st.inst index ≡ ok i
        → isset caps cap_block_id_latest_read ≡ true
        → (reading_of
              (λ resp. decode_response_latest_block_id_get (some resp) true)
              t
              (block_id_latest_read index)
              st
            ≡ ok (index, 0, some (bytes_of (parent_id s.certs.root_block l.blocks))))
          × (left_by (block_id_latest_read index) st ≡ st)
    unfolding operate ◌>>=◌
    exchange-latest index valid open_context allowed =
        let id = parent_id s.certs.root_block l.blocks in
        let (decoded, left) =
          exchange-operate memory t ready st i (block_id_latest_read index)
            (λ resp. decode_response_latest_block_id_get (some resp) true) valid tt refl
            open_context in
        (
          decoded
              ∙ rw (latest_block_id_get-newest r s.certs.root_block l false caps st.store h allowed)
                  (respond-payload (method_id app_block_id_latest_read) index
                    (encode_response_block_id_latest_read s.env.malloc (bytes_of id))
                    (λ resp. decode_response_latest_block_id_get (some resp) true) _
                    (id-answer s.env.malloc memory index valid (bytes_of id) (bytes_of-IsId id)).1),
          left,
        )

    -- A client's exchange of a valid request of a block, on an open child context with the
    -- capability, where LMDB, `malloc` and the buffers do not fail, on databases that hold a ledger with
    -- a block of this id, which is no sentinel's nor the root block's, and whose certificate has a
    -- byte, and in a packet of fewer than 2^32 bytes: the client decodes its index, the status of
    -- success, the ids and the height of the block's node, and the certificate if it was asked for,
    -- and the service is as before.
    pub exchange-block_read :
        (index : ℕ) (block_id : Bytes) (read_cert : Bool) (n : BlockNode) (x : ℕ) (xs : Bytes)
        → IsValid (block_read index block_id read_cert)
        → child_context_lookup st.inst index ≡ ok i
        → isset caps cap_block_read ≡ true
        → reserved s.certs.root_block (uuid_of block_id) ≡ false
        → block_of s.certs.root_block end_id (uuid_of block_id) l.blocks ≡ some (n, x ∷ xs)
        → 84 + length (asked read_cert (x ∷ xs)) < 2 ^ 32
        → (reading_of
              (λ resp. decode_response_block_get (some resp) true)
              t
              (block_read index block_id read_cert)
              st
            ≡ ok (
              index,
              0,
              some (record {
                block_id = bytes_of n.key;
                prev_id = bytes_of n.prev;
                next_id = bytes_of n.next;
                first_txn_id = bytes_of n.first_transaction_id;
                net_block_height = put64 n.block_height;
                cert = asked read_cert (x ∷ xs);
              }),
            ))
          × (left_by (block_read index block_id read_cert) st ≡ st)
    unfolding operate ◌>>=◌
    exchange-block_read index block_id read_cert n x xs valid open_context allowed free there
          bound =
        let (decoded, left) =
          exchange-operate memory t ready st i (block_read index block_id read_cert)
            (λ resp. decode_response_block_get (some resp) true) valid tt refl open_context in
        (
          decoded
              ∙ rw
                  (
                    block_get-block r s.certs.root_block l false caps st.store h (uuid_of block_id)
                        allowed free,
                    there,
                  )
                  (respond-payload (method_id app_block_read) index
                    (encode_response_block_read s.env.malloc (bytes_of n.key) (bytes_of n.prev)
                      (bytes_of n.next) (bytes_of n.first_transaction_id) n.block_height read_cert
                      (x ∷ xs))
                    (λ resp. decode_response_block_get (some resp) true) _
                    (block-answer s.env.malloc memory index valid.0 (bytes_of n.key)
                      (bytes_of n.prev) (bytes_of n.next) (bytes_of n.first_transaction_id)
                      n.block_height read_cert (x ∷ xs) (bytes_of-IsId n.key) (bytes_of-IsId n.prev)
                      (bytes_of-IsId n.next) (bytes_of-IsId n.first_transaction_id) bound)),
          left,
        )
