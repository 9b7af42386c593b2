-- ===== src/Service/Records.antt =====
-- Exchanges of clients that read by height, a transaction of a block, and an artifact.
use v_c_agentd.Prelude.{ℕ, ◌+◌, ◌<◌, ◌^◌, length, ◌≡◌, refl, ◌∙◌, Bool, true, false, some, ◌∷◌}
use v_c_agentd.Wire.{Bytes, put64, put32}
use v_c_agentd.Wire.Laws.{length-put32}
use v_c_agentd.Bitcap.{Caps, isset}
use v_c_agentd.Status.{ok, ◌>>=◌}
use v_c_agentd.Method.{
  method_id, app_block_id_by_height_read, app_transaction_read, app_artifact_read,
}
use v_c_agentd.Codec.{
  Target, block_id_by_height_read, canonized_transaction_get, payload_artifact_read,
}
use v_c_agentd.Codec.Layout.{IsValid}
use v_c_agentd.Codec.EncodeLaws.{IsReady}
use v_c_agentd.Contexts.{child_context_lookup}
use v_c_agentd.Queue.{Node}
use v_c_agentd.Database.Reliable.{IsReliableEnv}
use v_c_agentd.Blocks.Certs.{uuid_of}
use v_c_agentd.Blocks.Chain.{Block}
use v_c_agentd.Blocks.Ledger.{Ledger, Txn, Artifact}
use v_c_agentd.Blocks.Holds.{Represents, txn_node, artifact_record}
use v_c_agentd.Blocks.Read.{cap_block_id_by_height_read, cap_transaction_read, cap_artifact_read}
use v_c_agentd.Blocks.ReadLaws.{
  block_id_by_height_get-block, canonized_transaction_get-txn, artifact_get-record, block_at,
}
use v_c_agentd.Responses.Reads.{
  asked, encode_response_block_id_by_height_read, encode_response_canonized_transaction_get,
  encode_response_payload_artifact_read, decode_response_block_id_by_height_get,
  decode_response_canonized_transaction_get, decode_response_artifact_get,
}
use v_c_agentd.Responses.Answers.Certified.{canonized-answer}
use v_c_agentd.Responses.Answers.Plain.{id-answer, artifact-answer}
use v_c_agentd.Service.{Setup, State, Handler, bytes_of, canonized_of_node, operate}
use v_c_agentd.Service.Readings.{
  bytes_of-IsId, reading_of, left_by, respond-payload, exchange-operate,
}

module _ (s : Setup) (root_create : Bytes → Handler s) (memory : (n : ℕ) → s.env.malloc n ≡ true)
    (r : IsReliableEnv s.env) (t : Target) (ready : IsReady t) (st : State s.env) (i : ℕ)
    (l : Ledger) (h : Represents s.env s.certs.root_block st.store l) where
  abbrev caps : Caps
  caps = (st.inst.children i).childcaps

  -- A client's exchange of a valid request of the block id of a height, on an open child context with the
  -- capability, where LMDB, `malloc` and the buffers do not fail, on databases that hold a ledger with a
  -- block at this height, the oldest at 1: the client decodes its index, the status of success and the
  -- id of that block, and the service is as before.
  pub exchange-height :
      (index height : ℕ) (b : Block)
      → IsValid (block_id_by_height_read index height)
      → child_context_lookup st.inst index ≡ ok i
      → isset caps cap_block_id_by_height_read ≡ true
      → block_at height l.blocks ≡ some b
      → (reading_of s root_create
            (λ resp. decode_response_block_id_by_height_get (some resp) true)
            t
            (block_id_by_height_read index height)
            st
          ≡ ok (index, 0, some (bytes_of b.id)))
        × (left_by s root_create (block_id_by_height_read index height) st ≡ st)
  unfolding operate ◌>>=◌
  exchange-height index height b valid open_context allowed there =
      let (decoded, left) =
        exchange-operate s root_create memory t ready st i (block_id_by_height_read index height)
          (λ resp. decode_response_block_id_by_height_get (some resp) true) valid tt refl
          open_context in
      (
        decoded
            ∙ rw
                (
                  block_id_by_height_get-block r s.certs.root_block l false caps st.store h height
                      allowed,
                  there,
                )
                (respond-payload s root_create (method_id app_block_id_by_height_read) index
                  (encode_response_block_id_by_height_read s.env.malloc (bytes_of b.id))
                  (λ resp. decode_response_block_id_by_height_get (some resp) true) _
                  (id-answer s.env.malloc memory index valid.0 (bytes_of b.id)
                    (bytes_of-IsId b.id)).0),
        left,
      )

  -- A client's exchange of a valid request of a transaction of a block, on an open child context with the
  -- capability, where LMDB, `malloc` and the buffers do not fail, on databases that hold a ledger with
  -- this transaction, whose certificate has a byte, and in a packet of fewer than 2^32 bytes: the client
  -- decodes its index, the status of success, the ids and the state of the transaction's node, and
  -- the certificate if it was asked for, and the service is as before.
  pub exchange-canonized :
      (index : ℕ) (txn_id : Bytes) (read_cert : Bool) (x : Txn) (b : ℕ) (bs : Bytes)
      → IsValid (canonized_transaction_get index txn_id read_cert)
      → child_context_lookup st.inst index ≡ ok i
      → isset caps cap_transaction_read ≡ true
      → l.txns (uuid_of txn_id) ≡ some x
      → x.cert ≡ b ∷ bs
      → 96 + length (asked read_cert (b ∷ bs)) < 2 ^ 32
      → (reading_of s root_create
            (λ resp. decode_response_canonized_transaction_get (some resp) true)
            t
            (canonized_transaction_get index txn_id read_cert)
            st
          ≡ ok (
            index,
            0,
            some (record (canonized_of_node (txn_node (uuid_of txn_id) x, b ∷ bs)) {
              cert = asked read_cert (b ∷ bs);
            }),
          ))
        × (left_by s root_create (canonized_transaction_get index txn_id read_cert) st ≡ st)
  unfolding operate ◌>>=◌
  exchange-canonized index txn_id read_cert x b bs valid open_context allowed there cert bound =
      let (decoded, left) =
        exchange-operate s root_create memory t ready st i
          (canonized_transaction_get index txn_id read_cert)
          (λ resp. decode_response_canonized_transaction_get (some resp) true) valid tt refl
          open_context in
      (
        decoded
            ∙ rw
                (
                  (canonized_transaction_get-txn r s.certs.root_block l false caps st.store h
                      (uuid_of txn_id) allowed).0,
                  there,
                  cert,
                )
                (respond-payload s root_create (method_id app_transaction_read) index
                  (encode_response_canonized_transaction_get s.env.malloc
                    (canonized_of_node (n, b ∷ bs)) read_cert)
                  (λ resp. decode_response_canonized_transaction_get (some resp) true) _
                  (canonized-answer s.env.malloc memory index valid.0
                    (canonized_of_node (n, b ∷ bs)) read_cert
                    (
                      bytes_of-IsId n.key,
                      bytes_of-IsId n.prev,
                      bytes_of-IsId n.next,
                      bytes_of-IsId n.artifact_id,
                      bytes_of-IsId n.block_id,
                      length-put32 n.txn_state,
                    )
                    bound)),
        left,
      )
    where
      n : Node
      n = txn_node (uuid_of txn_id) x

  -- A client's exchange of a valid request of an artifact, on an open child context with the capability,
  -- where LMDB, `malloc` and the buffers do not fail, on databases that hold a ledger with this artifact:
  -- the client decodes its index, the status of success, and the ids, the heights and the state of
  -- the artifact's record, and the service is as before.
  pub exchange-artifact :
      (index : ℕ) (artifact_id : Bytes) (a : Artifact)
      → IsValid (payload_artifact_read index artifact_id)
      → child_context_lookup st.inst index ≡ ok i
      → isset caps cap_artifact_read ≡ true
      → l.artifacts (uuid_of artifact_id) ≡ some a
      → let rec = artifact_record (uuid_of artifact_id) a in
        (reading_of s root_create
            (λ resp. decode_response_artifact_get (some resp) true)
            t
            (payload_artifact_read index artifact_id)
            st
          ≡ ok (
            index,
            0,
            some (record {
              artifact_id = bytes_of rec.key;
              txn_first = bytes_of rec.txn_first;
              txn_latest = bytes_of rec.txn_latest;
              net_height_first = put64 rec.height_first;
              net_height_latest = put64 rec.height_latest;
              net_state_latest = put32 rec.state_latest;
            }),
          ))
        × (left_by s root_create (payload_artifact_read index artifact_id) st ≡ st)
  unfolding operate ◌>>=◌
  exchange-artifact index artifact_id a valid open_context allowed there =
      let rec = artifact_record (uuid_of artifact_id) a in
      let (decoded, left) =
        exchange-operate s root_create memory t ready st i (payload_artifact_read index artifact_id)
          (λ resp. decode_response_artifact_get (some resp) true) valid tt refl open_context in
      (
        decoded
            ∙ rw
                (
                  artifact_get-record r s.certs.root_block l false caps st.store h
                      (uuid_of artifact_id) allowed,
                  there,
                )
                (respond-payload s root_create (method_id app_artifact_read) index
                  (encode_response_payload_artifact_read s.env.malloc (bytes_of rec.key)
                    (bytes_of rec.txn_first) (bytes_of rec.txn_latest) rec.height_first
                    rec.height_latest rec.state_latest)
                  (λ resp. decode_response_artifact_get (some resp) true) _
                  (artifact-answer s.env.malloc memory index valid.0 (bytes_of rec.key)
                    (bytes_of rec.txn_first) (bytes_of rec.txn_latest) rec.height_first
                    rec.height_latest rec.state_latest (bytes_of-IsId rec.key)
                    (bytes_of-IsId rec.txn_first) (bytes_of-IsId rec.txn_latest))),
        left,
      )
