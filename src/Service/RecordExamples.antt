-- ===== src/Service/RecordExamples.antt =====
-- Exchanges that read, with a service whose databases are in memory and hold a block.
use v_c_agentd.Prelude.{◌≡◌, refl, true, some, none, [], ◌∷◌, arith}
use v_c_agentd.Wire.{from_le, le, put64, put32}
use v_c_agentd.Status.{ok}
use v_c_agentd.Codec.{block_id_by_height_read, canonized_transaction_get, payload_artifact_read}
use v_c_agentd.Blocks.Ledger.{canonized_txn, artifact_after}
use v_c_agentd.Blocks.Memory.{stores-IsReliableEnv}
use v_c_agentd.Blocks.Examples.{
  id16, child, fifty, ledger', store'-Represents, may_read_txn, may_read_artifact, may_read_height,
}
use v_c_agentd.Responses.Reads.{
  decode_response_block_id_by_height_get, decode_response_canonized_transaction_get,
  decode_response_artifact_get,
}
use v_c_agentd.Service.Readings.{reading_of, left_by}
use v_c_agentd.Service.Records.{exchange-height, exchange-canonized, exchange-artifact}
use v_c_agentd.Service.Examples.{setup, target, target-IsReady, idle, state', open_3}

exchange-height_example :
    (reading_of setup idle
        (λ resp. decode_response_block_id_by_height_get (some resp) true)
        target
        (block_id_by_height_read 3 1)
        state'
      ≡ ok (3, 0, some (id16 50)))
    × (left_by setup idle (block_id_by_height_read 3 1) state' ≡ state')
unfolding le
exchange-height_example =
    exchange-height setup idle (λ n. refl) stores-IsReliableEnv target target-IsReady state' 3
      ledger' store'-Represents 3 1 fifty (omega arith, omega arith) open_3 may_read_height refl

exchange-canonized_example :
    (reading_of setup idle
        (λ resp. decode_response_canonized_transaction_get (some resp) true)
        target
        (canonized_transaction_get 3 (id16 7) true)
        state'
      ≡ ok (
        3,
        0,
        some (record {
          txn_id = id16 7;
          prev_id = id16 0;
          next_id = le 16 (canonized_txn child 50 (1 ∷ [])).next;
          artifact_id = id16 70;
          block_id = id16 50;
          net_txn_state = put32 (canonized_txn child 50 (1 ∷ [])).state;
          cert = 1 ∷ [];
        }),
      ))
    × (left_by setup idle (canonized_transaction_get 3 (id16 7) true) state' ≡ state')
unfolding from_le le put32
exchange-canonized_example =
    exchange-canonized setup idle (λ n. refl) stores-IsReliableEnv target target-IsReady state' 3
      ledger' store'-Represents 3 (id16 7) true (canonized_txn child 50 (1 ∷ [])) 1 []
      (omega arith, refl) open_3 may_read_txn refl refl (omega arith)

exchange-artifact_example :
    (reading_of setup idle
        (λ resp. decode_response_artifact_get (some resp) true)
        target
        (payload_artifact_read 3 (id16 70))
        state'
      ≡ ok (
        3,
        0,
        some (record {
          artifact_id = id16 70;
          txn_first = id16 7;
          txn_latest = id16 7;
          net_height_first = put64 1;
          net_height_latest = put64 1;
          net_state_latest = put32 3;
        }),
      ))
    × (left_by setup idle (payload_artifact_read 3 (id16 70)) state' ≡ state')
unfolding from_le le put32 put64
exchange-artifact_example =
    exchange-artifact setup idle (λ n. refl) stores-IsReliableEnv target target-IsReady state' 3
      ledger' store'-Represents 3 (id16 70) (artifact_after child 1 none) (omega arith, refl) open_3
      may_read_artifact refl
