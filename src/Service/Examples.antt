-- ===== src/Service/Examples.antt =====
-- Exchanges with a service whose databases are in memory.
use v_c_agentd.Prelude.{◌≡◌, refl, true, false, some, none, [], ◌∷◌, arith, inl}
use v_c_agentd.Wire.{Bytes, from_le, get64, get32}
use v_c_agentd.Bitcap.{isset, word}
use v_c_agentd.Status.{ok, guard, ◌>>=◌, ◌>>◌}
use v_c_agentd.Codec.{Target, Request, transaction_submit, block_make}
use v_c_agentd.Codec.EncodeLaws.{IsReady}
use v_c_agentd.Contexts.{Instance, child_context_lookup}
use v_c_agentd.Queue.Chain.{Holds}
use v_c_agentd.Queue.Spec.{submit, erase}
use v_c_agentd.Queue.SubmitLaws.{new_cell}
use v_c_agentd.Blocks.Certs.{field, child_fields, get_first_transaction_id, open_block}
use v_c_agentd.Blocks.Ledger.{fit_height, fit_prev, fit_id}
use v_c_agentd.Blocks.Holds.{Represents}
use v_c_agentd.Blocks.Memory.{stores, stores-IsReliableEnv}
use v_c_agentd.Blocks.Examples.{
  sample, seven, store, ledger, ledger', all_caps, id16, queued-IsQueue, store-Represents, store',
  store'-Represents, may_read_latest, may_read_block, fifty,
}
use v_c_agentd.Service.{Setup, State, Handler, bytes_of}
use v_c_agentd.Service.Exchange.{answer, served}
use v_c_agentd.Codec.{global_setting_set}
use v_c_agentd.Service.Stored.{setting_read, exchange-setting}
use v_c_agentd.Service.Readings.{reading_of, left_by, exchange-latest, exchange-block_read}
use v_c_agentd.Responses.Reads.{decode_response_block_get, decode_response_latest_block_id_get}
use v_c_agentd.Queue.{end_id}
use v_c_agentd.Blocks.Chain.{block_node}
use v_c_agentd.Codec.{block_read, block_id_latest_read}
use v_c_agentd.Wire.{put64, le}
use v_c_agentd.Service.Effects.{exchange-queue, exchange-block}

abbrev pub setup : Setup
setup = record { env = stores; certs = sample; attestation = true }

-- every context is open, with all capabilities
abbrev pub open_instance : Instance
open_instance = record {
  apicaps = all_caps;
  children = λ i. record { dispose = true; next = none; childcaps = all_caps };
  child_head = none;
}

abbrev state : State stores
state = record { inst = open_instance; store = store }

abbrev pub target : Target
target = record { buffer = true; alloc_opts = true; buffer_init = λ n. none }

pub target-IsReady : IsReady target
target-IsReady = record { buffer = refl; alloc_opts = refl; memory = λ n. refl }

-- a handler that does nothing
abbrev pub idle : Bytes → Handler setup
idle req st = (ok [], st)

abbrev submission : Request
submission = transaction_submit 3 (id16 8) (id16 80) (4 ∷ [])

pub open_3 : child_context_lookup open_instance 3 ≡ ok 3
unfolding child_context_lookup
open_3 = refl

may_submit : isset all_caps 15 ≡ true
unfolding isset word
may_submit = refl

exchange-queue_example :
    (answer setup idle target submission state ≡ ok (3, 0, some tt))
    × Holds
        (served setup idle submission state).store.queue
        (seven ∷ new_cell true 8 80 (4 ∷ []) ∷ [])
    × ((served setup idle submission state).inst ≡ open_instance)
unfolding from_le
exchange-queue_example =
    exchange-queue setup idle (λ n. refl) stores-IsReliableEnv target target-IsReady submission
      (omega arith, refl, refl, omega arith) tt (omega arith) state 3 open_3 (submit 8 80 (4 ∷ []))
      (seven ∷ []) refl may_submit (refl, refl) (inl queued-IsQueue)

exchange-block_example :
    (answer setup idle target (block_make 3 (id16 50) (5 ∷ 6 ∷ [])) state ≡ ok (3, 0, some tt))
    × Represents stores 9
        (served setup idle (block_make 3 (id16 50) (5 ∷ 6 ∷ [])) state).store
        ledger'
    × ((served setup idle (block_make 3 (id16 50) (5 ∷ 6 ∷ [])) state).inst ≡ open_instance)
unfolding from_le isset word field fit_height fit_prev fit_id child_fields get_first_transaction_id
    open_block guard ◌>>=◌ ◌>>◌ erase get64 get32
exchange-block_example =
    exchange-block setup idle (λ n. refl) stores-IsReliableEnv target target-IsReady 3 (id16 50)
      (5 ∷ 6 ∷ []) state 3 ledger (omega arith, refl) open_3 (omega arith) store-Represents

-- ... with a block
abbrev pub state' : State stores
state' = record { inst = open_instance; store = store' }

exchange-latest_example :
    (reading_of setup idle
        (λ resp. decode_response_latest_block_id_get (some resp) true)
        target
        (block_id_latest_read 3)
        state'
      ≡ ok (3, 0, some (id16 50)))
    × (left_by setup idle (block_id_latest_read 3) state' ≡ state')
unfolding le
exchange-latest_example =
    exchange-latest setup idle (λ n. refl) stores-IsReliableEnv target target-IsReady state' 3
      ledger' store'-Represents 3 (omega arith) open_3 may_read_latest

exchange-block_read_example :
    (reading_of setup idle
        (λ resp. decode_response_block_get (some resp) true)
        target
        (block_read 3 (id16 50) false)
        state'
      ≡ ok (
        3,
        0,
        some (record {
          block_id = id16 50;
          prev_id = id16 9;
          next_id = bytes_of end_id;
          first_txn_id = id16 7;
          net_block_height = 0 ∷ 0 ∷ 0 ∷ 0 ∷ 0 ∷ 0 ∷ 0 ∷ 1 ∷ [];
          cert = [];
        }),
      ))
    × (left_by setup idle (block_read 3 (id16 50) false) state' ≡ state')
unfolding from_le le put64
exchange-block_read_example =
    exchange-block_read setup idle (λ n. refl) stores-IsReliableEnv target target-IsReady state' 3
      ledger' store'-Represents 3 (id16 50) false (block_node 9 end_id fifty []) 5 (6 ∷ [])
      (omega arith, refl) open_3 may_read_block refl refl (omega arith)

may_write_setting : isset all_caps 8 ≡ true
unfolding isset word
may_write_setting = refl

may_read_setting : isset all_caps 7 ≡ true
unfolding isset word
may_read_setting = refl

exchange-setting_example :
    (answer setup idle target (global_setting_set 3 0 (65 ∷ 66 ∷ [])) state ≡ ok (3, 0, some tt))
    × ((served setup idle (global_setting_set 3 0 (65 ∷ 66 ∷ [])) state).inst ≡ open_instance)
    × (setting_read setup idle target 3 0
          (served setup idle (global_setting_set 3 0 (65 ∷ 66 ∷ [])) state)
        ≡ ok (3, 0, some (65 ∷ 66 ∷ [])))
exchange-setting_example =
    exchange-setting setup idle target (λ n. refl) stores-IsReliableEnv target-IsReady state 3 3
      (omega arith) open_3 0 0 (65 ∷ 66 ∷ []) (omega arith, omega arith, omega arith) (omega arith)
      (omega arith) may_write_setting may_read_setting
