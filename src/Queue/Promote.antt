-- ===== src/Queue/Promote.antt =====
-- src/dataservice/dataservice_transaction_promote.c
use v_c_agentd.Prelude.{ℕ, ◌||◌, Bool, false, ◌==◌, if◌then◌else◌}
use v_c_agentd.Status.{not_authorized, not_found}
use v_c_agentd.Bitcap.{Caps, isset}
use v_c_agentd.Lmdb.{Platform}
use v_c_agentd.Queue.{Uuid, begin_id, end_id, Value, whole, size, state_attested}
use v_c_agentd.Lmdb.Cmd.{Cmd, fail, ◌>>=◌, ◌>>◌, allocate, put, in_transaction}
use v_c_agentd.Queue.Drop.{read_entry}

-- DATASERVICE_API_CAP_APP_PQ_TRANSACTION_PROMOTE
abbrev pub cap_pq_transaction_promote : ℕ
cap_pq_transaction_promote = 16

module _ (p : Platform Value) where
  unfoldable pub promote_in : Uuid → Cmd p.T (Unit {0})
  promote_in txn_id = do
    (node, cert) ← read_entry p txn_id
    allocate p (size (whole node cert))
    put p false txn_id (whole (record node { txn_state = state_attested }) cert)

  -- dataservice_transaction_promote_internal
  unfoldable pub transaction_promote_internal : Bool → Uuid → Cmd p.T (Unit {0})
  transaction_promote_internal parent txn_id =
      if (txn_id == begin_id) || (txn_id == end_id)
      then fail not_found
      else if parent
      then promote_in txn_id
      else in_transaction p (promote_in txn_id)

  -- dataservice_transaction_promote
  unfoldable pub transaction_promote : Bool → Caps → Uuid → Cmd p.T (Unit {0})
  transaction_promote parent childcaps txn_id =
      if isset childcaps cap_pq_transaction_promote
      then transaction_promote_internal parent txn_id
      else fail not_authorized
