-- ===== src/Queue/Drop.antt =====
-- src/dataservice/dataservice_transaction_drop.c
use v_c_agentd.Prelude.{ℕ, ◌||◌, Bool, false, ◌==◌, ltb, if◌then◌else◌}
use v_c_agentd.Wire.{Bytes}
use v_c_agentd.Status.{ok, err, not_authorized, not_found, mdb_get_failure, mdb_del_failure}
use v_c_agentd.Bitcap.{Caps, isset}
use v_c_agentd.Lmdb.{Platform, found, notfound, failed, deleted, no_entry, del_failed}
use v_c_agentd.Queue.{Uuid, begin_id, end_id, Node, sizeof_node, Value, whole, short, size}
use v_c_agentd.Lmdb.Cmd.{Cmd, fail, ◌>>=◌, ◌>>◌, allocate, put, in_transaction}

-- DATASERVICE_API_CAP_APP_PQ_TRANSACTION_DROP
abbrev pub cap_pq_transaction_drop : ℕ
cap_pq_transaction_drop = 19

module _ (p : Platform Value) where
  -- The read of the entry to be changed. The size is looked at before the status: a failure that
  -- leaves a size below that of a node counts as "not found".
  unfoldable pub read_entry : Uuid → Cmd p.T (Node × Bytes)
  read_entry txn_id t = elim (p.get t txn_id) [
    | notfound ↦ (err not_found, t)
    | failed n ↦ if ltb n sizeof_node then (err not_found, t) else (err mdb_get_failure, t)
    | found (short n) ↦ (err not_found, t)
    | found (whole n cert) ↦ (ok (n, cert), t)
  ]

  -- `mdb_del`, and the returns if it fails
  unfoldable pub delete : Uuid → Cmd p.T (Unit {0})
  delete k t = elim (p.del t k) [
    | deleted t' ↦ (ok tt, t')
    | no_entry ↦ (err not_found, t)
    | del_failed ↦ (err mdb_del_failure, t)
  ]

  -- the read of a neighbour
  unfoldable pub read_neighbour : Uuid → Cmd p.T (Node × Bytes)
  read_neighbour k t = elim (p.get t k) [
    | found (whole n cert) ↦ (ok (n, cert), t)
    | found (short n) ↦ (err mdb_get_failure, t)
    | notfound ↦ (err mdb_get_failure, t)
    | failed n ↦ (err mdb_get_failure, t)
  ]

  -- the first half of dataservice_transaction_drop_fixup_prev_next
  unfoldable pub fixup_prev : Node → Cmd p.T (Unit {0})
  fixup_prev node = do
    (prev, cert) ← read_neighbour node.prev
    allocate p (size (whole prev cert))
    put p false node.prev (whole (record prev { next = node.next }) cert)

  -- the second half
  unfoldable pub fixup_next : Node → Cmd p.T (Unit {0})
  fixup_next node = do
    (next, cert) ← read_neighbour node.next
    allocate p (size (whole next cert))
    put p false node.next (whole (record next { prev = node.prev }) cert)

  -- dataservice_transaction_drop_fixup_prev_next
  unfoldable pub drop_fixup_prev_next : Node → Cmd p.T (Unit {0})
  drop_fixup_prev_next node = fixup_prev node >> fixup_next node

  unfoldable pub drop_in : Uuid → Cmd p.T (Unit {0})
  drop_in txn_id = do (node, cert) ← read_entry txn_id; delete txn_id; drop_fixup_prev_next node

  -- dataservice_transaction_drop_internal: with a parent transaction it works on that one, and what it
  -- did before an error stays
  unfoldable pub transaction_drop_internal : Bool → Uuid → Cmd p.T (Unit {0})
  transaction_drop_internal parent txn_id =
      if (txn_id == begin_id) || (txn_id == end_id)
      then fail not_found
      else if parent
      then drop_in txn_id
      else in_transaction p (drop_in txn_id)

  -- dataservice_transaction_drop
  unfoldable pub transaction_drop : Bool → Caps → Uuid → Cmd p.T (Unit {0})
  transaction_drop parent childcaps txn_id =
      if isset childcaps cap_pq_transaction_drop
      then transaction_drop_internal parent txn_id
      else fail not_authorized
