-- ===== src/Queue/ZeroId.antt =====
-- dataservice_transaction_submit.c under the id of the start node.
use v_c_agentd.Prelude.{Bool, ◌≡◌, ◌∙◌, true, false}
use v_c_agentd.Wire.{Bytes}
use v_c_agentd.Status.{ok, err, invalid_stored_transaction_node}
use v_c_agentd.Bitcap.{Caps, isset}
use v_c_agentd.Lmdb.{Platform, IsReliable, found, notfound}
use v_c_agentd.Queue.{Uuid, begin_id, end_id, Value}
use v_c_agentd.Queue.Chain.{value_of, sentinel}
use v_c_agentd.Queue.Submit.{cap_pq_transaction_submit, transaction_submit}
use v_c_agentd.Queue.SubmitLaws.{after_create, submit_in-none, submit-commit, get-committed}
use v_c_agentd.Queue.Read.{
  cap_pq_transaction_first_read, check_node, query, query_in, read_first, transaction_get_first,
}

module _ {p : Platform Value} (r : IsReliable p) (childcaps : Caps) (store : p.T) where
  -- where the start node names itself as the first transaction
  first-looped :
      (parent : Bool) (t : p.T)
      → isset childcaps cap_pq_transaction_first_read ≡ true
      → p.get t begin_id ≡ found (value_of (sentinel begin_id) begin_id begin_id)
      → transaction_get_first p parent childcaps t ≡ err invalid_stored_transaction_node
  unfolding transaction_get_first read_first query_in query check_node
  first-looped true t allowed h =
      rw (allowed, r.begin_eq t, read_first, r.get-begun t begin_id, h) (rw (query_in, query, h))
  first-looped false t allowed h =
      rw (allowed, r.begin_eq t, read_first, r.get-begun t begin_id, h)
        (rw (query_in, r.begin_eq t, query, r.get-begun t begin_id, h))

  -- On a queue that was never used, with the capabilities and where LMDB and `malloc` do not
  -- fail, a submission under the id of the start node succeeds, and to read the first
  -- transaction then fails with the status of an invalid node.
  pub submit-zero_id :
      (attestation parent : Bool) (artifact_id : Uuid) (txn_bytes : Bytes)
      → isset childcaps cap_pq_transaction_submit ≡ true
      → isset childcaps cap_pq_transaction_first_read ≡ true
      → ((j : Uuid) → p.get store j ≡ notfound)
      → (store' : p.T) × (transaction_submit p attestation childcaps begin_id artifact_id txn_bytes
            store
          ≡ (ok tt, store'))
        × (transaction_get_first p parent childcaps store' ≡ err invalid_stored_transaction_node)
  submit-zero_id attestation parent artifact_id txn_bytes allowed readable unused =
      let t = after_create r attestation begin_id artifact_id txn_bytes (r.begun store) in
      (
        (p.commit store t).1,
        submit-commit r attestation begin_id artifact_id txn_bytes childcaps allowed store t (
            submit_in-none r attestation begin_id artifact_id txn_bytes (r.begun store)
              (r.get-begun store end_id ∙ unused end_id)
              (r.get-begun store begin_id ∙ unused begin_id)),
        first-looped parent (p.commit store t).1 readable
            (get-committed r attestation begin_id artifact_id txn_bytes store _ _ _ _ _ _ begin_id),
      )
