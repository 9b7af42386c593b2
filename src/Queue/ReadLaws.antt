-- ===== src/Queue/ReadLaws.antt =====
-- dataservice_transaction_get.c and dataservice_transaction_get_first.c on a store that holds a queue.
use v_c_agentd.Prelude.{
  ◌+◌, ◌-◌, ◌<◌, ◌≡◌, Bool, true, false, List, [], ◌∷◌, ◌++◌, arith, ◌==◌, length, inl, inr, leb,
}
use v_c_agentd.Wire.{Bytes}
use v_c_agentd.Status.{Result, ok, err, not_found}
use v_c_agentd.Bitcap.{Caps, isset}
use v_c_agentd.Lmdb.{Platform, IsReliable, found, notfound}
use v_c_agentd.Queue.{Uuid, begin_id, end_id, Node, Value, sizeof_node}
use v_c_agentd.Queue.Read.{
  cap_pq_transaction_first_read, cap_pq_transaction_read, check_node, query, query_in,
  transaction_get, read_first, transaction_get_first,
}
use v_c_agentd.Queue.Chain.{Cell, node_of, value_of, head_id, last_id, IsQueue, Holds}
use v_c_agentd.Queue.Chain.Remove.{node_at, id_inner}

-- every transaction of the queue has a certificate
abbrev pub HasCerts : List Cell → Type 0
HasCerts [] = Unit
HasCerts (c ∷ cs) = (0 < length c.cert) × HasCerts cs

module _ {p : Platform Value} (r : IsReliable p) where
  open r use {begun, begin_eq, get-begun, malloc_eq}

  -- A node with a certificate passes the checks.
  check_node-ok :
      (parent : Bool) (c : Cell) (prev next : Uuid)
      → 0 < length c.cert
      → check_node p parent (value_of c prev next) ≡ ok (node_of c prev next, c.cert)
  unfolding check_node
  check_node-ok true c prev next h = rw (long, same)
    where
      long : leb (sizeof_node + length c.cert) sizeof_node ≡ false
      long = ground arith

      same : (sizeof_node + length c.cert - sizeof_node == length c.cert) ≡ true
      same = ground arith
  check_node-ok false c prev next h = rw (long, same, malloc_eq (length c.cert))
    where
      long : leb (sizeof_node + length c.cert) sizeof_node ≡ false
      long = ground arith

      same : (sizeof_node + length c.cert - sizeof_node == length c.cert) ≡ true
      same = ground arith

  query_in-found :
      (parent : Bool) (c : Cell) (prev next : Uuid) (store : p.T)
      → 0 < length c.cert
      → p.get store c.id ≡ found (value_of c prev next)
      → query_in p parent c.id store ≡ ok (node_of c prev next, c.cert)
  unfolding query_in query
  query_in-found true c prev next store h e = rw (query, e) (check_node-ok true c prev next h)
  query_in-found false c prev next store h e =
      rw (query_in, begin_eq store, query, get-begun store c.id, e)
        (check_node-ok false c prev next h)

  query_in-absent :
      (parent : Bool) (k : Uuid) (store : p.T)
      → p.get store k ≡ notfound
      → query_in p parent k store ≡ err not_found
  unfolding query_in query
  query_in-absent true k store e = rw (query, e)
  query_in-absent false k store e = rw (query_in, begin_eq store, query, get-begun store k, e)

  -- Reading a transaction that stands in the queue and whose certificate is not empty, with
  -- the capability and where LMDB and `malloc` do not fail, returns its node, linked to its
  -- neighbours, and its certificate.
  pub transaction_get-found :
      (parent : Bool) (childcaps : Caps) (store : p.T) (before behind : List Cell) (c : Cell)
      → isset childcaps cap_pq_transaction_read ≡ true
      → IsQueue (p.get store) (before ++ c ∷ behind)
      → 0 < length c.cert
      → transaction_get p parent childcaps c.id store
        ≡ ok (node_of c (last_id begin_id before) (head_id behind end_id), c.cert)
  unfolding transaction_get
  transaction_get-found parent childcaps store l k c allowed q h =
      rw allowed (query_in-found parent c _ _ store h (node_at (p.get store) l k c q))

  -- what the head of the queue is read as
  abbrev pub front : List Cell → Result (Node × Bytes)
  front [] = err not_found
  front (c ∷ cs) = ok (node_of c begin_id (head_id cs end_id), c.cert)

  -- Reading the first transaction of a store whose certificates are not empty, with the
  -- capability and where LMDB and `malloc` do not fail, returns the head of the list that the
  -- store holds, and is not found if there are no transactions.
  pub transaction_get_first-front :
      (parent : Bool) (childcaps : Caps) (store : p.T) (cs : List Cell)
      → isset childcaps cap_pq_transaction_first_read ≡ true
      → Holds (p.get store) cs
      → HasCerts cs
      → transaction_get_first p parent childcaps store ≡ front cs
  unfolding transaction_get_first read_first
  transaction_get_first-front parent childcaps store [] allowed (inl q) h =
      rw (allowed, begin_eq store, read_first, get-begun store begin_id, q.linked.0)
  transaction_get_first-front parent childcaps store [] allowed (inr (empty, unused)) h =
      rw (allowed, begin_eq store, read_first, get-begun store begin_id, unused begin_id)
  transaction_get_first-front parent childcaps store (c ∷ cs) allowed (inl q) h =
      rw
        (
          allowed,
          begin_eq store,
          read_first,
          get-begun store begin_id,
          q.linked.0,
          (id_inner (p.get store) [] cs c q).1,
        )
        (query_in-found parent c begin_id (head_id cs end_id) store h.0
          (node_at (p.get store) [] cs c q))
  transaction_get_first-front parent childcaps store (c ∷ cs) allowed (inr (empty, unused)) h = cc
