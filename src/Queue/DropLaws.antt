-- ===== src/Queue/DropLaws.antt =====
-- dataservice_transaction_drop.c on a store that holds a queue.
use v_c_agentd.Prelude.{
  ◌≡◌, Bool, true, false, ◌||◌, List, [], ◌∷◌, ◌++◌, arith, ◌==◌, if◌then◌else◌, inl, inr,
  Bool-cases,
}
use v_c_agentd.Wire.{Bytes}
use v_c_agentd.Status.{ok, err, not_found}
use v_c_agentd.Bitcap.{Caps, isset}
use v_c_agentd.Lmdb.{Platform, IsReliable, found, notfound}
use v_c_agentd.Queue.{Uuid, begin_id, end_id, Node, Value, whole}
use v_c_agentd.Lmdb.Cmd.{in_transaction}
use v_c_agentd.Lmdb.CmdLaws.{allocate-eq, put-stored, either-ok, either-err}
use v_c_agentd.Queue.Drop.{
  cap_pq_transaction_drop, read_entry, delete, read_neighbour, fixup_prev, fixup_next,
  drop_fixup_prev_next, drop_in, transaction_drop_internal, transaction_drop,
}
use v_c_agentd.Queue.Chain.{
  Cell, node_of, value_of, View, head_id, last_id, has, sentinel, IsQueue, Holds, written,
}
use v_c_agentd.Queue.Chain.Laws.{last_cell, has-append}
use v_c_agentd.Queue.Chain.Remove.{
  removed_view, first_cell, three_nodes, three_ids, remove-IsQueue, id_inner,
}

module _ {p : Platform Value} (r : IsReliable p) where
  open r use {begun, stored, removed, get-begun, get-stored, get-removed, get-commit, del_eq}

  pub read_entry-found :
      (k : Uuid) (n : Node) (c : Bytes) (t : p.T)
      → p.get t k ≡ found (whole n c)
      → read_entry p k t ≡ (ok (n, c), t)
  unfolding read_entry
  read_entry-found k n c t h = rw (read_entry, h)

  read_neighbour-found :
      (k : Uuid) (n : Node) (c : Bytes) (t : p.T)
      → p.get t k ≡ found (whole n c)
      → read_neighbour p k t ≡ (ok (n, c), t)
  unfolding read_neighbour
  read_neighbour-found k n c t h = rw (read_neighbour, h)

  delete-removed :
      (k : Uuid) (v : Value) (t : p.T) → p.get t k ≡ found v → delete p k t ≡ (ok tt, removed t k)
  unfolding delete
  delete-removed k v t h = rw (delete, del_eq t k v h)

  module _ (a b c : Cell) (pa nb : Uuid) (t : p.T) (ha : p.get t a.id ≡ found (value_of a pa c.id))
      (hc : p.get t c.id ≡ found (value_of c a.id b.id))
      (hb : p.get t b.id ≡ found (value_of b c.id nb))
      (ids : ((c.id == a.id) ≡ false) × ((c.id == b.id) ≡ false) × ((a.id == b.id) ≡ false)) where
    -- the store after the removal and the writes of the neighbours
    abbrev pub after_drop : p.T
    after_drop =
        stored (stored (removed t c.id) a.id (value_of a pa b.id)) b.id (value_of b a.id nb)

    read_a : p.get (removed t c.id) a.id ≡ found (value_of a pa c.id)
    read_a = rw (get-removed t c.id a.id, ids.0) ha

    read_b :
        p.get (stored (removed t c.id) a.id (value_of a pa b.id)) b.id ≡ found (value_of b c.id nb)
    read_b =
        rw
          (
            get-stored (removed t c.id) a.id (value_of a pa b.id) b.id,
            ids.2,
            get-removed t c.id b.id,
            ids.1,
          )
          hb

    fixup_prev-stored :
        fixup_prev p (node_of c a.id b.id) (removed t c.id)
        ≡ (ok tt, stored (removed t c.id) a.id (value_of a pa b.id))
    unfolding fixup_prev
    fixup_prev-stored =
        rw
          (
            read_neighbour-found a.id (node_of a pa c.id) a.cert (removed t c.id) read_a,
            allocate-eq r _ (removed t c.id),
          )
          (put-stored r a.id (value_of a pa b.id) (removed t c.id))

    fixup_next-stored :
        fixup_next p (node_of c a.id b.id) (stored (removed t c.id) a.id (value_of a pa b.id))
        ≡ (ok tt, after_drop)
    unfolding fixup_next
    fixup_next-stored =
        rw (read_neighbour-found b.id (node_of b c.id nb) b.cert _ read_b, allocate-eq r _ _)
          (put-stored r b.id (value_of b a.id nb) _)

    drop_in-eq : drop_in p c.id t ≡ (ok tt, after_drop)
    unfolding drop_in drop_fixup_prev_next
    drop_in-eq =
        rw
          (
            read_entry-found c.id (node_of c a.id b.id) c.cert t hc,
            delete-removed c.id (value_of c a.id b.id) t hc,
            fixup_prev-stored,
          )
          fixup_next-stored

    get-after_drop :
        (j : Uuid)
        → p.get after_drop j
          ≡ written b.id
              (value_of b a.id nb)
              (written a.id (value_of a pa b.id) (removed_view c.id (p.get t)))
              j
    get-after_drop j = rw (
      get-stored _ b.id (value_of b a.id nb) j,
      get-stored _ a.id (value_of a pa b.id) j,
      get-removed t c.id j,
    )

  module _ (childcaps : Caps) (allowed : isset childcaps cap_pq_transaction_drop ≡ true) where
    drop_inner :
        (parent : Bool) (txn_id : Uuid) (store : p.T)
        → ((txn_id == begin_id) ≡ false) × ((txn_id == end_id) ≡ false)
        → transaction_drop p parent childcaps txn_id store
          ≡ (if parent then drop_in p txn_id else in_transaction p (drop_in p txn_id)) store
    unfolding transaction_drop transaction_drop_internal
    drop_inner parent txn_id store ne = rw (allowed, ne.0, ne.1)

    drop_in-removes :
        (before behind : List Cell) (c : Cell) (t : p.T)
        → IsQueue (p.get t) (before ++ c ∷ behind)
        → (t' : p.T) × (drop_in p c.id t ≡ (ok tt, t')) × IsQueue (p.get t') (before ++ behind)
    drop_in-removes l k c t q =
        let (pre, a, e) = last_cell (sentinel begin_id) l in
        let (b, post, f) = first_cell k in
        let nodes = three_nodes (p.get t) l k c q pre post a b e f in
        let ids = three_ids (p.get t) l k c q pre post a b e f in
        let pa = last_id begin_id pre in
        let nb = head_id post end_id in
        (
          after_drop a b c pa nb t nodes.0 nodes.1 nodes.2 ids,
          drop_in-eq a b c pa nb t nodes.0 nodes.1 nodes.2 ids,
          remove-IsQueue (p.get t) l k c q pre post a b e f _
              (get-after_drop a b c pa nb t nodes.0 nodes.1 nodes.2 ids),
        )

    -- Dropping a transaction that stands in the queue, with the capability, in a parent
    -- transaction or in one of its own, where LMDB and `malloc` do not fail: it succeeds,
    -- and the store then holds the queue without it.
    pub drop-removes :
        (parent : Bool) (store : p.T) (before behind : List Cell) (c : Cell)
        → IsQueue (p.get store) (before ++ c ∷ behind)
        → (store' : p.T) × (transaction_drop p parent childcaps c.id store ≡ (ok tt, store'))
          × IsQueue (p.get store') (before ++ behind)
    drop-removes parent store l k c q =
        rw (drop_inner parent c.id store (id_inner (p.get store) l k c q)) (
          either-ok r parent (drop_in p c.id) (λ g. IsQueue g (l ++ c ∷ k))
            (λ g. IsQueue g (l ++ k)) (drop_in-removes l k c) store q)

  -- Nothing is stored under an id that is neither a transaction's nor a sentinel's.
  pub absent-notfound :
      (g : View) (cs : List Cell) (k : Uuid)
      → Holds g cs
      → has k cs ≡ false
      → ((k == begin_id) || (k == end_id)) ≡ false
      → g k ≡ notfound
  absent-notfound g cs k (inl q) absent inner =
      ground (arith, q.only k, has-append k cs (sentinel end_id ∷ []))
  absent-notfound g cs k (inr (empty, unused)) absent inner = unused k

  drop_in-absent :
      (txn_id : Uuid) (t : p.T)
      → p.get t txn_id ≡ notfound
      → drop_in p txn_id t ≡ (err not_found, t)
  unfolding drop_in read_entry
  drop_in-absent txn_id t h = rw (read_entry, h)

  -- Dropping an id that no transaction of the store has, be it a sentinel's, with the
  -- capability and where LMDB and `malloc` do not fail: it is not found, and the store is as
  -- it was.
  pub drop-not_found :
      (parent : Bool) (childcaps : Caps) (store : p.T) (cs : List Cell) (txn_id : Uuid)
      → isset childcaps cap_pq_transaction_drop ≡ true
      → Holds (p.get store) cs
      → has txn_id cs ≡ false
      → transaction_drop p parent childcaps txn_id store ≡ (err not_found, store)
  unfolding transaction_drop transaction_drop_internal
  drop-not_found parent childcaps store cs txn_id allowed h absent =
      elim (Bool-cases ((txn_id == begin_id) || (txn_id == end_id))) [
        | inl edge ↦ rw (allowed, edge)
        | inr inner ↦
            rw (allowed, inner)
              (either-err r parent (drop_in p txn_id) (λ g. g txn_id ≡ notfound) not_found
                (drop_in-absent txn_id) store
                (absent-notfound (p.get store) cs txn_id h absent inner))
      ]
