-- ===== src/Queue/PromoteLaws.antt =====
-- dataservice_transaction_promote.c on a store that holds a queue.
use v_c_agentd.Prelude.{
  ◌≡◌, Bool, true, false, ◌||◌, List, ◌∷◌, ◌++◌, ◌==◌, if◌then◌else◌, inl, inr, Bool-cases,
}
use v_c_agentd.Status.{ok, err, not_found}
use v_c_agentd.Bitcap.{Caps, isset}
use v_c_agentd.Lmdb.{Platform, IsReliable, notfound}
use v_c_agentd.Queue.{Uuid, begin_id, end_id, Value, state_attested}
use v_c_agentd.Lmdb.Cmd.{in_transaction}
use v_c_agentd.Lmdb.CmdLaws.{allocate-eq, put-stored, either-ok, either-err}
use v_c_agentd.Queue.Drop.{read_entry}
use v_c_agentd.Queue.DropLaws.{read_entry-found, absent-notfound}
use v_c_agentd.Queue.Promote.{
  cap_pq_transaction_promote, promote_in, transaction_promote_internal, transaction_promote,
}
use v_c_agentd.Queue.Chain.{Cell, node_of, value_of, head_id, last_id, has, IsQueue, Holds}
use v_c_agentd.Queue.Chain.Remove.{node_at, id_inner, change-IsQueue}

-- the transaction as it is after its promotion
abbrev pub attested : Cell → Cell
attested c = record c { state = state_attested }

module _ {p : Platform Value} (r : IsReliable p) where
  open r use {stored, get-stored}

  promote_in-stored :
      (before behind : List Cell) (c : Cell) (t : p.T)
      → IsQueue (p.get t) (before ++ c ∷ behind)
      → (t' : p.T) × (promote_in p c.id t ≡ (ok tt, t'))
        × IsQueue (p.get t') (before ++ attested c ∷ behind)
  unfolding promote_in
  promote_in-stored l k c t q =
      let prev = last_id begin_id l in
      let next = head_id k end_id in
      let v : Value = value_of (attested c) prev next in
      (
        stored t c.id v,
        rw
            (
              read_entry-found r c.id (node_of c prev next) c.cert t (node_at (p.get t) l k c q),
              allocate-eq r _ t,
            )
            (put-stored r c.id v t),
        change-IsQueue (p.get t) l k c q state_attested (p.get (stored t c.id v))
            (get-stored t c.id v),
      )

  module _ (childcaps : Caps) (allowed : isset childcaps cap_pq_transaction_promote ≡ true)
      (parent : Bool) (store : p.T) where
    promote_inner :
        (txn_id : Uuid)
        → ((txn_id == begin_id) ≡ false) × ((txn_id == end_id) ≡ false)
        → transaction_promote p parent childcaps txn_id store
          ≡ (if parent then promote_in p txn_id else in_transaction p (promote_in p txn_id)) store
    unfolding transaction_promote transaction_promote_internal
    promote_inner txn_id ne = rw (allowed, ne.0, ne.1)

    -- Promoting a transaction that stands in the queue, with the capability, in a parent
    -- transaction or in one of its own, where LMDB and `malloc` do not fail: it succeeds,
    -- and the store then holds the same queue with that transaction marked as attested.
    pub promote-attests :
        (before behind : List Cell) (c : Cell)
        → IsQueue (p.get store) (before ++ c ∷ behind)
        → (store' : p.T) × (transaction_promote p parent childcaps c.id store ≡ (ok tt, store'))
          × IsQueue (p.get store') (before ++ attested c ∷ behind)
    promote-attests l k c q = rw (promote_inner c.id (id_inner (p.get store) l k c q)) (
        either-ok r parent (promote_in p c.id) (λ g. IsQueue g (l ++ c ∷ k))
          (λ g. IsQueue g (l ++ attested c ∷ k)) (promote_in-stored l k c) store q)

    promote_in-absent :
        (txn_id : Uuid) (t : p.T)
        → p.get t txn_id ≡ notfound
        → promote_in p txn_id t ≡ (err not_found, t)
    unfolding promote_in read_entry
    promote_in-absent txn_id t h = rw (read_entry, h)

    -- Promoting an id that no transaction of the store has, be it a sentinel's, with the
    -- capability and where LMDB and `malloc` do not fail: it is not found, and the store is
    -- as it was.
    pub promote-not_found :
        (cs : List Cell) (txn_id : Uuid)
        → Holds (p.get store) cs
        → has txn_id cs ≡ false
        → transaction_promote p parent childcaps txn_id store ≡ (err not_found, store)
    unfolding transaction_promote transaction_promote_internal
    promote-not_found cs txn_id h absent =
        elim (Bool-cases ((txn_id == begin_id) || (txn_id == end_id))) [
          | inl edge ↦ rw (allowed, edge)
          | inr inner ↦
              rw (allowed, inner)
                (either-err r parent (promote_in p txn_id) (λ g. g txn_id ≡ notfound) not_found
                  (promote_in-absent txn_id) store
                  (absent-notfound r (p.get store) cs txn_id h absent inner))
        ]
