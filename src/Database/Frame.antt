-- ===== src/Database/Frame.antt =====
-- A drop from the queue leaves the other databases as they were.
use v_c_agentd.Prelude.{arith, ℕ, ◌≡◌, refl, ◌∙◌, true, false, some, ◌||◌, ◌==◌}
use v_c_agentd.Lmdb.{Get, Del, deleted, no_entry, del_failed}
use v_c_agentd.Status.{Result, ok, err, not_found, mdb_del_failure}
use v_c_agentd.Lmdb.Cmd.{Cmd}
use v_c_agentd.Lmdb.Failure.{Keeps, Keeps-fail, Keeps-bind, Keeps-if, Keeps-allocate, Keeps-put}
use v_c_agentd.Queue.{Uuid, begin_id, end_id, Node, Value}
use v_c_agentd.Queue.Drop.{
  read_entry, delete, read_neighbour, fixup_prev, fixup_next, drop_fixup_prev_next, drop_in,
  transaction_drop_internal,
}
use v_c_agentd.Database.{Name, pq_db, handle, ValueOf, Environment, on}
use v_c_agentd.Database.Reliable.{IsReliableEnv}

module _ {e : Environment} (r : IsReliableEnv e) (d : Name)
    (apart : (handle pq_db == handle d) ≡ false) (j : ℕ) (w : Get (ValueOf d)) where
  abbrev Same : e.T → Type 0
  Same t = e.get d t j ≡ w

  reads-kept : {A : Type 0} (m : Cmd e.T A) → ((t : e.T) → (m t).1 ≡ t) → Keeps Same m
  reads-kept m reads = record { at = λ t h. rw (reads t) h }

  read_entry-reads : (k : Uuid) (t : e.T) → (read_entry (on e pq_db) k t).1 ≡ t
  unfolding read_entry
  read_entry-reads k t = ground arith

  read_neighbour-reads : (k : Uuid) (t : e.T) → (read_neighbour (on e pq_db) k t).1 ≡ t
  unfolding read_neighbour
  read_neighbour-reads k t = ground arith

  delete-kept : (k : Uuid) → Keeps Same (delete (on e pq_db) k)
  unfolding delete
  delete-kept k = record { at = λ t h. given t (e.del pq_db t k) refl h }
    where
      given :
          (t : e.T) (x : Del e.T)
          → e.del pq_db t k ≡ x
          → Same t
          → Same
              (elim x as (λ _. Result (Unit {0}) × e.T) [
                | deleted t' ↦ (ok tt, t')
                | no_entry ↦ (err not_found, t)
                | del_failed ↦ (err mdb_del_failure, t)
              ]).1
      given t (deleted t') eq h = r.del-other pq_db d t t' k j eq apart ∙ h
      given t no_entry eq h = h
      given t del_failed eq h = h

  put-kept : (k : ℕ) (v : Value) (t t' : e.T) → e.put pq_db t k v false ≡ some t' → Same t → Same t'
  put-kept k v t t' eq h = r.put-other pq_db d t t' k v false j eq apart ∙ h

  fixup_prev-kept : (n : Node) → Keeps Same (fixup_prev (on e pq_db) n)
  unfolding fixup_prev
  fixup_prev-kept n = Keeps-bind _ _ (reads-kept _ (read_neighbour-reads n.prev)) λ x.
      Keeps-bind _ _ (Keeps-allocate (on e pq_db) _)
        λ u. Keeps-put (on e pq_db) false n.prev _ (put-kept n.prev _)

  fixup_next-kept : (n : Node) → Keeps Same (fixup_next (on e pq_db) n)
  unfolding fixup_next
  fixup_next-kept n = Keeps-bind _ _ (reads-kept _ (read_neighbour-reads n.next)) λ x.
      Keeps-bind _ _ (Keeps-allocate (on e pq_db) _)
        λ u. Keeps-put (on e pq_db) false n.next _ (put-kept n.next _)

  drop_in-kept : (k : Uuid) → Keeps Same (drop_in (on e pq_db) k)
  unfolding drop_in drop_fixup_prev_next
  drop_in-kept k = Keeps-bind _ _ (reads-kept _ (read_entry-reads k)) λ x.
      Keeps-bind _ _ (delete-kept k)
        λ u. Keeps-bind _ _ (fixup_prev-kept x.0) λ v. fixup_next-kept x.0

  -- a drop in a transaction, whether it succeeds or fails
  pub drop-kept : (k : Uuid) → Keeps Same (transaction_drop_internal (on e pq_db) true k)
  unfolding transaction_drop_internal
  drop-kept k =
      Keeps-if ((k == begin_id) || (k == end_id)) _ _ (Keeps-fail not_found) (drop_in-kept k)
