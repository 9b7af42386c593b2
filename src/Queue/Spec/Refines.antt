-- ===== src/Queue/Spec/Refines.antt =====
-- The operations on the store and on lists of transactions.
use mathlib.Core.Path.{subst, ap₂}
use v_c_agentd.Prelude.{
  ◌≡◌, refl, ap, sym, ◌∙◌, Bool, true, false, List, [], ◌∷◌, ◌++◌, arith, ◌==◌, inl, inr,
  Bool-cases,
}
use v_c_agentd.Wire.{Bytes}
use v_c_agentd.Status.{Result, ok, err, mdb_put_failure, not_found}
use v_c_agentd.Bitcap.{Caps, isset}
use v_c_agentd.Lmdb.{Platform, IsReliable, found}
use v_c_agentd.Queue.{Uuid, begin_id, end_id, Value, Node, whole}
use v_c_agentd.Lmdb.Cmd.{put, finish}
use v_c_agentd.Lmdb.CmdLaws.{allocate-eq, in_transaction-eq}
use v_c_agentd.Queue.Submit.{cap_pq_transaction_submit, transaction_submit, submit_in}
use v_c_agentd.Queue.Drop.{transaction_drop}
use v_c_agentd.Queue.Promote.{transaction_promote}
use v_c_agentd.Queue.Chain.{Cell, View, node_of, sentinel, has, IsQueue, Holds}
use v_c_agentd.Queue.Chain.Laws.{last_cell, has-append}
use v_c_agentd.Queue.Chain.Insert.{last_nodes}
use v_c_agentd.Queue.SubmitLaws.{new_cell, submit-appends, read_end-some}
use v_c_agentd.Queue.DropLaws.{drop-removes, drop-not_found}
use v_c_agentd.Queue.PromoteLaws.{promote-attests, promote-not_found}
use v_c_agentd.Queue.Spec.Cut.{Cut-at, stored_at}
use v_c_agentd.Queue.Spec.{
  Call, submit, drop, promote, capability, perform, erase, attest, specified, run_all,
}

-- a property of every call
abbrev pub All : (Call → Type 0) → List Call → Type 0
All P [] = Unit
All P (call ∷ calls) = P call × All P calls

-- The ids that a submission may have: the code takes any, and goes wrong at a sentinel's.
abbrev pub IsProper : Call → Type 0
IsProper (submit i a c) = ((begin_id == i) ≡ false) × ((end_id == i) ≡ false)
IsProper (drop parent i) = Unit
IsProper (promote parent i) = Unit

-- A store that holds a transaction holds a queue.
Holds-IsQueue : (g : View) (k : Uuid) (cs : List Cell) → has k cs ≡ true → Holds g cs → IsQueue g cs
Holds-IsQueue g k cs present (inl q) = q
Holds-IsQueue g k cs present (inr (empty, unused)) = ground (arith, sym present ∙ ap (has k) empty)

module _ {p : Platform Value} (r : IsReliable p) (attestation : Bool) (caps : Caps) where
  -- The call returned what is specified for the list, and the store holds the list as specified.
  abbrev Agrees : Call → p.T → List Cell → Type 0
  Agrees call store cs =
      ((perform p attestation caps call store).0 ≡ (specified attestation call cs).0)
      × Holds (p.get (perform p attestation caps call store).1) (specified attestation call cs).1

  agrees :
      (call : Call) (store : p.T) (cs : List Cell) (x : Result (Unit {0})) (store' : p.T)
      (cs' : List Cell)
      → perform p attestation caps call store ≡ (x, store')
      → specified attestation call cs ≡ (x, cs')
      → Holds (p.get store') cs'
      → Agrees call store cs
  agrees call store cs x store' cs' e f h = rw (e, f) (refl, h)

  pub drop-Agrees :
      (parent : Bool) (k : Uuid) (store : p.T) (cs : List Cell)
      → isset caps (capability (drop parent k)) ≡ true
      → Holds (p.get store) cs
      → Agrees (drop parent k) store cs
  drop-Agrees parent k store cs allowed h = elim (Bool-cases (has k cs)) [
    | inr absent ↦
        agrees (drop parent k) store cs (err not_found) store cs
          (drop-not_found r parent caps store cs k allowed h absent) (rw absent) h
    | inl present ↦
        let cut = Cut-at k cs present in
        let q = Holds-IsQueue (p.get store) k cs present h in
        let (store', done, q') =
          drop-removes r caps allowed parent store cut.before cut.behind cut.cell
            (subst (IsQueue (p.get store)) cut.list_eq q) in
        agrees (drop parent k) store cs (ok tt) store' (erase k cs)
          (subst (λ j. transaction_drop p parent caps j store ≡ (ok tt, store')) cut.id_eq done)
          (rw present) (inl (subst (IsQueue (p.get store')) (sym cut.erase_eq) q'))
  ]

  promote-Agrees :
      (parent : Bool) (k : Uuid) (store : p.T) (cs : List Cell)
      → isset caps (capability (promote parent k)) ≡ true
      → Holds (p.get store) cs
      → Agrees (promote parent k) store cs
  promote-Agrees parent k store cs allowed h = elim (Bool-cases (has k cs)) [
    | inr absent ↦
        agrees (promote parent k) store cs (err not_found) store cs
          (promote-not_found r caps allowed parent store cs k h absent) (rw absent) h
    | inl present ↦
        let cut = Cut-at k cs present in
        let q = Holds-IsQueue (p.get store) k cs present h in
        let (store', done, q') =
          promote-attests r caps allowed parent store cut.before cut.behind cut.cell
            (subst (IsQueue (p.get store)) cut.list_eq q) in
        agrees (promote parent k) store cs (ok tt) store' (attest k cs)
          (subst (λ j. transaction_promote p parent caps j store ≡ (ok tt, store')) cut.id_eq done)
          (rw present) (inl (subst (IsQueue (p.get store')) (sym cut.attest_eq) q'))
  ]

  -- An id that is in use is refused by `MDB_NOOVERWRITE`, and the transaction is aborted.
  submit_in-used :
      (i a : Uuid) (c : Bytes) (t : p.T) (n : Node) (b : Bytes) (v : Value)
      → p.get t end_id ≡ found (whole n b)
      → p.get t i ≡ found v
      → submit_in p attestation i a c t ≡ (err mdb_put_failure, t)
  unfolding submit_in put
  submit_in-used i a c t n b v e u =
      rw (read_end-some r e, allocate-eq r _ t, put, r.put_old t i _ v u)

  submit-used :
      (i a : Uuid) (c : Bytes) (store : p.T) (n : Node) (b : Bytes) (v : Value)
      → isset caps cap_pq_transaction_submit ≡ true
      → p.get store end_id ≡ found (whole n b)
      → p.get store i ≡ found v
      → transaction_submit p attestation caps i a c store ≡ (err mdb_put_failure, store)
  unfolding transaction_submit finish
  submit-used i a c store n b v allowed e u = rw (
    allowed,
    in_transaction-eq r (submit_in p attestation i a c) store,
    submit_in-used i a c (r.begun store) n b v (r.get-begun store end_id ∙ e)
        (r.get-begun store i ∙ u),
    r.abort_eq store (r.begun store),
  )

  submit-Agrees :
      (i a : Uuid) (c : Bytes) (store : p.T) (cs : List Cell)
      → isset caps cap_pq_transaction_submit ≡ true
      → ((begin_id == i) ≡ false) × ((end_id == i) ≡ false)
      → Holds (p.get store) cs
      → Agrees (submit i a c) store cs
  submit-Agrees i a c store cs allowed proper h = elim (Bool-cases (has i cs)) [
    | inr absent ↦
        let (store', done, q') =
          submit-appends r attestation i a c caps store cs allowed h
            (ground (arith, has-append i cs (sentinel end_id ∷ []), proper)) in
        agrees (submit i a c) store cs (ok tt) store' (cs ++ new_cell attestation i a c ∷ []) done
          (rw absent) (inl q')
    | inl present ↦
        let cut = Cut-at i cs present in
        let q = Holds-IsQueue (p.get store) i cs present h in
        let (pre, b, e) = last_cell (sentinel begin_id) cs in
        let (v, u) = stored_at (p.get store) i cs present q in
        agrees (submit i a c) store cs (err mdb_put_failure) store cs
          (submit-used i a c store (node_of (sentinel end_id) b.id end_id) [] v allowed
            (last_nodes q pre b e).1 u)
          (rw present) h
  ]

  -- A call that the capabilities allow and that is no submission under a sentinel's id, on a
  -- store that holds a list of transactions, where LMDB and `malloc` do not fail: it returns
  -- what is specified for that list, and the store then holds the list that is specified.
  pub perform-refines :
      (call : Call) (store : p.T) (cs : List Cell)
      → isset caps (capability call) ≡ true
      → IsProper call
      → Holds (p.get store) cs
      → ((perform p attestation caps call store).0 ≡ (specified attestation call cs).0)
        × Holds (p.get (perform p attestation caps call store).1) (specified attestation call cs).1
  perform-refines (submit i a c) store cs allowed proper h =
      submit-Agrees i a c store cs allowed proper h
  perform-refines (drop parent i) store cs allowed proper h =
      drop-Agrees parent i store cs allowed h
  perform-refines (promote parent i) store cs allowed proper h =
      promote-Agrees parent i store cs allowed h

  -- Any number of calls in a row, all allowed by the capabilities and none a submission under
  -- a sentinel's id, on a store that holds a list of transactions, where LMDB and `malloc` do
  -- not fail: the results are those specified for the calls in a row on that list, and the
  -- last store holds the list that is specified.
  pub run-refines :
      (calls : List Call) (store : p.T) (cs : List Cell)
      → All (λ call. (isset caps (capability call) ≡ true) × IsProper call) calls
      → Holds (p.get store) cs
      → ((run_all (perform p attestation caps) calls store).0
          ≡ (run_all (specified attestation) calls cs).0)
        × Holds
            (p.get (run_all (perform p attestation caps) calls store).1)
            (run_all (specified attestation) calls cs).1
  run-refines [] store cs all h = (refl, h)
  run-refines (call ∷ calls) store cs all h =
      let (same, h') = perform-refines call store cs all.0.0 all.0.1 h in
      let (rest, h'') =
        run-refines calls (perform p attestation caps call store).1
          (specified attestation call cs).1 all.1 h' in
      (ap₂ ◌∷◌ same rest, h'')
