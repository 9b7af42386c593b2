-- ===== src/Lmdb/Cmd.antt =====
-- Code that reads and changes a transaction, and the calls of LMDB and `malloc` that return at a failure,
-- as src/dataservice/ writes them out in each operation.
use v_c_agentd.Prelude.{ℕ, Bool, true, false, none, some}
use v_c_agentd.Status.{
  Status, Result, ok, err, out_of_memory, mdb_txn_begin_failure, mdb_put_failure,
}
use v_c_agentd.Lmdb.{Platform}

-- Code that reads and changes a transaction. It keeps the changes that an error comes after.
abbrev pub Cmd : Type 0 → Type 0 → Type 0
Cmd T A = T → Result A × T

module _ {T : Type 0} where
  abbrev pub pure : {A : Type 0} → A → Cmd T A
  pure a t = (ok a, t)

  abbrev pub fail : {A : Type 0} → Status → Cmd T A
  fail e t = (err e, t)

  abbrev pub and_then : {A B : Type 0} → Result A × T → (A → Cmd T B) → Result B × T
  and_then r k = elim (r.0) [ ok a ↦ k a (r.1) | err e ↦ (err e, r.1) ]

  infixl 5 ◌>>=◌ ◌>>◌
  abbrev pub ◌>>=◌ : {A B : Type 0} → Cmd T A → (A → Cmd T B) → Cmd T B
  ◌>>=◌ m k t = and_then (m t) k

  abbrev pub ◌>>◌ : {B : Type 0} → Cmd T (Unit {0}) → Cmd T B → Cmd T B
  m >> k = m >>= λ _. k

module _ {V : Type 0} (p : Platform V) where
  -- `malloc(n)`, and the return if there is no memory
  unfoldable pub allocate : ℕ → Cmd p.T (Unit {0})
  allocate n t = elim (p.malloc n) [ true ↦ (ok tt, t) | false ↦ (err out_of_memory, t) ]

  -- `mdb_put`, and the return if it fails
  unfoldable pub put : Bool → ℕ → V → Cmd p.T (Unit {0})
  put no_overwrite k v t = elim (p.put t k v no_overwrite) [
    | some t' ↦ (ok tt, t')
    | none ↦ (err mdb_put_failure, t)
  ]

  -- The end of an operation in a transaction of its own: `mdb_txn_commit`, whose status is not looked at, or
  -- the label `maybe_transaction_abort`, to which every error goes, with its `mdb_txn_abort`.
  unfoldable pub finish : {A : Type 0} → p.T → Result A × p.T → Result A × p.T
  finish store r = elim (r.0) [
    | ok a ↦ (ok a, (p.commit store r.1).1)
    | err e ↦ (err e, p.abort store r.1)
  ]

  -- Begin a transaction on the store, run the command, and commit or abort.
  unfoldable pub in_transaction : {A : Type 0} → Cmd p.T A → Cmd p.T A
  unfolding finish
  in_transaction m store = elim (p.begin store) [
    | none ↦ (err mdb_txn_begin_failure, store)
    | some txn ↦ finish store (m txn)
  ]
