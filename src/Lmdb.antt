-- ===== src/Lmdb.antt =====
-- What the data service uses of LMDB and of `malloc`. Neither is part of the repository: they are a
-- parameter of the model, a record of functions.
pub mod Memory
pub mod Cmd
pub mod CmdLaws
pub mod Failure
use v_c_agentd.Prelude.{ℕ, ◌==◌, ◌≡◌, Bool, true, false, Option, none, some, if◌then◌else◌}

-- The answer of `mdb_get`. At a failure the number is the size that it leaves in the caller's value.
pub data Get (V : Type 0) : Type 0 where
  found : V → Get V
  notfound : Get V
  failed : ℕ → Get V

-- The answer of `mdb_del`, with the transaction as it is then.
pub data Del (T : Type 0) : Type 0 where
  deleted : T → Del T
  no_entry : Del T
  del_failed : Del T

-- A `T` is what a transaction sees of one database: keys, and the values under them. The environment
-- between transactions is one too.
pub record Platform (V : Type 0) : Type 1 where
  pub T : Type 0
  -- `mdb_txn_begin` on a parent, or on the environment; `none` is a non-zero status
  pub begin : T → Option T
  -- `mdb_txn_commit` of the second to the first: its status (`true` is zero), and what the first is then
  pub commit : T → T → Bool × T
  -- `mdb_txn_abort` of the second: what the first is then
  pub abort : T → T → T
  pub get : T → ℕ → Get V
  -- `mdb_put`; the flag is `MDB_NOOVERWRITE`
  pub put : T → ℕ → V → Bool → Option T
  pub del : T → ℕ → Del T
  -- whether `malloc` gives memory for a size
  pub malloc : ℕ → Bool

-- LMDB as documented, where no call fails: a transaction sees its parent and its own writes, a commit
-- hands them on, an abort drops them, and `MDB_NOOVERWRITE` refuses a key that has a value.
pub record IsReliable {V : Type 0} (p : Platform V) : Type 0 where
  pub begun : p.T → p.T
  pub stored : p.T → ℕ → V → p.T
  pub removed : p.T → ℕ → p.T
  pub begin_eq : (t : p.T) → p.begin t ≡ some (begun t)
  pub get-begun : (t : p.T) (j : ℕ) → p.get (begun t) j ≡ p.get t j
  pub commit_status : (s t : p.T) → (p.commit s t).0 ≡ true
  pub get-commit : (s t : p.T) (j : ℕ) → p.get (p.commit s t).1 j ≡ p.get t j
  pub abort_eq : (s t : p.T) → p.abort s t ≡ s
  pub put_eq : (t : p.T) (k : ℕ) (v : V) → p.put t k v false ≡ some (stored t k v)
  pub put_new :
      (t : p.T) (k : ℕ) (v : V) → p.get t k ≡ notfound → p.put t k v true ≡ some (stored t k v)
  pub put_old : (t : p.T) (k : ℕ) (v w : V) → p.get t k ≡ found w → p.put t k v true ≡ none
  pub get-stored :
      (t : p.T) (k : ℕ) (v : V) (j : ℕ)
      → p.get (stored t k v) j ≡ (if k == j then found v else p.get t j)
  pub del_eq : (t : p.T) (k : ℕ) (v : V) → p.get t k ≡ found v → p.del t k ≡ deleted (removed t k)
  pub get-removed :
      (t : p.T) (k j : ℕ) → p.get (removed t k) j ≡ (if k == j then notfound else p.get t j)
  pub malloc_eq : (n : ℕ) → p.malloc n ≡ true
