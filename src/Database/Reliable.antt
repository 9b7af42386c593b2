-- ===== src/Database/Reliable.antt =====
-- LMDB with several databases, as documented, where no call fails.
use v_c_agentd.Prelude.{ℕ, ◌≡◌, Bool, true, false, ◌==◌, if◌then◌else◌, some, none}
use v_c_agentd.Lmdb.{IsReliable, found, notfound, deleted}
use v_c_agentd.Database.{Name, handle, ValueOf, Environment, on}

-- Each database is as `IsReliable` says, and a change of one leaves the others as they were.
pub record IsReliableEnv (e : Environment) : Type 0 where
  pub begun : e.T → e.T
  pub stored : (d : Name) → e.T → ℕ → ValueOf d → e.T
  pub removed : (d : Name) → e.T → ℕ → e.T
  pub begin_eq : (t : e.T) → e.begin t ≡ some (begun t)
  pub get-begun : (d : Name) (t : e.T) (j : ℕ) → e.get d (begun t) j ≡ e.get d t j
  pub commit_status : (s t : e.T) → (e.commit s t).0 ≡ true
  pub get-commit : (d : Name) (s t : e.T) (j : ℕ) → e.get d (e.commit s t).1 j ≡ e.get d t j
  pub abort_eq : (s t : e.T) → e.abort s t ≡ s
  pub put_eq :
      (d : Name) (t : e.T) (k : ℕ) (v : ValueOf d) → e.put d t k v false ≡ some (stored d t k v)
  pub put_new :
      (d : Name) (t : e.T) (k : ℕ) (v : ValueOf d)
      → e.get d t k ≡ notfound
      → e.put d t k v true ≡ some (stored d t k v)
  pub put_old :
      (d : Name) (t : e.T) (k : ℕ) (v w : ValueOf d)
      → e.get d t k ≡ found w
      → e.put d t k v true ≡ none
  pub get-stored :
      (d : Name) (t : e.T) (k : ℕ) (v : ValueOf d) (j : ℕ)
      → e.get d (stored d t k v) j ≡ (if k == j then found v else e.get d t j)
  pub del_eq :
      (d : Name) (t : e.T) (k : ℕ) (v : ValueOf d)
      → e.get d t k ≡ found v
      → e.del d t k ≡ deleted (removed d t k)
  pub get-removed :
      (d : Name) (t : e.T) (k j : ℕ)
      → e.get d (removed d t k) j ≡ (if k == j then notfound else e.get d t j)
  pub malloc_eq : (n : ℕ) → e.malloc n ≡ true
  -- no call changes another database
  pub put-other :
      (d d' : Name) (t t' : e.T) (k : ℕ) (v : ValueOf d) (f : Bool) (j : ℕ)
      → e.put d t k v f ≡ some t'
      → (handle d == handle d') ≡ false
      → e.get d' t' j ≡ e.get d' t j
  pub del-other :
      (d d' : Name) (t t' : e.T) (k j : ℕ)
      → e.del d t k ≡ deleted t'
      → (handle d == handle d') ≡ false
      → e.get d' t' j ≡ e.get d' t j

-- Each database by itself.
abbrev pub on_reliable : (e : Environment) → IsReliableEnv e → (d : Name) → IsReliable (on e d)
on_reliable e r d = record {
  begun = r.begun;
  stored = r.stored d;
  removed = r.removed d;
  begin_eq = r.begin_eq;
  get-begun = r.get-begun d;
  commit_status = r.commit_status;
  get-commit = r.get-commit d;
  abort_eq = r.abort_eq;
  put_eq = r.put_eq d;
  put_new = r.put_new d;
  put_old = r.put_old d;
  get-stored = r.get-stored d;
  del_eq = r.del_eq d;
  get-removed = r.get-removed d;
  malloc_eq = r.malloc_eq;
}

module _ {e : Environment} (r : IsReliableEnv e) where
  -- What is stored in one database is not seen in another.
  pub get-stored_other :
      (d d' : Name) (t : e.T) (k : ℕ) (v : ValueOf d) (j : ℕ)
      → (handle d == handle d') ≡ false
      → e.get d' (r.stored d t k v) j ≡ e.get d' t j
  get-stored_other d d' t k v j apart =
      r.put-other d d' t (r.stored d t k v) k v false j (r.put_eq d t k v) apart
