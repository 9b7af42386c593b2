-- ===== src/Lmdb/Memory.antt =====
-- An LMDB in memory.
use v_c_agentd.Prelude.{ℕ, ◌≡◌, refl, Bool, true, false, Option, some, none, ◌==◌, if◌then◌else◌}
use v_c_agentd.Lmdb.{
  Platform, IsReliable, Get, Del, found, notfound, failed, deleted, no_entry, del_failed,
}

module _ {V : Type 0} where
  -- the view of a transaction is all its state
  abbrev pub stored_in : ℕ → V → (ℕ → Get V) → ℕ → Get V
  stored_in k v t j = if k == j then found v else t j

  abbrev pub put_in : (ℕ → Get V) → ℕ → V → Bool → Option (ℕ → Get V)
  put_in t k v false = some (stored_in k v t)
  put_in t k v true = elim (t k) [
    | notfound ↦ some (stored_in k v t)
    | found w ↦ none
    | failed n ↦ none
  ]

  abbrev pub erased : ℕ → (ℕ → Get V) → ℕ → Get V
  erased k t j = if k == j then notfound else t j

  abbrev pub del_in : (ℕ → Get V) → ℕ → Del (ℕ → Get V)
  del_in t k = elim (t k) [
    | notfound ↦ no_entry
    | found w ↦ deleted (erased k t)
    | failed n ↦ del_failed
  ]

  pub put_in-new :
      (t : ℕ → Get V) (k : ℕ) (v : V) → t k ≡ notfound → put_in t k v true ≡ some (stored_in k v t)
  put_in-new t k v h = rw (put_in, h)

  pub put_in-old : (t : ℕ → Get V) (k : ℕ) (v w : V) → t k ≡ found w → put_in t k v true ≡ none
  put_in-old t k v w h = rw (put_in, h)

  pub del_in-found :
      (t : ℕ → Get V) (k : ℕ) (v : V) → t k ≡ found v → del_in t k ≡ deleted (erased k t)
  del_in-found t k v h = rw (del_in, h)

  -- whose commits succeed, or keep nothing
  abbrev pub memory : Bool → Platform V
  memory commits = record {
    T = ℕ → Get V;
    begin = λ t. some t;
    commit = λ s t. if commits then (true, t) else (false, s);
    abort = λ s t. s;
    get = λ t k. t k;
    put = put_in;
    del = del_in;
    malloc = λ n. true;
  }

  abbrev pub good : IsReliable (memory true)
  good = record {
    begun = λ t. t;
    stored = λ t k v. stored_in k v t;
    removed = λ t k. erased k t;
    begin_eq = λ t. refl;
    get-begun = λ t j. refl;
    commit_status = λ s t. refl;
    get-commit = λ s t j. refl;
    abort_eq = λ s t. refl;
    put_eq = λ t k v. refl;
    put_new = put_in-new;
    put_old = put_in-old;
    get-stored = λ t k v j. refl;
    del_eq = del_in-found;
    get-removed = λ t k j. refl;
    malloc_eq = λ n. refl;
  }
