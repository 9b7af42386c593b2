-- ===== src/Lmdb/CmdLaws.antt =====
-- The building blocks of the operations, where LMDB and `malloc` do not fail.
use v_c_agentd.Prelude.{ℕ, ◌≡◌, refl, sym, ap, ◌∙◌, if◌then◌else◌, Bool, true, false}
use v_c_agentd.Status.{Status, ok, err, mdb_put_failure}
use mathlib.Core.Path.{subst, fun_ext}
use v_c_agentd.Lmdb.{Get, Platform, IsReliable, found, notfound}
use v_c_agentd.Lmdb.Cmd.{Cmd, allocate, put, in_transaction, finish}

module _ {V : Type 0} {p : Platform V} (r : IsReliable p) where
  open r use {
    begun, stored, begin_eq, commit_status, put_eq, put_new, put_old, malloc_eq, get-begun,
    get-commit, abort_eq,
  }

  pub allocate-eq : (n : ℕ) (t : p.T) → allocate p n t ≡ (ok tt, t)
  unfolding allocate
  allocate-eq n t = rw (allocate, malloc_eq n)

  pub put-stored : (k : ℕ) (v : V) (t : p.T) → put p false k v t ≡ (ok tt, stored t k v)
  unfolding put
  put-stored k v t = rw (put, put_eq t k v)

  pub put-new :
      (k : ℕ) (v : V) (t : p.T) → p.get t k ≡ notfound → put p true k v t ≡ (ok tt, stored t k v)
  unfolding put
  put-new k v t h = rw (put, put_new t k v h)

  pub put-old :
      (k : ℕ) (v w : V) (t : p.T)
      → p.get t k ≡ found w
      → put p true k v t ≡ (err mdb_put_failure, t)
  unfolding put
  put-old k v w t h = rw (put, put_old t k v w h)

  pub in_transaction-eq :
      {A : Type 0} (m : Cmd p.T A) (store : p.T)
      → in_transaction p m store ≡ finish p store (m (begun store))
  unfolding in_transaction
  in_transaction-eq m store = rw (in_transaction, begin_eq store)

  same_begun : (store : p.T) → p.get store ≡ p.get (begun store)
  same_begun store = fun_ext λ j. sym (get-begun store j)

  same_commit : (store t : p.T) → p.get t ≡ p.get (p.commit store t).1
  same_commit store t = fun_ext λ j. sym (get-commit store t j)

  module _ (parent : Bool) (m : Cmd p.T (Unit {0})) (P : (ℕ → Get V) → Type 0) where
    -- What a command does to a store, it does in the parent transaction or in one of its own.
    pub either-ok :
        (Q : (ℕ → Get V) → Type 0)
        → ((t : p.T) → P (p.get t) → (t' : p.T) × (m t ≡ (ok tt, t')) × Q (p.get t'))
        → (store : p.T) → P (p.get store)
        → (store' : p.T) × ((if parent then m else in_transaction p m) store ≡ (ok tt, store'))
          × Q (p.get store')
    either-ok Q works store h =
        elim parent
          as (λ b.
            (store' : p.T) × ((if b then m else in_transaction p m) store ≡ (ok tt, store'))
            × Q (p.get store')) [
              | true ↦ works store h
              | false ↦
                  let (t', done, q) = works (begun store) (subst P (same_begun store) h) in
                  (
                    (p.commit store t').1,
                    in_transaction-eq m store ∙ rw done (committed t'),
                    subst Q (same_commit store t') q,
                  )
            ]
      where
        committed : (t' : p.T) → finish p store (ok tt, t') ≡ (ok tt, (p.commit store t').1)
        committed t' = unfold finish in refl

    -- A command that fails before it writes leaves the store as it was.
    pub either-err :
        (e : Status)
        → ((t : p.T) → P (p.get t) → m t ≡ (err e, t))
        → (store : p.T) → P (p.get store)
        → (if parent then m else in_transaction p m) store ≡ (err e, store)
    either-err e fails store h =
        elim parent as (λ b. (if b then m else in_transaction p m) store ≡ (err e, store)) [
          | true ↦ fails store h
          | false ↦
              in_transaction-eq m store
              ∙ rw (fails (begun store) (subst P (same_begun store) h)) aborted
        ]
      where
        aborted : finish p {A = Unit {0}} store (err e, begun store) ≡ (err e, store)
        aborted = unfold finish in ap (λ t. (err e, t)) (abort_eq store (begun store))
