-- ===== src/Lmdb/Failure.antt =====
-- Commands that fail in a transaction of their own, and commands that keep a property of the store.
use v_c_agentd.Prelude.{
  ℕ, ◌≡◌, refl, ap, sym, ◌∙◌, Bool, true, false, Option, none, some, Option-cases, inl, inr,
  if◌then◌else◌,
}
use v_c_agentd.Status.{Status, Result, ok, err, out_of_memory, mdb_put_failure}
use v_c_agentd.Lmdb.{Platform}
use v_c_agentd.Lmdb.Cmd.{Cmd, fail, ◌>>=◌, and_then, allocate, put, finish, in_transaction}

pub second :
    {T A : Type 0} {a b : Result A} {s t : T} → ◌≡◌ {A = Result A × T} (a, s) (b, t) → t ≡ s
second h = ap (λ x. x.1) (sym h)

module _ {V : Type 0} (p : Platform V) (abort_eq : (s t : p.T) → p.abort s t ≡ s) where
  finish-err :
      (store : p.T) (x : Result (Unit {0}) × p.T) (e : Status) (store' : p.T)
      → finish p store x ≡ (err e, store')
      → store' ≡ store
  unfolding finish
  finish-err store (ok a, t) e store' h = cc
  finish-err store (err e', t) e store' h = second h ∙ abort_eq store t

  -- An error of a transaction of its own, which is aborted then, leaves the store as it was.
  pub in_transaction-err :
      (m : Cmd p.T (Unit {0})) (store : p.T) (e : Status) (store' : p.T)
      → in_transaction p m store ≡ (err e, store')
      → store' ≡ store
  unfolding in_transaction
  in_transaction-err m store e store' h = elim (Option-cases (p.begin store)) [
    | inl failed ↦ second (rw (in_transaction, failed) at h)
    | inr (txn, begun) ↦ finish-err store (m txn) e store' (rw (in_transaction, begun) at h)
  ]

-- `m` keeps `P`, whether it returns a value or an error.
pub record Keeps {T A : Type 0} (P : T → Type 0) (m : Cmd T A) : Type 0 where
  pub at : (t : T) → P t → P (m t).1

module _ {T : Type 0} {P : T → Type 0} where
  pub Keeps-fail : {A : Type 0} (e : Status) → Keeps P (fail {A = A} e)
  Keeps-fail e = record { at = λ t h. h }

  pub Keeps-bind :
      {A B : Type 0} (m : Cmd T A) (k : A → Cmd T B)
      → Keeps P m
      → ((a : A) → Keeps P (k a))
      → Keeps P (m >>= k)
  Keeps-bind {A} {B} m k km kk = record { at = λ t h. after (m t) (km.at t h) }
    where
      after : (r : Result A × T) → P r.1 → P (and_then r k).1
      after (ok a, t) h = (kk a).at t h
      after (err e, t) h = h

  pub Keeps-if :
      {A : Type 0} (b : Bool) (m n : Cmd T A) → Keeps P m → Keeps P n → Keeps P (if b then m else n)
  Keeps-if true m n km kn = km
  Keeps-if false m n km kn = kn

module _ {V : Type 0} (p : Platform V) {P : p.T → Type 0} where
  pub Keeps-allocate : (n : ℕ) → Keeps P (allocate p n)
  unfolding allocate
  Keeps-allocate n = record { at = λ t h. given (p.malloc n) t h }
    where
      given :
          (b : Bool) (t : p.T)
          → P t
          → P
              (elim b as (λ _. Result (Unit {0}) × p.T) [
                | true ↦ (ok tt, t)
                | false ↦ (err out_of_memory, t)
              ]).1
      given true t h = h
      given false t h = h

  pub Keeps-put :
      (no_overwrite : Bool) (k : ℕ) (v : V)
      → ((t t' : p.T) → p.put t k v no_overwrite ≡ some t' → P t → P t')
      → Keeps P (put p no_overwrite k v)
  unfolding put
  Keeps-put no_overwrite k v kept = record {
    at = λ t h. given t (p.put t k v no_overwrite) (kept t) h;
  }
    where
      given :
          (t : p.T) (o : Option p.T)
          → ((t' : p.T) → o ≡ some t' → P t → P t')
          → P t
          → P
              (elim o as (λ _. Result (Unit {0}) × p.T) [
                | some t' ↦ (ok tt, t')
                | none ↦ (err mdb_put_failure, t)
              ]).1
      given t (some t') kept h = kept t' refl h
      given t none kept h = h
