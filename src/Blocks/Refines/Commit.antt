-- ===== src/Blocks/Refines/Commit.antt =====
-- dataservice_block_make as a whole: its transaction, and calls in a row.
use v_c_agentd.Prelude.{ℕ, suc, ◌≡◌, refl, sym, ap, ◌∙◌, ◌^◌, ◌<◌, length, inl, inr, Bool-cases}
use mathlib.Core.Path.{subst, fun_ext}
use v_c_agentd.Wire.{Bytes}
use v_c_agentd.Bitcap.{Caps, isset}
use v_c_agentd.Status.{Status, Result, ok, err, ◌>>◌}
use v_c_agentd.Lmdb.Cmd.{Cmd, and_then, finish, in_transaction}
use v_c_agentd.Lmdb.CmdLaws.{in_transaction-eq}
use v_c_agentd.Lmdb.Failure.{second, in_transaction-err}
use v_c_agentd.Queue.{Uuid}
use v_c_agentd.Queue.Chain.{Holds}
use v_c_agentd.Database.{Name, block_db, height_db, txn_db, artifact_db, pq_db, Environment, on}
use v_c_agentd.Database.Reliable.{IsReliableEnv, on_reliable}
use v_c_agentd.Blocks.Certs.{Certificates, open_block}
use v_c_agentd.Blocks.Make.{cap_block_write, make_in, block_make}
use v_c_agentd.Blocks.Ledger.{Ledger, made, block_made}
use v_c_agentd.Blocks.Holds.{Represents, Outcome, Outcome-lift}
use v_c_agentd.Blocks.Refines.Make.{make_in-Outcome}

module _ {e : Environment} (r : IsReliableEnv e) (root : Uuid) where
  pub Represents-same :
      (t t' : e.T) (l : Ledger)
      → ((d : Name) (j : ℕ) → e.get d t' j ≡ e.get d t j)
      → Represents e root t l
      → Represents e root t' l
  Represents-same t t' l same h = record {
    chain = record {
      blocks = λ j. same block_db j ∙ h.chain.blocks j;
      heights = λ j. same height_db j ∙ h.chain.heights j;
      proper = h.chain.proper;
    };
    queued = subst (λ g. Holds g l.queue) (fun_ext λ j. sym (same pq_db j)) h.queued;
    recorded = λ j. same txn_db j ∙ h.recorded j;
    noted = λ j. same artifact_db j ∙ h.noted j;
  }

  finish-Outcome :
      (store : e.T) (x : Result (Unit {0}) × e.T) (s : Result Ledger)
      → Outcome e root x s
      → Outcome e root (finish (on e block_db) store x) s
  unfolding finish
  finish-Outcome store (ok u, t) (ok l) h =
      (h.0, Represents-same t (e.commit store t).1 l (λ d j. r.get-commit d store t j) h.1)
  finish-Outcome store (ok u, t) (err s) h = h
  finish-Outcome store (err s, t) (ok l) h = cc
  finish-Outcome store (err s, t) (err s') h = h

  in_transaction-Outcome :
      (m : Cmd e.T (Unit {0})) (s : Result Ledger) (store : e.T) (l : Ledger)
      → ((t : e.T) → Represents e root t l → Outcome e root (m t) s)
      → Represents e root store l
      → Outcome e root (in_transaction (on e block_db) m store) s
  in_transaction-Outcome m s store l works h =
      rw (in_transaction-eq (on_reliable e r block_db) m store) (
        finish-Outcome store (m (r.begun store)) s (
          works (r.begun store)
            (Represents-same store (r.begun store) l (λ d j. r.get-begun d store j) h)))

module _ {e : Environment} (r : IsReliableEnv e) (c : Certificates) where
  -- An error leaves the store as it was.
  block_make_atomic :
      (childcaps : Caps) (block_id : Uuid) (block_data : Bytes) (store store' : e.T) (s : Status)
      → block_make e c childcaps block_id block_data store ≡ (err s, store')
      → store' ≡ store
  unfolding block_make
  block_make_atomic childcaps block_id block_data store store' s h =
      elim (Bool-cases (isset childcaps cap_block_write)) [
        | inl allowed ↦ opened (open_block c block_data) (rw allowed at h)
        | inr refused ↦ second (rw refused at h)
      ]
    where
      opened :
          (x : Result (Unit {0}))
          → and_then
              (x, store)
              (λ _. in_transaction (on e block_db) (make_in e c block_id block_data))
            ≡ (err s, store')
          → store' ≡ store
      opened (ok u) h =
          in_transaction-err (on e block_db) r.abort_eq (make_in e c block_id block_data) store s
            store' h
      opened (err s') h = second h

  block_make-Outcome :
      (childcaps : Caps) (block_id : Uuid) (block_data : Bytes) (store : e.T) (l : Ledger)
      → suc (length l.blocks) < 2 ^ 64
      → Represents e c.root_block store l
      → Outcome e c.root_block
          (block_make e c childcaps block_id block_data store)
          (block_made c childcaps block_id block_data l)
  unfolding block_make ◌>>◌
  block_make-Outcome childcaps block_id block_data store l bound h =
      elim (Bool-cases (isset childcaps cap_block_write)) [
        | inl allowed ↦ rw allowed (
            Outcome-lift e c.root_block (open_block c block_data)
              (λ _. in_transaction (on e block_db) (make_in e c block_id block_data))
              (λ _. made c block_id block_data l) store
              λ u _.
                in_transaction-Outcome r c.root_block (make_in e c block_id block_data)
                  (made c block_id block_data l) store l
                  (λ t h'. make_in-Outcome r c block_id block_data l t bound h') h)
        | inr refused ↦ rw refused refl
      ]

  -- What a call did: it returned, and the store holds the result; or the error, and the store is as it was.
  abbrev pub Did : Cmd e.T (Unit {0}) → e.T → Result Ledger → Type 0
  Did m store (ok l) =
      (store' : e.T) × (m store ≡ (ok tt, store')) × Represents e c.root_block store' l
  Did m store (err s) = m store ≡ (err s, store)

  did :
      (m : Cmd e.T (Unit {0})) (store : e.T) (s : Result Ledger)
      → ((x : Status) (store' : e.T) → m store ≡ (err x, store') → store' ≡ store)
      → Outcome e c.root_block (m store) s
      → Did m store s
  did m store (ok l) atomic h = ((m store).1, ap (λ x. (x, (m store).1)) h.0, h.1)
  did m store (err s) atomic h =
      let failed : m store ≡ (err s, (m store).1) = ap (λ x. (x, (m store).1)) h in
      failed ∙ ap (λ t. (err s, t)) (atomic s (m store).1 failed)

  -- On a store that holds a ledger, where LMDB and `malloc` do not fail, and with fewer than 2^64 - 1
  -- blocks: the addition of a block does to the ledger what `block_made` says. If that is
  -- a ledger then the addition succeeds and the store holds it, and if it is an error then the
  -- addition returns that error and leaves the store as it was.
  pub block_make-refines :
      (childcaps : Caps) (block_id : Uuid) (block_data : Bytes) (store : e.T) (l : Ledger)
      → suc (length l.blocks) < 2 ^ 64
      → Represents e c.root_block store l
      → Did
          (block_make e c childcaps block_id block_data)
          store
          (block_made c childcaps block_id block_data l)
  block_make-refines childcaps block_id block_data store l bound h =
      did (block_make e c childcaps block_id block_data) store
        (block_made c childcaps block_id block_data l)
        (λ s store' failed. block_make_atomic childcaps block_id block_data store store' s failed)
        (block_make-Outcome childcaps block_id block_data store l bound h)
