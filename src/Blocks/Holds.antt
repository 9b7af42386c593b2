-- ===== src/Blocks/Holds.antt =====
-- A store that holds a ledger, and commands that do to the store what a specification does to the ledger.
use v_c_agentd.Prelude.{◌≡◌, refl, Option, none, some, length}
use v_c_agentd.Status.{Result, ok, err, ◌>>=◌}
use v_c_agentd.Lmdb.{Get, found, notfound}
use v_c_agentd.Lmdb.Cmd.{Cmd, and_then}
use v_c_agentd.Queue.{Uuid, Node, Value, whole}
use v_c_agentd.Queue.Chain.{Holds}
use v_c_agentd.Database.{
  block_db, height_db, txn_db, artifact_db, pq_db, ArtifactRecord, ArtifactValue, artifact_whole,
  Environment,
}
use v_c_agentd.Blocks.Chain.{IsChain}
use v_c_agentd.Blocks.Ledger.{Txn, Artifact, Ledger}

-- the stored form of a transaction and of an artifact
abbrev pub txn_node : Uuid → Txn → Node
txn_node j x = record {
  key = j;
  prev = x.prev;
  next = x.next;
  artifact_id = x.artifact_id;
  block_id = x.block_id;
  txn_cert_size = length x.cert;
  txn_state = x.state;
}

abbrev pub txn_value : Uuid → Option Txn → Get Value
txn_value j none = notfound
txn_value j (some x) = found (whole (txn_node j x) x.cert)

abbrev pub artifact_record : Uuid → Artifact → ArtifactRecord
artifact_record j a = record {
  key = j;
  txn_first = a.txn_first;
  txn_latest = a.txn_latest;
  height_first = a.height_first;
  height_latest = a.height_latest;
  state_latest = a.state_latest;
}

abbrev pub artifact_value : Uuid → Option Artifact → Get ArtifactValue
artifact_value j none = notfound
artifact_value j (some a) = found (artifact_whole (artifact_record j a))

-- The databases hold the ledger.
pub record Represents (e : Environment) (root : Uuid) (t : e.T) (l : Ledger) : Type 0 where
  pub chain : IsChain root (e.get block_db t) (e.get height_db t) l.blocks
  pub queued : Holds (e.get pq_db t) l.queue
  pub recorded : (j : Uuid) → e.get txn_db t j ≡ txn_value j (l.txns j)
  pub noted : (j : Uuid) → e.get artifact_db t j ≡ artifact_value j (l.artifacts j)

module _ (e : Environment) (root : Uuid) where
  -- an outcome on the store is one on the ledger: the same error, or a store that holds the result
  abbrev pub Outcome : Result (Unit {0}) × e.T → Result Ledger → Type 0
  Outcome x (ok l) = (x.0 ≡ ok tt) × Represents e root x.1 l
  Outcome x (err s) = x.0 ≡ err s

  pub Outcome-then :
      (x : Result (Unit {0}) × e.T) (s : Result Ledger) (k : Cmd e.T (Unit {0}))
      (f : Ledger → Result Ledger)
      → Outcome x s
      → ((t : e.T) (l : Ledger) → s ≡ ok l → Represents e root t l → Outcome (k t) (f l))
      → Outcome (and_then x (λ _. k)) (s >>= f)
  unfolding ◌>>=◌
  Outcome-then (ok u, t) (ok l) k f h next = next t l refl h.1
  Outcome-then (ok u, t) (err s) k f h next = cc
  Outcome-then (err s, t) (ok l) k f h next = cc
  Outcome-then (err s, t) (err s') k f h next = h

  -- a lifted result, on both sides
  pub Outcome-lift :
      {A : Type 0} (r : Result A) (k : A → Cmd e.T (Unit {0})) (f : A → Result Ledger) (t : e.T)
      → ((a : A) → r ≡ ok a → Outcome (k a t) (f a))
      → Outcome (and_then (r, t) k) (r >>= f)
  unfolding ◌>>=◌
  Outcome-lift (ok a) k f t next = next a refl
  Outcome-lift (err s) k f t next = refl
