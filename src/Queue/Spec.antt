-- ===== src/Queue/Spec.antt =====
-- The queue's operations as calls, and what a call does to a list of transactions.
pub mod Cut
pub mod Refines
use v_c_agentd.Prelude.{ℕ, Bool, true, false, List, [], ◌∷◌, ◌++◌, ◌==◌, if◌then◌else◌}
use v_c_agentd.Wire.{Bytes}
use v_c_agentd.Status.{Result, ok, err, mdb_put_failure, not_found}
use v_c_agentd.Bitcap.{Caps}
use v_c_agentd.Lmdb.{Platform}
use v_c_agentd.Queue.{Uuid, Value, state_attested}
use v_c_agentd.Lmdb.Cmd.{Cmd}
use v_c_agentd.Queue.Submit.{cap_pq_transaction_submit, transaction_submit}
use v_c_agentd.Queue.Drop.{cap_pq_transaction_drop, transaction_drop}
use v_c_agentd.Queue.Promote.{cap_pq_transaction_promote, transaction_promote}
use v_c_agentd.Queue.Chain.{Cell, has}
use v_c_agentd.Queue.SubmitLaws.{new_cell}

-- A call of an operation that changes the queue. The flag says whether a parent transaction is given.
pub data Call : Type 0 where
  submit : (txn_id artifact_id : Uuid) (txn_bytes : Bytes) → Call
  drop : (parent : Bool) (txn_id : Uuid) → Call
  promote : (parent : Bool) (txn_id : Uuid) → Call

-- the capability that the call wants
abbrev pub capability : Call → ℕ
capability (submit i a c) = cap_pq_transaction_submit
capability (drop parent i) = cap_pq_transaction_drop
capability (promote parent i) = cap_pq_transaction_promote

abbrev pub perform : (p : Platform Value) → Bool → Caps → Call → Cmd p.T (Unit {0})
perform p attestation caps (submit i a c) = transaction_submit p attestation caps i a c
perform p attestation caps (drop parent i) = transaction_drop p parent caps i
perform p attestation caps (promote parent i) = transaction_promote p parent caps i

-- the list without the first transaction of this id
unfoldable pub erase : Uuid → List Cell → List Cell
erase k [] = []
erase k (c ∷ cs) = if c.id == k then cs else c ∷ erase k cs

-- the list with the first transaction of this id attested
unfoldable pub attest : Uuid → List Cell → List Cell
attest k [] = []
attest k (c ∷ cs) = if c.id == k then record c { state = state_attested } ∷ cs else c ∷ attest k cs

-- What a call promises: a submission adds to the end unless the id is in use; a drop removes, and a
-- promotion attests, the transaction of the id.
abbrev pub specified : Bool → Call → List Cell → Result (Unit {0}) × List Cell
specified attestation (submit i a c) cs =
    if has i cs then (err mdb_put_failure, cs) else (ok tt, cs ++ new_cell attestation i a c ∷ [])
specified attestation (drop parent i) cs =
    if has i cs then (ok tt, erase i cs) else (err not_found, cs)
specified attestation (promote parent i) cs =
    if has i cs then (ok tt, attest i cs) else (err not_found, cs)

-- Calls in a row, each on the store that the one before left: their results, and the last store.
abbrev pub run_all :
    {S : Type 0} → (Call → S → Result (Unit {0}) × S) → List Call → S → List (Result (Unit {0})) × S
run_all step [] s = ([], s)
run_all step (call ∷ calls) s =
    let r = step call s in let rest = run_all step calls r.1 in (r.0 ∷ rest.0, rest.1)
