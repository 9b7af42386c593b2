-- ===== src/Service/Effects.antt =====
-- Exchanges of clients, and what they do to the queue and to the blocks.
use v_c_agentd.Prelude.{
  ℕ, suc, ◌≡◌, refl, sym, ap, ◌∙◌, ◌<◌, ◌^◌, true, false, Option, none, some, List, length,
}
use mathlib.Core.Path.{subst}
use v_c_agentd.Wire.{Bytes}
use v_c_agentd.Bitcap.{Caps, isset}
use v_c_agentd.Status.{Result, ok, err}
use v_c_agentd.Codec.{
  Target, Request, root_context_init, root_context_reduce_caps, child_context_create,
  child_context_close, global_setting_get, global_setting_set, transaction_submit,
  transaction_get_first, transaction_get, transaction_drop, transaction_promote,
  payload_artifact_read, block_make, block_read, block_id_by_height_read, block_id_latest_read,
  canonized_transaction_get,
}
use v_c_agentd.Codec.Layout.{IsValid, IsEncodable}
use v_c_agentd.Codec.EncodeLaws.{IsReady}
use v_c_agentd.Contexts.{child_context_lookup}
use v_c_agentd.Queue.Chain.{Cell, Holds}
use v_c_agentd.Queue.Spec.{Call, submit, drop, promote, capability, perform, specified}
use v_c_agentd.Queue.Spec.Refines.{IsProper, perform-refines}
use v_c_agentd.Database.{pq_db, on}
use v_c_agentd.Database.Reliable.{IsReliableEnv, on_reliable}
use v_c_agentd.Blocks.Certs.{uuid_of}
use v_c_agentd.Blocks.Ledger.{Ledger, block_made}
use v_c_agentd.Blocks.Holds.{Represents}
use v_c_agentd.Blocks.Make as BlockMake
use v_c_agentd.Blocks.Refines.Commit.{Did, block_make-refines}
use v_c_agentd.Service.{Setup, State, Handler, without_data, child_index, operate}
use v_c_agentd.Service.Exchange.{changes, code_of, answer, served, exchange-change}

-- the call on the queue that a request stands for; a handler gives no parent transaction
abbrev pub call_of : Request → Option Call
call_of (transaction_submit i x a c) = some (submit (uuid_of x) (uuid_of a) c)
call_of (transaction_drop i x) = some (drop false (uuid_of x))
call_of (transaction_promote i x) = some (promote false (uuid_of x))
call_of r = none

without_data-same :
    {T : Type 0} (x : Result (Unit {0}) × T)
    → (code_of (without_data x).0 ≡ code_of x.0) × ((without_data x).1 ≡ x.1)
without_data-same (ok u, t) = (refl, refl)
without_data-same (err e, t) = (refl, refl)

module _ (s : Setup) (caps : Caps) (store : s.env.T) where
  abbrev pub performed : Call → Result (Unit {0}) × s.env.T
  performed call = perform (on s.env pq_db) s.attestation caps call store

  -- What a handler of the queue calls.
  operate-call :
      (r : Request) (call : Call)
      → call_of r ≡ some call
      → (changes r ≡ true) × (operate s r caps store ≡ without_data (performed call))
  unfolding operate
  operate-call (root_context_init x d) call h = cc
  operate-call (root_context_reduce_caps x) call h = cc
  operate-call (child_context_create x) call h = cc
  operate-call (child_context_close i) call h = cc
  operate-call (global_setting_get i k) call h = cc
  operate-call (global_setting_set i k v) call h = cc
  operate-call (transaction_get_first i) call h = cc
  operate-call (transaction_get i x) call h = cc
  operate-call (payload_artifact_read i a) call h = cc
  operate-call (block_make i b d) call h = cc
  operate-call (block_read i b q) call h = cc
  operate-call (block_id_by_height_read i k) call h = cc
  operate-call (block_id_latest_read i) call h = cc
  operate-call (canonized_transaction_get i x q) call h = cc
  operate-call (transaction_submit i x a c) call h =
      let same : submit (uuid_of x) (uuid_of a) c ≡ call = cc in
      (refl, ap (λ k. without_data (performed k)) same)
  operate-call (transaction_drop i x) call h =
      let same : drop false (uuid_of x) ≡ call = cc in
      (refl, ap (λ k. without_data (performed k)) same)
  operate-call (transaction_promote i x) call h =
      let same : promote false (uuid_of x) ≡ call = cc in
      (refl, ap (λ k. without_data (performed k)) same)

module _ (s : Setup) (root_create : Bytes → Handler s) (memory : (n : ℕ) → s.env.malloc n ≡ true)
    (r : IsReliableEnv s.env) (t : Target) (ready : IsReady t) (req : Request) (valid : IsValid req)
    (text : IsEncodable req) (index_fits : child_index req < 2 ^ 32) (st : State s.env) (i : ℕ)
    (open_context : child_context_lookup st.inst (child_index req) ≡ ok i) where
  abbrev caps : Caps
  caps = (st.inst.children i).childcaps

  abbrev answered : State s.env
  answered = served s root_create req st

  -- A client's exchange of a valid request that submits, drops or promotes a transaction, on an open child
  -- context with the capability, no submission under a sentinel's id, and where LMDB, `malloc` and
  -- the buffers do not fail: on a database whose queue is the list `cs`, the client decodes
  -- its index and the number of the result that is specified for the call on `cs`, the queue is the
  -- list that is specified then, and no child context has changed.
  pub exchange-queue :
      (call : Call) (cs : List Cell)
      → call_of req ≡ some call
      → isset caps (capability call) ≡ true
      → IsProper call
      → Holds (s.env.get pq_db st.store) cs
      → (answer s root_create t req st
          ≡ ok (child_index req, code_of (specified s.attestation call cs).0, some tt))
        × Holds (s.env.get pq_db answered.store) (specified s.attestation call cs).1
        × (answered.inst ≡ st.inst)
  exchange-queue call cs is_call allowed proper h =
      let (change, op) = operate-call s caps st.store req call is_call in
      let (decoded, left) =
        exchange-change s root_create memory t req st i ready valid text change index_fits
          open_context in
      let (status, held) =
        perform-refines (on_reliable s.env r pq_db) s.attestation caps call st.store cs allowed
          proper h in
      let (code, store) = without_data-same (performed s caps st.store call) in
      (
        decoded
            ∙ ap (λ n. ok (child_index req, n, some tt))
                (ap (λ x. code_of (x.0)) op ∙ code ∙ ap code_of status),
        subst (λ q. Holds (s.env.get pq_db q) (specified s.attestation call cs).1)
            (sym (ap (λ x. x.store) left ∙ ap (λ x. x.1) op ∙ store)) held,
        ap (λ x. x.inst) left,
      )

module _ (s : Setup) (root_create : Bytes → Handler s) (memory : (n : ℕ) → s.env.malloc n ≡ true)
    (r : IsReliableEnv s.env) (t : Target) (ready : IsReady t) where
  -- the store that an addition of a block leaves
  abbrev pub Left : State s.env → State s.env → Result Ledger → Type 0
  Left before after (ok l) = Represents s.env s.certs.root_block after.store l
  Left before after (err x) = after.store ≡ before.store

  block_result :
      (m : s.env.T → Result (Unit {0}) × s.env.T) (before after : State s.env) (x : Result Ledger)
      → Did r s.certs m before.store x
      → after.store ≡ (m before.store).1
      → (code_of (m before.store).0 ≡ code_of x) × Left before after x
  block_result m before after (ok l) (store', done, h) eq = (
    ap (λ y. code_of (y.0)) done,
    subst (λ q. Represents s.env s.certs.root_block q l) (sym (eq ∙ ap (λ y. y.1) done)) h,
  )
  block_result m before after (err x) failed eq =
      (ap (λ y. code_of (y.0)) failed, eq ∙ ap (λ y. y.1) failed)

  -- A client's exchange of a valid request that adds a block, on an open child context, where LMDB, `malloc`
  -- and the buffers do not fail, on databases that hold a ledger with fewer than 2^64 - 1 blocks: the
  -- client decodes its index and the number of the result that is specified for the ledger, the
  -- databases hold the ledger that is specified, or are as they were if that is an error, and no
  -- child context has changed.
  pub exchange-block :
      (index : ℕ) (block_id cert : Bytes) (st : State s.env) (i : ℕ) (l : Ledger)
      → IsValid (block_make index block_id cert)
      → child_context_lookup st.inst index ≡ ok i
      → suc (length l.blocks) < 2 ^ 64
      → Represents s.env s.certs.root_block st.store l
      → let made = block_made s.certs (st.inst.children i).childcaps (uuid_of block_id) cert l in
        let after = served s root_create (block_make index block_id cert) st in
        (answer s root_create t (block_make index block_id cert) st
          ≡ ok (index, code_of made, some tt))
        × Left st after made
        × (after.inst ≡ st.inst)
  unfolding operate
  exchange-block index block_id cert st i l valid open_context bound h =
      let caps = (st.inst.children i).childcaps in
      let m : s.env.T → Result (Unit {0}) × s.env.T =
        BlockMake.block_make s.env s.certs caps (uuid_of block_id) cert in
      let made = block_made s.certs caps (uuid_of block_id) cert l in
      let after = served s root_create (block_make index block_id cert) st in
      let (decoded, left) =
        exchange-change s root_create memory t (block_make index block_id cert) st i ready valid tt
          refl valid.0 open_context in
      let (code, store) = without_data-same (m st.store) in
      let (status, kept) =
        block_result m st after made
          (block_make-refines r s.certs caps (uuid_of block_id) cert st.store l bound h)
          (ap (λ x. x.store) left ∙ store) in
      (decoded ∙ ap (λ n. ok (index, n, some tt)) (code ∙ status), kept, ap (λ x. x.inst) left)
