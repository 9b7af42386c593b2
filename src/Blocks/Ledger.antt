-- ===== src/Blocks/Ledger.antt =====
-- What the data service's databases stand for, and what the addition of a block does to it.
use v_c_agentd.Prelude.{ℕ, suc, Option, none, some, List, [], ◌∷◌, ◌==◌, if◌then◌else◌, length}
use mathlib.Core.Bool.{not}
use v_c_agentd.Wire.{Bytes}
use v_c_agentd.Status.{
  Result, ok, err, guard, ◌>>=◌, ◌>>◌, mdb_put_failure, mdb_get_failure, not_found, not_authorized,
  invalid_block_uuid, invalid_block_height, invalid_previous_block_uuid, missing_block_height,
  missing_previous_block_uuid, missing_block_uuid,
}
use v_c_agentd.Bitcap.{Caps, isset}
use v_c_agentd.Wire.{get64}
use v_c_agentd.Queue.{Uuid, begin_id, end_id}
use v_c_agentd.Queue.Chain.{Cell, has}
use v_c_agentd.Queue.Spec.{erase}
use v_c_agentd.Blocks.Certs.{
  Certificates, Child, block_height, previous_block_uuid, block_uuid, field, uuid_of, child_fields,
  open_block, get_first_transaction_id,
}
use v_c_agentd.Blocks.Children.{state_canonized}
use v_c_agentd.Blocks.Make.{cap_block_write, first_of}
use v_c_agentd.Blocks.Chain.{Block, parent_id, known, reserved}

-- a transaction of a block, without its id
pub record Txn : Type 0 where
  pub prev : Uuid
  pub next : Uuid
  pub artifact_id : Uuid
  pub block_id : Uuid
  pub state : ℕ
  pub cert : Bytes

-- an artifact, without its id
pub record Artifact : Type 0 where
  pub txn_first : Uuid
  pub txn_latest : Uuid
  pub height_first : ℕ
  pub height_latest : ℕ
  pub state_latest : ℕ

pub record Ledger : Type 0 where
  pub blocks : List Block
  pub queue : List Cell
  pub txns : Uuid → Option Txn
  pub artifacts : Uuid → Option Artifact

abbrev pub set : {A : Type 0} → Uuid → A → (Uuid → Option A) → Uuid → Option A
set k a m j = if k == j then some a else m j

abbrev pub canonized_txn : Child → Uuid → Bytes → Txn
canonized_txn child block_id cert = record {
  prev = child.prev_transaction_id;
  next = end_id;
  artifact_id = child.artifact;
  block_id = block_id;
  state = state_canonized;
  cert = cert;
}

-- the transaction is recorded, unless one of its id is
abbrev pub record_txn : Child → Uuid → Bytes → Ledger → Result Ledger
record_txn child block_id cert l = elim (l.txns child.transaction_id) [
  | some x ↦ err mdb_put_failure
  | none ↦
      ok (record l { txns = set child.transaction_id (canonized_txn child block_id cert) l.txns })
]

-- it leaves the queue
abbrev pub unqueue : Uuid → Ledger → Result Ledger
unqueue id l = if has id l.queue then ok (record l { queue = erase id l.queue }) else err not_found

-- the one before it, if there is one, names it as the next
abbrev pub follow : Uuid → Uuid → Ledger → Result Ledger
follow prev id l = elim (l.txns prev) [
  | none ↦ err mdb_get_failure
  | some x ↦ ok (record l { txns = set prev (record x { next = id }) l.txns })
]

-- the artifact's latest transaction, height and state
abbrev pub artifact_after : Child → ℕ → Option Artifact → Artifact
artifact_after child height none = record {
  txn_first = child.transaction_id;
  txn_latest = child.transaction_id;
  height_first = height;
  height_latest = height;
  state_latest = child.state;
}
artifact_after child height (some a) = record a {
  txn_latest = child.transaction_id;
  height_latest = height;
  state_latest = child.state;
}

abbrev pub note_artifact : Child → ℕ → Ledger → Result Ledger
note_artifact child height l = ok (record l {
  artifacts =
      set child.artifact (artifact_after child height (l.artifacts child.artifact)) l.artifacts;
})

abbrev pub canonize : ℕ → Uuid → Bytes → Child → Ledger → Result Ledger
canonize height block_id cert child l = record_txn child block_id cert l >>= λ l1.
    unqueue child.transaction_id l1 >>= λ l2.
    (if child.prev_transaction_id == begin_id
      then ok l2
      else follow child.prev_transaction_id child.transaction_id l2)
    >>= λ l3. note_artifact child height l3

abbrev pub canonize_all : Certificates → ℕ → Uuid → List Bytes → Ledger → Result Ledger
canonize_all c height block_id [] l = ok l
canonize_all c height block_id (cert ∷ certs) l =
    (child_fields c cert >>= λ child. canonize height block_id cert child l) >>= λ l'.
    canonize_all c height block_id certs l'

-- a block on top of the newest
abbrev pub stack : Block → Ledger → Result Ledger
stack b l =
    if known b.id l.blocks then err mdb_put_failure else ok (record l { blocks = b ∷ l.blocks })

-- The height, the previous id and the id in the certificate are those of the next block.
unfoldable pub fit_height : Certificates → Bytes → List Block → Result ℕ
fit_height c block_data bs = do
  raw ← field c block_data block_height 8 missing_block_height
  guard (get64 raw == suc (length bs)) invalid_block_height
  ok (suc (length bs))

unfoldable pub fit_prev : Certificates → Bytes → List Block → Result Uuid
fit_prev c block_data bs = do
  raw ← field c block_data previous_block_uuid 16 missing_previous_block_uuid
  guard (uuid_of raw == parent_id c.root_block bs) invalid_previous_block_uuid
  ok (uuid_of raw)

unfoldable pub fit_id : Certificates → Bytes → Uuid → Result (Unit {0})
fit_id c block_data block_id = do
  raw ← field c block_data block_uuid 16 missing_block_uuid
  guard (block_id == uuid_of raw) invalid_block_uuid
  guard (not (reserved c.root_block block_id)) invalid_block_uuid

-- What the addition of a block promises.
abbrev pub made : Certificates → Uuid → Bytes → Ledger → Result Ledger
made c block_id block_data l = do
  height ← fit_height c block_data l.blocks
  prev ← fit_prev c block_data l.blocks
  fit_id c block_data block_id
  first ← first_of (c.wrapped_transactions block_data)
  first_txn ← get_first_transaction_id c first
  l' ← stack (record { id = block_id; first_txn = first_txn; cert = block_data }) l
  canonize_all c height block_id (c.wrapped_transactions block_data) l'

-- ... with the capability, and a certificate that the parser opens
abbrev pub block_made : Certificates → Caps → Uuid → Bytes → Ledger → Result Ledger
block_made c childcaps block_id block_data l =
    if isset childcaps cap_block_write
    then (open_block c block_data >> made c block_id block_data l)
    else err not_authorized
