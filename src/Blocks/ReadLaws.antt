-- ===== src/Blocks/ReadLaws.antt =====
-- The reads of the block databases, on a store that holds a ledger.
use mathlib.Core.Path.{subst}
use v_c_agentd.Prelude.{
  ℕ, suc, ◌≡◌, refl, Bool, true, false, Option, none, some, List, [], ◌∷◌, ◌==◌, if◌then◌else◌,
  length, inl, inr, Bool-cases, Option-cases, arith,
}
use v_c_agentd.Wire.{Bytes}
use v_c_agentd.Bitcap.{Caps, isset}
use v_c_agentd.Status.{
  Status, Result, ok, err, not_found, invalid_stored_block_node, invalid_stored_transaction_node,
}
use v_c_agentd.Lmdb.{Get, found, notfound}
use v_c_agentd.Queue.{Uuid, end_id, Node, whole}
use v_c_agentd.Queue.Read.{check_node, query}
use v_c_agentd.Database.{
  BlockNode, BlockValue, block_whole, ArtifactRecord, Environment, on, block_db, height_db, txn_db,
}
use v_c_agentd.Database.Reliable.{IsReliableEnv}
use v_c_agentd.Blocks.Chain.{
  Block, parent_id, block_node, block_view, nodes_view, height_view, reserved,
}
use v_c_agentd.Blocks.Ledger.{Ledger, Txn, Artifact}
use v_c_agentd.Blocks.Holds.{Represents, txn_node, artifact_record}
use v_c_agentd.Blocks.Refines.Commit.{Represents-same}
use v_c_agentd.Blocks.Read.{
  cap_block_id_latest_read, cap_block_read, cap_transaction_read, cap_artifact_read,
  cap_block_id_by_height_read, reading, check_block, decode_block, query_block, block_get,
  query_latest, latest_block_id_get, query_height, block_id_by_height_get, query_artifact,
  artifact_get, canonized_transaction_get, block_transaction_get,
}

-- the block of a height
abbrev pub block_at : ℕ → List Block → Option Block
block_at k [] = none
block_at k (b ∷ bs) = if suc (length bs) == k then some b else block_at k bs

-- the node and the certificate of the block of an id
abbrev pub block_of : Uuid → Uuid → Uuid → List Block → Option (BlockNode × Bytes)
block_of root next j [] = none
block_of root next j (b ∷ bs) =
    if b.id == j then some (block_node root next b bs, b.cert) else block_of root b.id j bs

-- what is answered for a value that may be missing
abbrev pub or_not_found : {A : Type 0} → Option A → Result A
or_not_found none = err not_found
or_not_found (some a) = ok a

-- ... and for one whose certificate must have a byte
abbrev pub or_invalid : {A : Type 0} → Status → Option (A × Bytes) → Result (A × Bytes)
or_invalid s none = err not_found
or_invalid s (some (n, [])) = err s
or_invalid s (some (n, x ∷ xs)) = ok (n, x ∷ xs)

module _ {e : Environment} (r : IsReliableEnv e) (root : Uuid) (l : Ledger) (parent : Bool)
    (childcaps : Caps) (store : e.T) (h : Represents e root store l) where
  pub reading-eq :
      {A : Type 0} (cap : ℕ) (q : e.T → Result A) (x : Result A)
      → isset childcaps cap ≡ true
      → ((t : e.T) → Represents e root t l → q t ≡ x)
      → reading e cap parent childcaps q store ≡ x
  unfolding reading
  reading-eq cap q x allowed same = elim (Bool-cases parent) [
    | inl given ↦ rw (allowed, given) (same store h)
    | inr own ↦
        rw (allowed, own, r.begin_eq store)
          (same (r.begun store)
            (Represents-same r root store (r.begun store) l (λ d j. r.get-begun d store j) h))
  ]

  query_latest-newest :
      (t : e.T) → Represents e root t l → query_latest e root t ≡ ok (parent_id root l.blocks)
  unfolding query_latest
  query_latest-newest t h' = ended l.blocks (h'.chain.blocks end_id)
    where
      ended :
          (bs : List Block)
          → e.get block_db t end_id ≡ block_view root bs end_id
          → query_latest e root t ≡ ok (parent_id root bs)
      ended [] eq = rw (query_latest, eq) refl
      ended (b ∷ bs) eq = rw (query_latest, eq) refl

  -- On a store that holds a ledger, with the capability and where LMDB does not fail: the latest block id
  -- is that of the newest block, and the root block's if there are no blocks.
  pub latest_block_id_get-newest :
      isset childcaps cap_block_id_latest_read ≡ true
      → latest_block_id_get e root parent childcaps store ≡ ok (parent_id root l.blocks)
  unfolding latest_block_id_get
  latest_block_id_get-newest allowed =
      reading-eq cap_block_id_latest_read (query_latest e root) (ok (parent_id root l.blocks))
        allowed query_latest-newest

  abbrev id_at : Option Block → Option Uuid
  id_at none = none
  id_at (some b) = some b.id

  query_height-block :
      (k : ℕ) (t : e.T)
      → Represents e root t l
      → query_height e k t ≡ or_not_found (id_at (block_at k l.blocks))
  unfolding query_height
  query_height-block k t h' = indexed l.blocks (h'.chain.heights k)
    where
      indexed :
          (bs : List Block)
          → e.get height_db t k ≡ height_view bs k
          → query_height e k t ≡ or_not_found (id_at (block_at k bs))
      indexed [] eq = rw (query_height, eq) refl
      indexed (b ∷ bs) eq = elim (Bool-cases (suc (length bs) == k)) [
        | inl here ↦ rw (query_height, eq, here) refl
        | inr below ↦ rw below (indexed bs (rw below at eq))
      ]

  -- On a store that holds a ledger, with the capability and where LMDB does not fail: the block id of a
  -- height is that of the block there, where the oldest block has height 1, and for any other height is
  -- not found.
  pub block_id_by_height_get-block :
      (k : ℕ)
      → isset childcaps cap_block_id_by_height_read ≡ true
      → block_id_by_height_get e parent childcaps k store
        ≡ or_not_found (id_at (block_at k l.blocks))
  unfolding block_id_by_height_get
  block_id_by_height_get-block k allowed =
      reading-eq cap_block_id_by_height_read (query_height e k) _ allowed (query_height-block k)

  check_block-checked :
      (n : BlockNode) (cert : Bytes)
      → n.block_cert_size ≡ length cert
      → check_block e parent false (block_whole n cert)
        ≡ or_invalid invalid_stored_block_node (some (n, cert))
  unfolding check_block
  check_block-checked n [] eq = refl
  check_block-checked n (x ∷ xs) eq = ground (arith, r.malloc_eq (suc (length xs)), eq)

  abbrev stored_block : Option (BlockNode × Bytes) → Get BlockValue
  stored_block none = notfound
  stored_block (some (n, cert)) = found (block_whole n cert)

  nodes_view-of :
      (next j : Uuid) (bs : List Block)
      → nodes_view root next bs j ≡ stored_block (block_of root next j bs)
  nodes_view-of next j [] = refl
  nodes_view-of next j (b ∷ bs) = elim (Bool-cases (b.id == j)) [
    | inl here ↦ rw here refl
    | inr below ↦ rw below (nodes_view-of b.id j bs)
  ]

  block_view-of :
      (j : Uuid) (bs : List Block)
      → reserved root j ≡ false
      → block_view root bs j ≡ stored_block (block_of root end_id j bs)
  block_view-of j [] free = refl
  block_view-of j (b ∷ bs) free = ground (arith, nodes_view-of end_id j (b ∷ bs), free)

  abbrev Sized : Option (BlockNode × Bytes) → Type 0
  Sized none = Unit
  Sized (some (n, cert)) = n.block_cert_size ≡ length cert

  -- a node names the size of its certificate
  block_of-size :
      (next j : Uuid) (bs : List Block) (n : BlockNode) (cert : Bytes)
      → block_of root next j bs ≡ some (n, cert)
      → n.block_cert_size ≡ length cert
  block_of-size next j [] n cert eq = cc
  block_of-size next j (b ∷ bs) n cert eq = elim (Bool-cases (b.id == j)) [
    | inl here ↦ subst Sized (rw here at eq) refl
    | inr below ↦ block_of-size b.id j bs n cert (rw below at eq)
  ]

  query_block-of :
      (id : Uuid) (t : e.T)
      → reserved root id ≡ false
      → Represents e root t l
      → query_block e root parent id t
        ≡ or_invalid invalid_stored_block_node (block_of root end_id id l.blocks)
  unfolding query_block decode_block
  query_block-of id t free h' = elim (Option-cases (block_of root end_id id l.blocks)) [
    | inl missing ↦
        rw (query_block, h'.chain.blocks id, block_view-of id l.blocks free, missing, not_root) refl
    | inr ((n, cert), there) ↦
        rw (query_block, h'.chain.blocks id, block_view-of id l.blocks free, there)
          (check_block-checked n cert (block_of-size end_id id l.blocks n cert there))
  ]
    where
      not_root : (id == root) ≡ false
      not_root = ground arith

  -- On a store that holds a ledger, with the capability and where LMDB and `malloc` do not fail, under an
  -- id that is neither a sentinel's nor the root block's: the read of a block gives its node, with
  -- the ids of its neighbours and its height, and its certificate. A block with no bytes is
  -- invalid, and an id that no block has is not found.
  pub block_get-block :
      (id : Uuid)
      → isset childcaps cap_block_read ≡ true
      → reserved root id ≡ false
      → block_get e root parent childcaps id store
        ≡ or_invalid invalid_stored_block_node (block_of root end_id id l.blocks)
  unfolding block_get
  block_get-block id allowed free =
      reading-eq cap_block_read (query_block e root parent id) _ allowed
        (λ t. query_block-of id t free)

  abbrev txn_of : Uuid → Option Txn → Option (Node × Bytes)
  txn_of j none = none
  txn_of j (some x) = some (txn_node j x, x.cert)

  check_node-checked :
      (n : Node) (cert : Bytes)
      → n.txn_cert_size ≡ length cert
      → check_node (on e txn_db) parent (whole n cert)
        ≡ or_invalid invalid_stored_transaction_node (some (n, cert))
  unfolding check_node
  check_node-checked n [] eq = refl
  check_node-checked n (x ∷ xs) eq = ground (arith, r.malloc_eq (suc (length xs)), eq)

  query-txn :
      (id : Uuid) (t : e.T)
      → Represents e root t l
      → query (on e txn_db) parent id t
        ≡ or_invalid invalid_stored_transaction_node (txn_of id (l.txns id))
  unfolding query
  query-txn id t h' = elim (Option-cases (l.txns id)) [
    | inl missing ↦ rw (query, h'.recorded id, missing) refl
    | inr (x, there) ↦
        rw (query, h'.recorded id, there) (check_node-checked (txn_node id x) x.cert refl)
  ]

  -- On a store that holds a ledger, with the capability and where LMDB and `malloc` do not fail: the two
  -- reads of a canonized transaction agree and give its node and its certificate. A transaction with
  -- no bytes is invalid, and an id that no block's transaction has is not found.
  pub canonized_transaction_get-txn :
      (id : Uuid)
      → isset childcaps cap_transaction_read ≡ true
      → (canonized_transaction_get e parent childcaps id store
          ≡ or_invalid invalid_stored_transaction_node (txn_of id (l.txns id)))
        × (block_transaction_get e parent childcaps id store
            ≡ or_invalid invalid_stored_transaction_node (txn_of id (l.txns id)))
  unfolding canonized_transaction_get block_transaction_get
  canonized_transaction_get-txn id allowed =
      let eq =
        reading-eq cap_transaction_read (query (on e txn_db) parent id) _ allowed (query-txn id) in
      (eq, eq)

  abbrev record_of : Uuid → Option Artifact → Option ArtifactRecord
  record_of j none = none
  record_of j (some a) = some (artifact_record j a)

  query_artifact-record :
      (id : Uuid) (t : e.T)
      → Represents e root t l
      → query_artifact e id t ≡ or_not_found (record_of id (l.artifacts id))
  unfolding query_artifact
  query_artifact-record id t h' = elim (Option-cases (l.artifacts id)) [
    | inl missing ↦ rw (query_artifact, h'.noted id, missing) refl
    | inr (a, there) ↦ rw (query_artifact, h'.noted id, there) refl
  ]

  -- On a store that holds a ledger, with the capability and where LMDB does not fail: the read of an
  -- artifact gives its record, and an id that no artifact has is not found.
  pub artifact_get-record :
      (id : Uuid)
      → isset childcaps cap_artifact_read ≡ true
      → artifact_get e parent childcaps id store ≡ or_not_found (record_of id (l.artifacts id))
  unfolding artifact_get
  artifact_get-record id allowed =
      reading-eq cap_artifact_read (query_artifact e id) _ allowed (query_artifact-record id)
