-- ===== src/Blocks/Chain.antt =====
-- What `block_db` and `height_db` hold for a chain of blocks, the newest first.
pub mod Extend
use v_c_agentd.Prelude.{
  ℕ, suc, ◌≡◌, Bool, true, false, ◌||◌, Option, none, some, List, [], ◌∷◌, ◌==◌, if◌then◌else◌,
  length,
}
use v_c_agentd.Wire.{Bytes}
use v_c_agentd.Lmdb.{Get, found, notfound}
use v_c_agentd.Queue.{Uuid, begin_id, end_id}
use v_c_agentd.Database.{BlockNode, BlockValue, block_whole, HeightValue, height_whole}
use v_c_agentd.Blocks.Insert.{start_block, end_block}

-- A block without its links and its height.
pub record Block : Type 0 where
  pub id : Uuid
  pub first_txn : Uuid
  pub cert : Bytes

-- the id of the block before, which is the root block's for the first
abbrev pub parent_id : Uuid → List Block → Uuid
parent_id root [] = root
parent_id root (b ∷ bs) = b.id

abbrev pub oldest_id : Block → List Block → Uuid
oldest_id b [] = b.id
oldest_id b (c ∷ cs) = oldest_id c cs

-- the node of a block on the blocks before it
abbrev pub block_node : Uuid → Uuid → Block → List Block → BlockNode
block_node root next b bs = record {
  key = b.id;
  prev = parent_id root bs;
  next = next;
  first_transaction_id = b.first_txn;
  block_height = suc (length bs);
  block_cert_size = length b.cert;
}

abbrev pub block_value : Uuid → Uuid → Block → List Block → BlockValue
block_value root next b bs = block_whole (block_node root next b bs) b.cert

-- the blocks, in front of `next`
abbrev pub nodes_view : Uuid → Uuid → List Block → Uuid → Get BlockValue
nodes_view root next [] j = notfound
nodes_view root next (b ∷ bs) j =
    if b.id == j then found (block_value root next b bs) else nodes_view root b.id bs j

-- `block_db`
abbrev pub block_view : Uuid → List Block → Uuid → Get BlockValue
block_view root [] j = notfound
block_view root (b ∷ bs) j =
    if begin_id == j
    then found (block_whole (start_block (oldest_id b bs)) [])
    else if end_id == j
    then found (block_whole (end_block b.id (suc (length bs))) [])
    else nodes_view root end_id (b ∷ bs) j

-- `height_db`
abbrev pub height_view : List Block → ℕ → Get HeightValue
height_view [] k = notfound
height_view (b ∷ bs) k =
    if suc (length bs) == k then found (height_whole b.id) else height_view bs k

abbrev pub known : Uuid → List Block → Bool
known j [] = false
known j (b ∷ bs) = (b.id == j) || known j bs

-- an id that no block may have
abbrev pub reserved : Uuid → Uuid → Bool
reserved root j = (j == root) || (j == begin_id) || (j == end_id)

-- no id stands twice, and none is reserved
abbrev pub Proper : Uuid → List Block → Type 0
Proper root [] = Unit
Proper root (b ∷ bs) = (known b.id bs ≡ false) × (reserved root b.id ≡ false) × Proper root bs

-- The two databases hold this chain of blocks, and nothing else.
pub record IsChain (root : Uuid) (g : Uuid → Get BlockValue) (h : ℕ → Get HeightValue)
    (bs : List Block) : Type 0 where
  pub blocks : (j : Uuid) → g j ≡ block_view root bs j
  pub heights : (k : ℕ) → h k ≡ height_view bs k
  pub proper : Proper root bs

-- the end node, if there is one
abbrev pub end_of : List Block → Option BlockNode
end_of [] = none
end_of (b ∷ bs) = some (end_block b.id (suc (length bs)))
