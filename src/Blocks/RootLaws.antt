-- ===== src/Blocks/RootLaws.antt =====
-- The read of the root block, which dataservice_block_get.c answers from the start node.
use v_c_agentd.Prelude.{◌≡◌, refl, Bool, true, false, List, [], ◌∷◌, ◌==◌, ==_refl, arith}
use v_c_agentd.Wire.{Bytes}
use v_c_agentd.Bitcap.{Caps, isset}
use v_c_agentd.Status.{Result, ok, err, not_found}
use v_c_agentd.Queue.{Uuid, begin_id, end_id}
use v_c_agentd.Database.{BlockNode, block_db, block_whole, Environment}
use v_c_agentd.Database.Reliable.{IsReliableEnv}
use v_c_agentd.Blocks.Insert.{start_block}
use v_c_agentd.Blocks.Chain.{Block, oldest_id, block_view, known, Proper}
use v_c_agentd.Blocks.Chain.Extend.{nodes_view-unknown}
use v_c_agentd.Blocks.Ledger.{Ledger}
use v_c_agentd.Blocks.Holds.{Represents}
use v_c_agentd.Blocks.Read.{cap_block_read, check_block, decode_block, query_block, block_get}
use v_c_agentd.Blocks.ReadLaws.{reading-eq}

-- what is answered for the root block: a node that names the oldest block as the next one
abbrev pub root_answer : List Block → Result (BlockNode × Bytes)
root_answer [] = err not_found
root_answer (b ∷ bs) = ok (start_block (oldest_id b bs), [])

root-unknown : (root : Uuid) (bs : List Block) → Proper root bs → known root bs ≡ false
root-unknown root [] p = refl
root-unknown root (b ∷ bs) p = ground (arith, p.1, root-unknown root bs p.2)

module _ {e : Environment} (r : IsReliableEnv e) (root : Uuid) (l : Ledger) (parent : Bool)
    (childcaps : Caps) (store : e.T) (h : Represents e root store l) where
  check_block-start :
      (id : Uuid)
      → check_block e parent true (block_whole (start_block id) []) ≡ ok (start_block id, [])
  unfolding check_block
  check_block-start id = ground (arith, r.malloc_eq 0)

  query_block-root :
      (begin_apart : (begin_id == root) ≡ false) (end_apart : (end_id == root) ≡ false) (t : e.T)
      → Represents e root t l
      → query_block e root parent root t ≡ root_answer l.blocks
  unfolding query_block decode_block
  query_block-root begin_apart end_apart t h' =
      answered l.blocks h'.chain.proper (h'.chain.blocks root) (h'.chain.blocks begin_id)
    where
      answered :
          (bs : List Block)
          → Proper root bs
          → e.get block_db t root ≡ block_view root bs root
          → e.get block_db t begin_id ≡ block_view root bs begin_id
          → query_block e root parent root t ≡ root_answer bs
      answered [] p eq start = rw (query_block, eq, ==_refl root, start) refl
      answered (b ∷ bs) p eq start =
          rw
            (
              query_block,
              eq,
              begin_apart,
              end_apart,
              nodes_view-unknown root end_id (b ∷ bs) root (root-unknown root (b ∷ bs) p),
              ==_refl root,
              start,
            )
            (check_block-start (oldest_id b bs))

  -- On a store that holds a ledger, with the capability and where LMDB and `malloc` do not fail, where the
  -- root block's id is not a sentinel's: the read of the root block gives the start node, with no
  -- bytes and with the oldest block as the next one. It is not found if there are no blocks.
  pub block_get-root :
      (begin_id == root) ≡ false
      → (end_id == root) ≡ false
      → isset childcaps cap_block_read ≡ true
      → block_get e root parent childcaps root store ≡ root_answer l.blocks
  unfolding block_get
  block_get-root begin_apart end_apart allowed =
      reading-eq r root l parent childcaps store h cap_block_read (query_block e root parent root) _
        allowed (query_block-root begin_apart end_apart)
