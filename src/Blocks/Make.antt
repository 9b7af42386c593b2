-- ===== src/Blocks/Make.antt =====
-- dataservice_block_make of src/dataservice/dataservice_block_make.c.
use v_c_agentd.Prelude.{ℕ, List, [], ◌∷◌, if◌then◌else◌}
use v_c_agentd.Wire.{Bytes}
use v_c_agentd.Status.{Result, ok, err, not_authorized, no_child_transactions}
use v_c_agentd.Bitcap.{Caps, isset}
use v_c_agentd.Lmdb.Cmd.{Cmd, fail, ◌>>=◌, ◌>>◌, in_transaction}
use v_c_agentd.Queue.{Uuid}
use v_c_agentd.Database.{block_db, Environment, on}
use v_c_agentd.Blocks.Certs.{
  Certificates, constraint_matching_block_height, constraint_matching_prev_uuid,
  constraint_sane_block_uuid, get_first_transaction_id, open_block,
}
use v_c_agentd.Blocks.Insert.{query_end_node, insert_block, link_block}
use v_c_agentd.Blocks.Children.{lift, process_children}

-- DATASERVICE_API_CAP_APP_BLOCK_WRITE
abbrev pub cap_block_write : ℕ
cap_block_write = 21

-- the first wrapped transaction
abbrev pub first_of : List Bytes → Result Bytes
first_of [] = err no_child_transactions
first_of (cert ∷ certs) = ok cert

module _ (e : Environment) (c : Certificates) where
  -- the body of the transaction
  unfoldable pub make_in : Uuid → Bytes → Cmd e.T (Unit {0})
  make_in block_id block_data = do
    end_node ← query_end_node e
    height ← lift (constraint_matching_block_height c block_data end_node)
    prev ← lift (constraint_matching_prev_uuid c block_data end_node)
    lift (constraint_sane_block_uuid c block_data block_id)
    first ← lift (first_of (c.wrapped_transactions block_data))
    first_child_txn_id ← lift (get_first_transaction_id c first)
    insert_block e block_id prev first_child_txn_id height block_data
    link_block e block_id height end_node
    process_children e c height block_id (c.wrapped_transactions block_data)

  -- dataservice_block_make, on the store of the parent transaction, or of the environment if there is
  -- none
  unfoldable pub block_make : Caps → Uuid → Bytes → Cmd e.T (Unit {0})
  block_make childcaps block_id block_data =
      if isset childcaps cap_block_write
      then lift (open_block c block_data)
        >> in_transaction (on e block_db) (make_in block_id block_data)
      else fail not_authorized
