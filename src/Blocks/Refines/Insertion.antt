-- ===== src/Blocks/Refines/Insertion.antt =====
-- The insertion of a block, with its links, into a chain.
use v_c_agentd.Prelude.{
  ℕ, suc, ◌≡◌, refl, ◌∙◌, true, false, List, [], ◌∷◌, ◌==◌, length, arith, leb, take_all,
}
use v_c_agentd.Wire.{Bytes}
use v_c_agentd.Status.{ok, err, mdb_put_failure}
use v_c_agentd.Lmdb.{Get, found}
use v_c_agentd.Lmdb.Cmd.{Cmd, ◌>>◌}
use v_c_agentd.Lmdb.CmdLaws.{allocate-eq, put-stored, put-new, put-old}
use v_c_agentd.Queue.{Uuid, begin_id, end_id}
use v_c_agentd.Database.{
  Name, block_db, height_db, handle, BlockNode, BlockValue, block_whole, height_whole, Environment,
}
use v_c_agentd.Database.Reliable.{IsReliableEnv, on_reliable, get-stored_other}
use v_c_agentd.Blocks.Insert.{
  start_block, end_block, query_end_node, insert_block, create_block_queue, read_prev_block,
  copy_prev_block, update_prev_block, update_end_block, link_block,
}
use v_c_agentd.Blocks.Chain.{
  end_of, Block, parent_id, block_value, block_node, block_view, height_view, known, reserved,
  Proper, IsChain,
}
use v_c_agentd.Blocks.Chain.Extend.{
  write, create-view, extend-view, block_view-unknown, block_view-known, height_view-above,
}

module _ {e : Environment} (r : IsReliableEnv e) (root : Uuid) where
  abbrev at_blocks : e.T → Uuid → Get BlockValue
  at_blocks t = e.get block_db t

  pub query_end_node-end :
      (bs : List Block) (t : e.T)
      → ((j : Uuid) → e.get block_db t j ≡ block_view root bs j)
      → query_end_node e t ≡ (ok (end_of bs), t)
  unfolding query_end_node
  query_end_node-end [] t same = rw (query_end_node, same end_id)
  query_end_node-end (b ∷ bs) t same = rw (query_end_node, same end_id)

  -- the store after the insertion of the block
  abbrev pub inserted : Block → List Block → e.T → e.T
  inserted b bs t =
      r.stored height_db (r.stored block_db t b.id (block_value root end_id b bs)) (suc (length bs))
        (height_whole b.id)

  abbrev pub insert : Block → List Block → Cmd e.T (Unit {0})
  insert b bs = insert_block e b.id (parent_id root bs) b.first_txn (suc (length bs)) b.cert

  insert-inserted :
      (b : Block) (bs : List Block) (t : e.T)
      → IsChain root (e.get block_db t) (e.get height_db t) bs
      → known b.id bs ≡ false
      → reserved root b.id ≡ false
      → insert b bs t ≡ (ok tt, inserted b bs t)
  unfolding insert_block
  insert-inserted b bs t c new free =
      rw
        (
          allocate-eq (on_reliable e r block_db) _ t,
          put-new (on_reliable e r block_db) b.id (block_value root end_id b bs) t
              (c.blocks b.id ∙ block_view-unknown root bs b.id new free),
          put-new (on_reliable e r height_db) (suc (length bs)) (height_whole b.id) _ (
              get-stored_other r block_db height_db t b.id (block_value root end_id b bs)
                (suc (length bs)) refl
              ∙ c.heights (suc (length bs))
              ∙ height_view-above bs (suc (length bs)) (omega arith)),
        )
        refl

  pub insert-refused :
      (b : Block) (bs : List Block) (t : e.T)
      → IsChain root (e.get block_db t) (e.get height_db t) bs
      → known b.id bs ≡ true
      → reserved root b.id ≡ false
      → insert b bs t ≡ (err mdb_put_failure, t)
  unfolding insert_block
  insert-refused b bs t c old free =
      let (v, eq) = block_view-known root bs b.id old free in
      rw
        (
          allocate-eq (on_reliable e r block_db) _ t,
          put-old (on_reliable e r block_db) b.id (block_value root end_id b bs) v t
              (c.blocks b.id ∙ eq),
        )
        refl

  -- the store after the links
  abbrev pub linked : Block → List Block → e.T → e.T
  linked b [] t =
      r.stored block_db (r.stored block_db t begin_id (block_whole (start_block b.id) [])) end_id
        (block_whole (end_block b.id 1) [])
  linked b (c ∷ cs) t =
      r.stored block_db (r.stored block_db t c.id (block_value root b.id c cs)) end_id
        (block_whole (end_block b.id (suc (suc (length cs)))) [])

  read_prev_block-value :
      (k : Uuid) (n : BlockNode) (cert : Bytes) (t : e.T)
      → e.get block_db t k ≡ found (block_whole n cert)
      → read_prev_block e k t ≡ (ok (n, cert), t)
  unfolding read_prev_block
  read_prev_block-value k n cert t h = rw (read_prev_block, h)

  leb_refl : (n : ℕ) → leb n n ≡ true
  leb_refl n = ground arith

  copy_prev_block-value :
      (next : Uuid) (c : Block) (cs : List Block) (t : e.T)
      → copy_prev_block e (block_node root next c cs) c.cert t ≡ (ok c.cert, t)
  unfolding copy_prev_block
  copy_prev_block-value next c cs t =
      rw (copy_prev_block, leb_refl (length c.cert), take_all (length c.cert) c.cert refl)

  update_prev_block-stored :
      (b c : Block) (cs : List Block) (t : e.T)
      → e.get block_db t c.id ≡ found (block_value root end_id c cs)
      → update_prev_block e b.id c.id t
        ≡ (ok tt, r.stored block_db t c.id (block_value root b.id c cs))
  unfolding update_prev_block
  update_prev_block-stored b c cs t h =
      rw
        (
          read_prev_block-value c.id (block_node root end_id c cs) c.cert t h,
          allocate-eq (on_reliable e r block_db) _ t,
          copy_prev_block-value end_id c cs t,
        )
        (put-stored (on_reliable e r block_db) c.id (block_value root b.id c cs) t)

  abbrev NewestLinks : List Block → e.T → Type 0
  NewestLinks [] t = Unit
  NewestLinks (c ∷ cs) t = e.get block_db t c.id ≡ found (block_value root end_id c cs)

  link-linked :
      (b : Block) (bs : List Block) (t : e.T)
      → NewestLinks bs t
      → link_block e b.id (suc (length bs)) (end_of bs) t ≡ (ok tt, linked b bs t)
  unfolding link_block create_block_queue update_end_block
  link-linked b [] t h =
      rw (put-stored (on_reliable e r block_db) begin_id (block_whole (start_block b.id) []) t)
        (put-stored (on_reliable e r block_db) end_id (block_whole (end_block b.id 1) []) _)
  link-linked b (c ∷ cs) t h =
      rw (update_prev_block-stored b c cs t h) (put-stored (on_reliable e r block_db) end_id _ _)

  -- the writes, as they are seen
  abbrev done : Block → List Block → e.T → e.T
  done b bs t = linked b bs (inserted b bs t)

  get-height :
      (t : e.T) (k : ℕ) (v : BlockValue) (j : ℕ)
      → e.get height_db (r.stored block_db t k v) j ≡ e.get height_db t j
  get-height t k v j = get-stored_other r block_db height_db t k v j refl

  get-inserted :
      (b : Block) (bs : List Block) (t : e.T) (j : Uuid)
      → e.get block_db (inserted b bs t) j
        ≡ write b.id (block_value root end_id b bs) (e.get block_db t) j
  get-inserted b bs t j =
      rw
        (get-stored_other r height_db block_db
          (r.stored block_db t b.id (block_value root end_id b bs)) (suc (length bs))
          (height_whole b.id) j refl)
        (r.get-stored block_db t b.id (block_value root end_id b bs) j)

  height-inserted :
      (b : Block) (bs : List Block) (t : e.T) (k : ℕ)
      → e.get height_db t k ≡ height_view bs k
      → e.get height_db (inserted b bs t) k ≡ height_view (b ∷ bs) k
  height-inserted b bs t k h =
      rw
        (
          r.get-stored height_db (r.stored block_db t b.id (block_value root end_id b bs))
              (suc (length bs)) (height_whole b.id) k,
          get-height t b.id (block_value root end_id b bs) k,
          h,
        )
        refl

  heights-done :
      (b : Block) (bs : List Block) (t : e.T) (k : ℕ)
      → e.get height_db t k ≡ height_view bs k
      → e.get height_db (done b bs t) k ≡ height_view (b ∷ bs) k
  heights-done b [] t k h = get-height _ _ _ k ∙ get-height _ _ _ k ∙ height-inserted b [] t k h
  heights-done b (c ∷ cs) t k h =
      get-height _ _ _ k ∙ get-height _ _ _ k ∙ height-inserted b (c ∷ cs) t k h

  blocks-done :
      (b : Block) (bs : List Block) (t : e.T) (j : Uuid)
      → Proper root (b ∷ bs)
      → e.get block_db t j ≡ block_view root bs j
      → e.get block_db (done b bs t) j ≡ block_view root (b ∷ bs) j
  blocks-done b [] t j p h =
      rw
        (
          r.get-stored block_db _ end_id (block_whole (end_block b.id 1) []) j,
          r.get-stored block_db (inserted b [] t) begin_id (block_whole (start_block b.id) []) j,
          get-inserted b [] t j,
          h,
        )
        (create-view root b j p.1)
  blocks-done b (c ∷ cs) t j p h =
      rw
        (
          r.get-stored block_db _ end_id (block_whole (end_block b.id (suc (suc (length cs)))) [])
              j,
          r.get-stored block_db (inserted b (c ∷ cs) t) c.id (block_value root b.id c cs) j,
          get-inserted b (c ∷ cs) t j,
          h,
        )
        (extend-view root b c cs j p)

  links-NewestLinks :
      (b : Block) (bs : List Block) (t : e.T)
      → IsChain root (e.get block_db t) (e.get height_db t) bs
      → Proper root (b ∷ bs)
      → NewestLinks bs (inserted b bs t)
  links-NewestLinks b [] t h p = tt
  links-NewestLinks b (c ∷ cs) t h p =
      rw (get-inserted b (c ∷ cs) t c.id, h.blocks c.id) (ground (arith, p.0, p.2.1))

  other :
      (b : Block) (bs : List Block) (t : e.T) (d : Name) (j : ℕ)
      → (handle block_db == handle d) ≡ false
      → (handle height_db == handle d) ≡ false
      → e.get d (done b bs t) j ≡ e.get d t j
  other b [] t d j nb nh =
      get-stored_other r block_db d _ _ _ j nb
      ∙ get-stored_other r block_db d _ _ _ j nb
      ∙ get-stored_other r height_db d _ _ _ j nh
      ∙ get-stored_other r block_db d _ _ _ j nb
  other b (c ∷ cs) t d j nb nh =
      get-stored_other r block_db d _ _ _ j nb
      ∙ get-stored_other r block_db d _ _ _ j nb
      ∙ get-stored_other r height_db d _ _ _ j nh
      ∙ get-stored_other r block_db d _ _ _ j nb

  -- A block that is new is on top of the chain then, and the other databases are as they were.
  pub insert-extends :
      (b : Block) (bs : List Block) (t : e.T)
      → IsChain root (e.get block_db t) (e.get height_db t) bs
      → known b.id bs ≡ false
      → reserved root b.id ≡ false
      → (t' : e.T) × ((insert b bs >> link_block e b.id (suc (length bs)) (end_of bs)) t
          ≡ (ok tt, t'))
        × IsChain root (e.get block_db t') (e.get height_db t') (b ∷ bs)
        × ((d : Name) (j : ℕ)
            → (handle block_db == handle d) ≡ false
            → (handle height_db == handle d) ≡ false
            → e.get d t' j ≡ e.get d t j)
  insert-extends b bs t c new free =
      let p : Proper root (b ∷ bs) = (new, free, c.proper) in
      (
        done b bs t,
        rw (insert-inserted b bs t c new free)
            (link-linked b bs (inserted b bs t) (links-NewestLinks b bs t c p)),
        record {
          blocks = λ j. blocks-done b bs t j p (c.blocks j);
          heights = λ k. heights-done b bs t k (c.heights k);
          proper = p;
        },
        λ d j nb nh. other b bs t d j nb nh,
      )
