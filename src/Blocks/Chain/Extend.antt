-- ===== src/Blocks/Chain/Extend.antt =====
-- A chain with a block more, and what stands under an id.
use v_c_agentd.Prelude.{
  ℕ, suc, ◌≡◌, refl, true, false, List, [], ◌∷◌, ◌==◌, if◌then◌else◌, length, arith, ◌<◌,
  Bool-cases, inl, inr,
}
use v_c_agentd.Lmdb.{Get, found, notfound}
use v_c_agentd.Queue.{Uuid, begin_id, end_id}
use v_c_agentd.Database.{BlockValue, block_whole, height_whole}
use v_c_agentd.Blocks.Insert.{start_block, end_block}
use v_c_agentd.Blocks.Chain.{
  Block, block_value, nodes_view, block_view, height_view, known, reserved, Proper,
}

-- the view after a write
abbrev pub write : {V : Type 0} → ℕ → V → (ℕ → Get V) → ℕ → Get V
write k v g j = if k == j then found v else g j

pub nodes_view-unknown :
    (root next : Uuid) (bs : List Block) (j : Uuid)
    → known j bs ≡ false
    → nodes_view root next bs j ≡ notfound
nodes_view-unknown root next [] j h = refl
nodes_view-unknown root next (b ∷ bs) j h = ground (arith, nodes_view-unknown root b.id bs j)

pub nodes_view-known :
    (root next : Uuid) (bs : List Block) (j : Uuid)
    → known j bs ≡ true
    → (v : BlockValue) × (nodes_view root next bs j ≡ found v)
nodes_view-known root next [] j h = cc
nodes_view-known root next (b ∷ bs) j h = elim (Bool-cases (b.id == j)) [
  | inl same ↦ (block_value root next b bs, rw same)
  | inr other ↦ let (v, eq) = nodes_view-known root b.id bs j (rw other at h) in (v, rw other eq)
]

pub height_view-above : (bs : List Block) (k : ℕ) → length bs < k → height_view bs k ≡ notfound
height_view-above [] k h = refl
height_view-above (b ∷ bs) k h = ground (arith, height_view-above bs k)

-- `block_db` after the writes for the first block
pub create-view :
    (root : Uuid) (b : Block) (j : Uuid)
    → reserved root b.id ≡ false
    → write end_id
        (block_whole (end_block b.id 1) [])
        (write begin_id
          (block_whole (start_block b.id) [])
          (write b.id (block_value root end_id b []) (block_view root [])))
        j
      ≡ block_view root (b ∷ []) j
create-view root b j h = ground arith

-- ... and after those for a later one
pub extend-view :
    (root : Uuid) (b c : Block) (cs : List Block) (j : Uuid)
    → Proper root (b ∷ c ∷ cs)
    → write end_id
        (block_whole (end_block b.id (suc (suc (length cs)))) [])
        (write c.id
          (block_value root b.id c cs)
          (write b.id (block_value root end_id b (c ∷ cs)) (block_view root (c ∷ cs))))
        j
      ≡ block_view root (b ∷ c ∷ cs) j
extend-view root b c cs j h = ground (arith, h.0, h.1, h.2.1)

-- what stands under the ids that no sentinel has
pub block_view-unknown :
    (root : Uuid) (bs : List Block) (j : Uuid)
    → known j bs ≡ false
    → reserved root j ≡ false
    → block_view root bs j ≡ notfound
block_view-unknown root [] j h free = refl
block_view-unknown root (b ∷ bs) j h free =
    ground (arith, nodes_view-unknown root end_id (b ∷ bs) j h)

pub block_view-known :
    (root : Uuid) (bs : List Block) (j : Uuid)
    → known j bs ≡ true
    → reserved root j ≡ false
    → (v : BlockValue) × (block_view root bs j ≡ found v)
block_view-known root [] j h free = cc
block_view-known root (b ∷ bs) j h free =
    let (v, eq) = nodes_view-known root end_id (b ∷ bs) j h in (v, ground arith)

pub height_view-extend :
    (b : Block) (bs : List Block) (k : ℕ)
    → write (suc (length bs)) (height_whole b.id) (height_view bs) k ≡ height_view (b ∷ bs) k
height_view-extend b bs k = refl
