-- ===== src/Queue/Chain.antt =====
-- What the nodes of `pq_db` stand for: a chain of cells that the `prev` and `next` ids link, from the
-- start node to the end node. The store is seen through its reads.
pub mod Laws
pub mod Insert
pub mod Remove
use v_c_agentd.Prelude.{
  ℕ, ◌+◌, ◌≡◌, Bool, true, false, ◌||◌, List, [], ◌∷◌, ◌++◌, ◌==◌, length, ◌⊎◌, if◌then◌else◌,
}
use v_c_agentd.Wire.{Bytes}
use v_c_agentd.Lmdb.{Get, found, notfound}
use v_c_agentd.Queue.{Uuid, begin_id, end_id, Node, Value, whole}

-- A node without its links.
pub record Cell : Type 0 where
  pub id : Uuid
  pub artifact_id : Uuid
  pub block_id : Uuid
  pub state : ℕ
  pub cert : Bytes

abbrev pub node_of : Cell → Uuid → Uuid → Node
node_of c prev next = record {
  key = c.id;
  prev = prev;
  next = next;
  artifact_id = c.artifact_id;
  block_id = c.block_id;
  txn_cert_size = length c.cert;
  txn_state = c.state;
}

-- the value of a cell between two neighbours
abbrev pub value_of : Cell → Uuid → Uuid → Value
value_of c prev next = whole (node_of c prev next) c.cert

abbrev pub View : Type 0
View = Uuid → Get Value

abbrev pub head_id : List Cell → Uuid → Uuid
head_id [] next = next
head_id (c ∷ cs) next = c.id

abbrev pub last_id : Uuid → List Cell → Uuid
last_id prev [] = prev
last_id prev (c ∷ cs) = last_id c.id cs

-- the cells are linked in this order, behind `prev` and in front of `next`
abbrev pub Linked : View → Uuid → List Cell → Uuid → Type 0
Linked g prev [] next = Unit
Linked g prev (c ∷ cs) next =
    (g c.id ≡ found (value_of c prev (head_id cs next))) × Linked g c.id cs next

abbrev pub has : Uuid → List Cell → Bool
has j [] = false
has j (c ∷ cs) = (c.id == j) || has j cs

abbrev pub Distinct : List Cell → Type 0
Distinct [] = Unit
Distinct (c ∷ cs) = (has c.id cs ≡ false) × Distinct cs

abbrev pub sentinel : Uuid → Cell
sentinel k = record { id = k; artifact_id = 0; block_id = 0; state = 0; cert = [] }

-- the transactions with the start and the end node round them
abbrev pub with_ends : List Cell → List Cell
with_ends cs = sentinel begin_id ∷ (cs ++ sentinel end_id ∷ [])

-- The store holds a queue of these transactions: their nodes and the two sentinels are linked in
-- order, no id stands twice, and the store holds nothing else.
pub record IsQueue (g : View) (cs : List Cell) : Type 0 where
  pub linked : Linked g begin_id (with_ends cs) end_id
  pub distinct : Distinct (with_ends cs)
  pub only : (j : Uuid) → has j (with_ends cs) ≡ false → g j ≡ notfound

-- ... or the queue was never used, and there are no transactions.
abbrev pub Holds : View → List Cell → Type 0
Holds g cs = IsQueue g cs ⊎ ((cs ≡ []) × ((j : Uuid) → g j ≡ notfound))

-- the view after a write
abbrev pub written : Uuid → Value → View → View
written k v g j = if k == j then found v else g j
