-- ===== src/Queue/Spec/Cut.antt =====
-- Lists of transactions, cut at an id.
use mathlib.Core.Path.{subst}
use v_c_agentd.Prelude.{◌≡◌, refl, ap, true, List, [], ◌∷◌, ◌++◌, arith, ◌==◌, inl, inr, Bool-cases}
use v_c_agentd.Lmdb.{found}
use v_c_agentd.Queue.{Uuid, begin_id, end_id, Value}
use v_c_agentd.Queue.Chain.{Cell, View, value_of, head_id, last_id, has, IsQueue}
use v_c_agentd.Queue.Chain.Remove.{node_at}
use v_c_agentd.Queue.PromoteLaws.{attested}
use v_c_agentd.Queue.Spec.{erase, attest}

-- A list cut at the first transaction of an id.
pub record Cut (k : Uuid) (cs : List Cell) : Type 0 where
  pub before : List Cell
  pub cell : Cell
  pub behind : List Cell
  pub id_eq : cell.id ≡ k
  pub list_eq : cs ≡ before ++ cell ∷ behind
  pub erase_eq : erase k cs ≡ before ++ behind
  pub attest_eq : attest k cs ≡ before ++ attested cell ∷ behind

pub Cut-at : (k : Uuid) (cs : List Cell) → has k cs ≡ true → Cut k cs
unfolding erase attest
Cut-at k [] h = cc
Cut-at k (c ∷ cs) h = elim (Bool-cases (c.id == k)) [
  | inl hit ↦ record {
    before = [];
    cell = c;
    behind = cs;
    id_eq = ground arith;
    list_eq = refl;
    erase_eq = rw hit;
    attest_eq = rw hit;
  }
  | inr miss ↦
      let rest = Cut-at k cs (ground arith) in
      record {
        before = c ∷ rest.before;
        cell = rest.cell;
        behind = rest.behind;
        id_eq = rest.id_eq;
        list_eq = ap (◌∷◌ c) rest.list_eq;
        erase_eq = rw miss (ap (◌∷◌ c) rest.erase_eq);
        attest_eq = rw miss (ap (◌∷◌ c) rest.attest_eq);
      }
]

-- Something is stored for every transaction.
pub stored_at :
    (g : View) (k : Uuid) (cs : List Cell)
    → has k cs ≡ true
    → IsQueue g cs
    → (v : Value) × (g k ≡ found v)
stored_at g k cs present q =
    let cut = Cut-at k cs present in
    (
      value_of cut.cell (last_id begin_id cut.before) (head_id cut.behind end_id),
      subst
          (λ j.
            g j
            ≡ found (value_of cut.cell (last_id begin_id cut.before) (head_id cut.behind end_id)))
          cut.id_eq (node_at g cut.before cut.behind cut.cell (subst (IsQueue g) cut.list_eq q)),
    )
