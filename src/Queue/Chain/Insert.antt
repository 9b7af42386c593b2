-- ===== src/Queue/Chain/Insert.antt =====
-- Chains to whose end a cell is added.
use mathlib.Core.Path.{subst}
use mathlib.Core.List.{append_assoc}
use v_c_agentd.Prelude.{◌≡◌, refl, ap, sym, ◌∙◌, true, false, List, [], ◌∷◌, ◌++◌, arith, ◌==◌}
use v_c_agentd.Lmdb.{found, notfound}
use v_c_agentd.Queue.{Uuid, begin_id, end_id}
use v_c_agentd.Queue.Chain.{
  Cell, value_of, View, last_id, Linked, has, Distinct, sentinel, with_ends, IsQueue, written,
}
use v_c_agentd.Queue.Chain.Laws.{
  has-append, Linked-cut, Linked-replace, Distinct-cut, Distinct-join,
}

module _ {g : View} {cs : List Cell} (q : IsQueue g cs) (pre : List Cell) (a : Cell)
    (e : sentinel begin_id ∷ cs ≡ pre ++ a ∷ []) where
  abbrev end : Cell
  end = sentinel end_id

  whole_eq : with_ends cs ≡ pre ++ a ∷ end ∷ []
  whole_eq = ap (λ l. l ++ end ∷ []) e ∙ append_assoc pre (a ∷ []) (end ∷ [])

  linked : Linked g begin_id (pre ++ a ∷ end ∷ []) end_id
  linked = subst (λ l. Linked g begin_id l end_id) whole_eq q.linked

  distinct : Distinct (pre ++ a ∷ end ∷ [])
  distinct = subst Distinct whole_eq q.distinct

  -- what the two nodes at the end hold
  pub last_nodes :
      (g a.id ≡ found (value_of a (last_id begin_id pre) end_id))
      × (g end_id ≡ found (value_of end a.id end_id))
      × ((end_id == a.id) ≡ false)
  last_nodes =
      let cut = Linked-cut g begin_id pre (a ∷ end ∷ []) end_id linked in
      let apart = Distinct-cut pre (a ∷ end ∷ []) distinct in (cut.1.0, cut.1.1.0, ground arith)

  module _ (new : Cell) (fresh : has new.id (with_ends cs) ≡ false) where
    pub fresh_parts :
        (has new.id pre ≡ false) × ((a.id == new.id) ≡ false) × ((end_id == new.id) ≡ false)
    fresh_parts =
        let parts : has new.id (pre ++ a ∷ end ∷ []) ≡ false =
          subst (λ l. has new.id l ≡ false) whole_eq fresh in
        ground (arith, has-append new.id pre (a ∷ end ∷ []))

    whole_eq' : with_ends (cs ++ new ∷ []) ≡ pre ++ a ∷ new ∷ end ∷ []
    whole_eq' =
        ap (λ l. l ++ end ∷ []) (ap (λ l. l ++ new ∷ []) e)
        ∙ append_assoc (pre ++ a ∷ []) (new ∷ []) (end ∷ [])
        ∙ append_assoc pre (a ∷ []) (new ∷ end ∷ [])

    module _ (g' : View)
        (after : (j : Uuid)
          → g' j
            ≡ written end_id
                (value_of end new.id end_id)
                (written a.id
                  (value_of a (last_id begin_id pre) new.id)
                  (written new.id (value_of new a.id end_id) g))
                j) where
      same_before : (j : Uuid) → has j pre ≡ true → g' j ≡ g j
      same_before j h =
          let apart = (Distinct-cut pre (a ∷ end ∷ []) distinct).2 j h in
          ground (arith, after j, fresh_parts.0)

      new_nodes : Linked g' (last_id begin_id pre) (a ∷ new ∷ end ∷ []) end_id
      new_nodes = (
        ground (arith, after a.id, last_nodes.2, fresh_parts),
        (ground (arith, after new.id, fresh_parts), (ground (arith, after end_id), tt)),
      )

      linked' : Linked g' begin_id (pre ++ a ∷ new ∷ end ∷ []) end_id
      linked' =
          Linked-replace g g' begin_id pre (a ∷ end ∷ []) (a ∷ new ∷ end ∷ []) [] end_id linked
            (λ k. refl) (λ k. refl) same_before (λ j h. cc) new_nodes

      distinct' : Distinct (pre ++ a ∷ new ∷ end ∷ [])
      distinct' =
          let cut = Distinct-cut pre (a ∷ end ∷ []) distinct in
          Distinct-join pre (a ∷ new ∷ end ∷ []) cut.0
            (ground (arith, fresh_parts, cut.1), (ground (arith, fresh_parts), (refl, tt)))
            (λ j h. ground (arith, cut.2 j h, fresh_parts))

      only' : (j : Uuid) → has j (pre ++ a ∷ new ∷ end ∷ []) ≡ false → g' j ≡ notfound
      only' j h =
          let old : has j (pre ++ a ∷ end ∷ []) ≡ false → g j ≡ notfound =
            subst (λ l. has j l ≡ false → g j ≡ notfound) whole_eq (q.only j) in
          ground (
            arith,
            after j,
            old,
            has-append j pre (a ∷ new ∷ end ∷ []),
            has-append j pre (a ∷ end ∷ []),
          )

      pub insert-IsQueue : IsQueue g' (cs ++ new ∷ [])
      insert-IsQueue = record {
        linked = subst (λ l. Linked g' begin_id l end_id) (sym whole_eq') linked';
        distinct = subst Distinct (sym whole_eq') distinct';
        only = subst (λ l. (j : Uuid) → has j l ≡ false → g' j ≡ notfound) (sym whole_eq') only';
      }

-- The first transaction comes with the two sentinels.
pub create-IsQueue :
    (g g' : View) (new : Cell)
    → ((j : Uuid) → g j ≡ notfound)
    → has new.id (with_ends []) ≡ false
    → ((j : Uuid)
        → g' j
          ≡ written end_id
              (value_of (sentinel end_id) new.id end_id)
              (written begin_id
                (value_of (sentinel begin_id) begin_id new.id)
                (written new.id (value_of new begin_id end_id) g))
              j)
    → IsQueue g' (new ∷ [])
create-IsQueue g g' new unused fresh after = record {
  linked = (
    ground (arith, after begin_id),
    (ground (arith, after new.id, fresh), (ground (arith, after end_id), tt)),
  );
  distinct = (ground (arith, fresh), (ground (arith, fresh), (refl, tt)));
  only = λ j h. ground (arith, after j, unused j);
}
