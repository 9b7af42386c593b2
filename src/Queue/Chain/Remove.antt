-- ===== src/Queue/Chain/Remove.antt =====
-- Chains of which a cell is taken out or changed.
use mathlib.Core.Path.{subst}
use mathlib.Core.List.{append_assoc}
use v_c_agentd.Prelude.{
  ◌≡◌, refl, ap, sym, ◌∙◌, true, false, List, [], ◌∷◌, ◌++◌, arith, ◌==◌, ==_refl, if◌then◌else◌, ℕ,
}
use v_c_agentd.Lmdb.{found, notfound}
use v_c_agentd.Queue.{Uuid, begin_id, end_id}
use v_c_agentd.Queue.Chain.{
  Cell, value_of, View, head_id, last_id, Linked, has, Distinct, sentinel, with_ends, IsQueue,
  written,
}
use v_c_agentd.Queue.Chain.Laws.{
  head_id-append, has-append, Linked-cut, Linked-replace, Distinct-cut, Distinct-join,
}

-- the view after a removal
abbrev pub removed_view : Uuid → View → View
removed_view k g j = if k == j then notfound else g j

-- The chain cut behind the transactions `l`.
pub with_ends-append :
    (l r : List Cell) → with_ends (l ++ r) ≡ (sentinel begin_id ∷ l) ++ (r ++ sentinel end_id ∷ [])
with_ends-append l r = ap (◌∷◌ (sentinel begin_id)) (append_assoc l r (sentinel end_id ∷ []))

-- Something stands behind every transaction.
pub first_cell :
    (r : List Cell) → (b : Cell) × (post : List Cell) × (r ++ sentinel end_id ∷ [] ≡ b ∷ post)
first_cell [] = (sentinel end_id, [], refl)
first_cell (b ∷ r) = (b, r ++ sentinel end_id ∷ [], refl)

module _ (g : View) (l r : List Cell) (c : Cell) (q : IsQueue g (l ++ c ∷ r)) (pre post : List Cell)
    (a b : Cell) (e : sentinel begin_id ∷ l ≡ pre ++ a ∷ [])
    (f : r ++ sentinel end_id ∷ [] ≡ b ∷ post) where
  rejoin : (mid : List Cell) → (pre ++ a ∷ []) ++ (mid ++ b ∷ post) ≡ pre ++ a ∷ (mid ++ b ∷ post)
  rejoin mid = append_assoc pre (a ∷ []) (mid ++ b ∷ post)

  whole_eq : with_ends (l ++ c ∷ r) ≡ pre ++ a ∷ c ∷ b ∷ post
  whole_eq =
      with_ends-append l (c ∷ r)
      ∙ ap (λ k. k ++ c ∷ (r ++ sentinel end_id ∷ [])) e
      ∙ ap (λ k. (pre ++ a ∷ []) ++ c ∷ k) f
      ∙ rejoin (c ∷ [])

  whole_eq' : with_ends (l ++ r) ≡ pre ++ a ∷ b ∷ post
  whole_eq' =
      with_ends-append l r
      ∙ ap (λ k. k ++ (r ++ sentinel end_id ∷ [])) e
      ∙ ap (λ k. (pre ++ a ∷ []) ++ k) f
      ∙ rejoin []

  linked : Linked g begin_id (pre ++ a ∷ c ∷ b ∷ post) end_id
  linked = subst (λ k. Linked g begin_id k end_id) whole_eq q.linked

  parts :
      Distinct pre
      × Distinct (a ∷ c ∷ b ∷ post)
      × ((j : Uuid) → has j pre ≡ true → has j (a ∷ c ∷ b ∷ post) ≡ false)
  parts = Distinct-cut pre (a ∷ c ∷ b ∷ post) (subst Distinct whole_eq q.distinct)

  -- what the transaction and its neighbours hold
  pub three_nodes :
      (g a.id ≡ found (value_of a (last_id begin_id pre) c.id))
      × (g c.id ≡ found (value_of c a.id b.id))
      × (g b.id ≡ found (value_of b c.id (head_id post end_id)))
  three_nodes =
      let cut = Linked-cut g begin_id pre (a ∷ c ∷ b ∷ post) end_id linked in
      (cut.1.0, cut.1.1.0, cut.1.1.1.0)

  pub three_ids : ((c.id == a.id) ≡ false) × ((c.id == b.id) ≡ false) × ((a.id == b.id) ≡ false)
  three_ids = let d = parts.1 in ground arith

  module _ (g' : View)
      (after : (j : Uuid)
        → g' j
          ≡ written b.id
              (value_of b a.id (head_id post end_id))
              (written a.id (value_of a (last_id begin_id pre) b.id) (removed_view c.id g))
              j) where
    same_before : (j : Uuid) → has j pre ≡ true → g' j ≡ g j
    same_before j h = ground (arith, after j, parts.2 j h)

    same_behind : (j : Uuid) → has j post ≡ true → g' j ≡ g j
    same_behind j h = let d = parts.1 in ground (arith, after j)

    linked' : Linked g' begin_id (pre ++ a ∷ b ∷ post) end_id
    linked' =
        Linked-replace g g' begin_id pre (a ∷ c ∷ b ∷ []) (a ∷ b ∷ []) post end_id linked
          (λ k. refl) (λ k. refl) same_before same_behind
          (ground (arith, after a.id, three_ids), (ground (arith, after b.id), tt))

    distinct' : Distinct (pre ++ a ∷ b ∷ post)
    distinct' =
        let d = parts.1 in
        Distinct-join pre (a ∷ b ∷ post) parts.0 (ground arith, (ground arith, d.1.1.1))
          (λ j h. ground (arith, parts.2 j h))

    only' : (j : Uuid) → has j (pre ++ a ∷ b ∷ post) ≡ false → g' j ≡ notfound
    only' j h =
        let old : has j (pre ++ a ∷ c ∷ b ∷ post) ≡ false → g j ≡ notfound =
          subst (λ k. has j k ≡ false → g j ≡ notfound) whole_eq (q.only j) in
        ground (
          arith,
          after j,
          old,
          has-append j pre (a ∷ c ∷ b ∷ post),
          has-append j pre (a ∷ b ∷ post),
        )

    pub remove-IsQueue : IsQueue g' (l ++ r)
    remove-IsQueue = record {
      linked = subst (λ k. Linked g' begin_id k end_id) (sym whole_eq') linked';
      distinct = subst Distinct (sym whole_eq') distinct';
      only = subst (λ k. (j : Uuid) → has j k ≡ false → g' j ≡ notfound) (sym whole_eq') only';
    }

module _ (g : View) (l r : List Cell) (c : Cell) (q : IsQueue g (l ++ c ∷ r)) where
  Linked-at : Linked g begin_id ((sentinel begin_id ∷ l) ++ c ∷ (r ++ sentinel end_id ∷ [])) end_id
  Linked-at = subst (λ k. Linked g begin_id k end_id) (with_ends-append l (c ∷ r)) q.linked

  parts_at :
      Distinct (sentinel begin_id ∷ l)
      × Distinct (c ∷ (r ++ sentinel end_id ∷ []))
      × ((j : Uuid)
          → has j (sentinel begin_id ∷ l) ≡ true
          → has j (c ∷ (r ++ sentinel end_id ∷ [])) ≡ false)
  parts_at =
      Distinct-cut (sentinel begin_id ∷ l) (c ∷ (r ++ sentinel end_id ∷ []))
        (subst Distinct (with_ends-append l (c ∷ r)) q.distinct)

  -- what a transaction of the queue holds
  pub node_at : g c.id ≡ found (value_of c (last_id begin_id l) (head_id r end_id))
  node_at =
      (Linked-cut g begin_id (sentinel begin_id ∷ l) (c ∷ (r ++ sentinel end_id ∷ [])) end_id
        Linked-at).1.0
      ∙ ap (λ k. found (value_of c (last_id begin_id l) k))
          (head_id-append r (sentinel end_id ∷ []) end_id)

  -- It is none of the sentinels.
  pub id_inner : ((c.id == begin_id) ≡ false) × ((c.id == end_id) ≡ false)
  id_inner =
      let d = parts_at.1.0 in
      (
        ground (arith, parts_at.2 begin_id refl),
        ground (arith, has-append c.id r (sentinel end_id ∷ [])),
      )

  module _ (s : ℕ) (g' : View)
      (after : (j : Uuid)
        → g' j
          ≡ written c.id
              (value_of (record c { state = s }) (last_id begin_id l) (head_id r end_id))
              g
              j) where
    before_same : (j : Uuid) → has j (sentinel begin_id ∷ l) ≡ true → g' j ≡ g j
    before_same j h = ground (arith, after j, parts_at.2 j h)

    behind_same : (j : Uuid) → has j (r ++ sentinel end_id ∷ []) ≡ true → g' j ≡ g j
    behind_same j h = let d = parts_at.1.0 in ground (arith, after j)

    here :
        g' c.id
        ≡ found (
            value_of
              (record c { state = s })
              (last_id begin_id l)
              (head_id (r ++ sentinel end_id ∷ []) end_id))
    here = rw (head_id-append r (sentinel end_id ∷ []) end_id) (after c.id ∙ rw (==_refl c.id) refl)

    changed-Linked :
        Linked g' begin_id
          ((sentinel begin_id ∷ l) ++ record c { state = s } ∷ (r ++ sentinel end_id ∷ []))
          end_id
    changed-Linked =
        Linked-replace g g' begin_id (sentinel begin_id ∷ l) (c ∷ []) (record c { state = s } ∷ [])
          (r ++ sentinel end_id ∷ []) end_id Linked-at (λ k. refl) (λ k. refl) before_same
          behind_same (here, tt)

    changed_only :
        (j : Uuid)
        → has j ((sentinel begin_id ∷ l) ++ record c { state = s } ∷ (r ++ sentinel end_id ∷ []))
          ≡ false
        → g' j ≡ notfound
    changed_only j h =
        let old : has j ((sentinel begin_id ∷ l) ++ c ∷ (r ++ sentinel end_id ∷ [])) ≡ false
            → g j ≡ notfound =
          subst (λ k. has j k ≡ false → g j ≡ notfound) (with_ends-append l (c ∷ r)) (q.only j) in
        ground (
          arith,
          after j,
          old,
          has-append j (sentinel begin_id ∷ l) (c ∷ (r ++ sentinel end_id ∷ [])),
          has-append j (sentinel begin_id ∷ l)
              (record c { state = s } ∷ (r ++ sentinel end_id ∷ [])),
        )

    -- The queue with the state of one transaction changed.
    pub change-IsQueue : IsQueue g' (l ++ record c { state = s } ∷ r)
    change-IsQueue =
        let back = sym (with_ends-append l (record c { state = s } ∷ r)) in
        record {
          linked = subst (λ k. Linked g' begin_id k end_id) back changed-Linked;
          distinct = subst Distinct back (
              Distinct-join (sentinel begin_id ∷ l)
                (record c { state = s } ∷ (r ++ sentinel end_id ∷ [])) parts_at.0 parts_at.1
                parts_at.2);
          only = subst (λ k. (j : Uuid) → has j k ≡ false → g' j ≡ notfound) back changed_only;
        }
