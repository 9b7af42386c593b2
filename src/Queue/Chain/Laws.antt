-- ===== src/Queue/Chain/Laws.antt =====
-- Chains and their parts.
use v_c_agentd.Prelude.{◌≡◌, refl, ap, sym, ◌∙◌, true, false, ◌||◌, List, [], ◌∷◌, ◌++◌, arith}
use mathlib.Core.Path.{subst}
use v_c_agentd.Queue.{Uuid}
use v_c_agentd.Queue.Chain.{Cell, View, head_id, last_id, Linked, has, Distinct}

pub head_id-append :
    (xs ys : List Cell) (n : Uuid) → head_id (xs ++ ys) n ≡ head_id xs (head_id ys n)
head_id-append [] ys n = refl
head_id-append (x ∷ xs) ys n = refl

pub last_id-append :
    (xs ys : List Cell) (p : Uuid) → last_id p (xs ++ ys) ≡ last_id (last_id p xs) ys
last_id-append [] ys p = refl
last_id-append (x ∷ xs) ys p = last_id-append xs ys x.id

pub has-append : (j : Uuid) (xs ys : List Cell) → has j (xs ++ ys) ≡ (has j xs || has j ys)
has-append j [] ys = refl
has-append j (x ∷ xs) ys = ground (arith, has-append j xs ys)

pub Linked-cut :
    (g : View) (p : Uuid) (xs ys : List Cell) (n : Uuid)
    → Linked g p (xs ++ ys) n
    → Linked g p xs (head_id ys n) × Linked g (last_id p xs) ys n
Linked-cut g p [] ys n l = (tt, l)
Linked-cut g p (x ∷ xs) ys n l =
    let rest = Linked-cut g x.id xs ys n l.1 in
    ((rw (← head_id-append xs ys n) (l.0), rest.0), rest.1)

pub Linked-join :
    (g : View) (p : Uuid) (xs ys : List Cell) (n : Uuid)
    → Linked g p xs (head_id ys n)
    → Linked g (last_id p xs) ys n
    → Linked g p (xs ++ ys) n
Linked-join g p [] ys n l m = m
Linked-join g p (x ∷ xs) ys n l m =
    (rw (head_id-append xs ys n) (l.0), Linked-join g x.id xs ys n l.1 m)

-- A change elsewhere leaves a chain alone.
pub Linked-frame :
    (g g' : View) (p : Uuid) (xs : List Cell) (n : Uuid)
    → Linked g p xs n
    → ((j : Uuid) → has j xs ≡ true → g' j ≡ g j)
    → Linked g' p xs n
Linked-frame g g' p [] n l same = tt
Linked-frame g g' p (x ∷ xs) n l same =
    (same x.id (ground arith) ∙ l.0, Linked-frame g g' x.id xs n l.1 (λ j h. same j (ground arith)))

-- The cells in the middle give way to others that have the same outer ids.
pub Linked-replace :
    (g g' : View) (p : Uuid) (pre mid mid' post : List Cell) (n : Uuid)
    → Linked g p (pre ++ (mid ++ post)) n
    → ((k : Uuid) → head_id mid k ≡ head_id mid' k)
    → ((k : Uuid) → last_id k mid ≡ last_id k mid')
    → ((j : Uuid) → has j pre ≡ true → g' j ≡ g j)
    → ((j : Uuid) → has j post ≡ true → g' j ≡ g j)
    → Linked g' (last_id p pre) mid' (head_id post n)
    → Linked g' p (pre ++ (mid' ++ post)) n
Linked-replace g g' p pre mid mid' post n l heads lasts before behind new =
    let outer = Linked-cut g p pre (mid ++ post) n l in
    let inner = Linked-cut g (last_id p pre) mid post n outer.1 in
    let kept = Linked-frame g g' p pre (head_id (mid ++ post) n) outer.0 before in
    let rest = Linked-frame g g' (last_id (last_id p pre) mid) post n inner.1 behind in
    Linked-join g' p pre (mid' ++ post) n (subst (Linked g' p pre) same_head kept) (
      Linked-join g' (last_id p pre) mid' post n new
        (subst (λ k. Linked g' k post n) (lasts (last_id p pre)) rest))
  where
    same_head : head_id (mid ++ post) n ≡ head_id (mid' ++ post) n
    same_head =
        head_id-append mid post n ∙ heads (head_id post n) ∙ sym (head_id-append mid' post n)

pub Distinct-cut :
    (xs ys : List Cell)
    → Distinct (xs ++ ys)
    → Distinct xs × Distinct ys × ((j : Uuid) → has j xs ≡ true → has j ys ≡ false)
Distinct-cut [] ys d = (tt, d, λ j h. cc)
Distinct-cut (x ∷ xs) ys d =
    let rest = Distinct-cut xs ys d.1 in
    (
      (ground (arith, has-append x.id xs ys), rest.0),
      rest.1,
      λ j h. ground (arith, has-append x.id xs ys, rest.2 j),
    )

pub Distinct-join :
    (xs ys : List Cell)
    → Distinct xs
    → Distinct ys
    → ((j : Uuid) → has j xs ≡ true → has j ys ≡ false)
    → Distinct (xs ++ ys)
Distinct-join [] ys d e apart = e
Distinct-join (x ∷ xs) ys d e apart = (
  ground (arith, has-append x.id xs ys, apart x.id),
  Distinct-join xs ys d.1 e (λ j h. apart j (ground arith)),
)

-- A list that is not empty has a last element.
pub last_cell :
    (x : Cell) (xs : List Cell) → (pre : List Cell) × (a : Cell) × (x ∷ xs ≡ pre ++ a ∷ [])
last_cell x [] = ([], x, refl)
last_cell x (y ∷ ys) = let (pre, a, e) = last_cell y ys in (x ∷ pre, a, ap (◌∷◌ x) e)
