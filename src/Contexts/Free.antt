-- ===== src/Contexts/Free.antt =====
-- The free list: the slots that are not in use, chained by their `next` indices.
use v_c_agentd.Prelude.{
  ℕ, ◌<◌, ◌≡◌, refl, ap, sym, ◌∙◌, Bool, true, false, ◌||◌, Option, none, some, List, [], ◌∷◌, ◌==◌,
  arith, length, ==_iff, Bool-cases, inl, inr,
}
use mathlib.Core.Path.{subst}
use v_c_agentd.Bitcap.{isset}
use v_c_agentd.Contexts.{Child, Instance, cap_child_context_create, max_child_contexts}

abbrev pub has : ℕ → List ℕ → Bool
has j [] = false
has j (i ∷ is) = (i == j) || has j is

-- the chain from a head through the array: slots that are not in use, each once
abbrev pub Chained : (ℕ → Child) → Option ℕ → List ℕ → Type 0
Chained children head [] = head ≡ none
Chained children head (i ∷ is) =
    (head ≡ some i)
    × ((children i).dispose ≡ false)
    × (has i is ≡ false)
    × (i < max_child_contexts)
    × Chained children (children i).next is

-- The slots of the list are free and all others of the array in use; a context in use may not create
-- contexts; and the root's capabilities have one word.
pub record IsSound (inst : Instance) (free : List ℕ) : Type 0 where
  pub chained : Chained inst.children inst.child_head free
  pub used :
      (j : ℕ) → j < max_child_contexts → has j free ≡ false → (inst.children j).dispose ≡ true
  pub bounded : (j : ℕ) → (inst.children j).dispose ≡ true → j < max_child_contexts
  pub sealed :
      (j : ℕ)
      → (inst.children j).dispose ≡ true
      → isset (inst.children j).childcaps cap_child_context_create ≡ false
  pub sized : length inst.apicaps ≡ 1

pub Chained-frame :
    (children children' : ℕ → Child) (head : Option ℕ) (is : List ℕ)
    → Chained children head is
    → ((j : ℕ) → has j is ≡ true → children' j ≡ children j)
    → Chained children' head is
Chained-frame children children' head [] c same = c
Chained-frame children children' head (i ∷ is) (h, d, n, b, rest) same =
    let here : children' i ≡ children i = same i (ground arith) in
    (
      h,
      ap (λ c. c.dispose) here ∙ d,
      n,
      b,
      subst (λ c. Chained children' c.next is) (sym here)
          (Chained-frame children children' (children i).next is rest
            (λ j m. same j (ground arith))),
    )

-- Slots that differ in their use differ.
pub free_apart :
    (children : ℕ → Child) (i j : ℕ)
    → (children i).dispose ≡ false
    → (children j).dispose ≡ true
    → (i == j) ≡ false
free_apart children i j d used = elim (Bool-cases (i == j)) [
  | inr miss ↦ miss
  | inl hit ↦ ground (arith, sym d ∙ ap (λ k. (children k).dispose) ((==_iff i j).0 hit) ∙ used)
]

-- A free slot is not in use.
pub Chained-closed :
    (children : ℕ → Child) (head : Option ℕ) (is : List ℕ) (j : ℕ)
    → Chained children head is
    → (children j).dispose ≡ true
    → has j is ≡ false
Chained-closed children head [] j c used = refl
Chained-closed children head (i ∷ is) j (h, d, n, b, rest) used =
    let deeper = Chained-closed children (children i).next is j rest used in
    ground (arith, free_apart children i j d used)
