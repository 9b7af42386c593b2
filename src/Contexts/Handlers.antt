-- ===== src/Contexts/Handlers.antt =====
-- The handler that creates a child context, on a sound instance.
use v_c_agentd.Prelude.{
  ℕ, suc, ◌≡◌, ◌⊎◌, refl, ap, sym, ◌∙◌, Bool, true, false, List, [], ◌∷◌, ◌==◌, arith, length,
  ==_refl, Bool-cases, inl, inr,
}
use mathlib.Core.Path.{subst}
use v_c_agentd.Wire.{Bytes, put32}
use v_c_agentd.Status.{Status, Result, ok, err, out_of_child_instances, not_authorized}
use v_c_agentd.Bitcap.{Caps, isset, set_false, intersect}
use v_c_agentd.Bitcap.Laws.{isset-set_false}
use v_c_agentd.Contexts.{
  Child, Instance, cap_child_context_create, cleared, assign, child_details_create,
  child_details_delete, child_context_caps, finish_create, fill_child,
}
use v_c_agentd.Contexts.Free.{Chained, IsSound, Chained-frame, free_apart}
use v_c_agentd.Contexts.Slots.{taken-IsSound, put_back-IsSound}

-- a slot that was assigned twice
assign_twice :
    (i : ℕ) (c d : Child) (children : ℕ → Child) (j : ℕ)
    → assign i d (assign i c children) j ≡ assign i d children j
assign_twice i c d children j = ground arith

-- Where one instance has the slots of the other, one is as sound as the other.
pub same-IsSound :
    (inst inst' : Instance) (free : List ℕ)
    → inst'.apicaps ≡ inst.apicaps
    → inst'.child_head ≡ inst.child_head
    → ((j : ℕ) → inst'.children j ≡ inst.children j)
    → IsSound inst free
    → IsSound inst' free
same-IsSound inst inst' free a h same s = record {
  chained =
      subst (λ k. Chained inst'.children k free) (sym h)
        (Chained-frame inst.children inst'.children inst.child_head free s.chained (λ j m. same j));
  used = λ j b m. ap (λ c. c.dispose) (same j) ∙ s.used j b m;
  bounded = λ j d. s.bounded j (sym (ap (λ c. c.dispose) (same j)) ∙ d);
  sealed = λ j d.
      ap (λ c. isset c.childcaps cap_child_context_create) (same j)
      ∙ s.sealed j (sym (ap (λ c. c.dispose) (same j)) ∙ d);
  sized = ap length a ∙ s.sized;
}

pub length-intersect : (xs ys : Caps) → length xs ≡ length ys → length (intersect xs ys) ≡ length xs
unfolding intersect
length-intersect [] [] h = refl
length-intersect [] (y ∷ ys) h = refl
length-intersect (x ∷ xs) [] h = absurd (omega arith)
length-intersect (x ∷ xs) (y ∷ ys) h = ap suc (length-intersect xs ys (omega arith))

-- The capabilities that a child gets are the root's and the requested ones, less the creation of
-- contexts.
caps_cases :
    (apicaps childcaps caps : Caps)
    → (child_context_caps apicaps childcaps caps ≡ err not_authorized)
      ⊎ (child_context_caps apicaps childcaps caps
          ≡ ok (set_false (intersect apicaps caps) cap_child_context_create))
unfolding child_context_caps
caps_cases apicaps childcaps caps = elim (Bool-cases (isset apicaps cap_child_context_create)) [
  | inr cannot ↦ inl (rw cannot)
  | inl may ↦ elim (Bool-cases (isset childcaps cap_child_context_create)) [
    | inr cannot ↦ inl (rw (may, cannot))
    | inl also ↦ inr (rw (may, also))
  ]
]

sealed_caps :
    (inst : Instance) (caps : Caps)
    → length inst.apicaps ≡ 1
    → length caps ≡ 1
    → isset
        (set_false (intersect inst.apicaps caps) cap_child_context_create)
        cap_child_context_create
      ≡ false
sealed_caps inst caps a b =
    isset-set_false (intersect inst.apicaps caps) cap_child_context_create
      (omega (arith, length-intersect inst.apicaps caps (omega arith)))

-- The slots in use of the first instance are the same in the second.
abbrev pub Keeps : Instance → Instance → Type 0
Keeps inst inst' = (j : ℕ) → (inst.children j).dispose ≡ true → inst'.children j ≡ inst.children j

-- What the creation of a context comes to: an error, with the free list as it was; or the index of the
-- slot that was the first free one, which now has the capabilities. No slot in use changes.
abbrev pub Created : Instance → List ℕ → Caps → Result Bytes × Instance → Type 0
Created inst free caps x =
    ((e : Status) × (x.0 ≡ err e) × IsSound x.1 free × Keeps inst x.1)
    ⊎ ((i : ℕ) × (rest : List ℕ) × (free ≡ i ∷ rest)
        × (x.0 ≡ ok (put32 i))
        × IsSound x.1 rest
        × ((x.1.children i).dispose ≡ true)
        × ((x.1.children i).childcaps
            ≡ set_false (intersect inst.apicaps caps) cap_child_context_create)
        × Keeps inst x.1)

module _ (inst : Instance) (i : ℕ) (free : List ℕ) (s : IsSound inst (i ∷ free)) (caps : Caps)
    (one : length caps ≡ 1) where
  -- the instance with the first free slot in use
  abbrev with_slot : Caps → Instance
  with_slot c = record inst {
    child_head = (inst.children i).next;
    children = assign i (record cleared { dispose = true; childcaps = c }) inst.children;
  }

  record IsSlotted (inst' : Instance) (c : Caps) : Type 0 where
    same_apicaps : inst'.apicaps ≡ inst.apicaps
    same_head : inst'.child_head ≡ (inst.children i).next
    same_children : (j : ℕ) → inst'.children j ≡ (with_slot c).children j

  -- an instance with the capabilities of the slot assigned
  abbrev recap : Caps → Instance → Instance
  recap d inst' = record inst' {
    children = assign i (record (inst'.children i) { childcaps = d }) inst'.children;
  }

  recap-IsSlotted :
      (inst' : Instance) (c d : Caps) → IsSlotted inst' c → IsSlotted (recap d inst') d
  recap-IsSlotted inst' c d k = record {
    same_apicaps = k.same_apicaps;
    same_head = k.same_head;
    same_children = λ j. elim (Bool-cases (i == j)) [
      | inl hit ↦ rw (hit, k.same_children i, ==_refl i)
      | inr miss ↦ rw miss (k.same_children j ∙ rw miss)
    ];
  }

  deleted-IsSound :
      (inst' : Instance) (c : Caps)
      → IsSlotted inst' c
      → IsSound (child_details_delete i inst') (i ∷ free)
  unfolding child_details_delete
  deleted-IsSound inst' c k =
      same-IsSound _ (child_details_delete i inst') (i ∷ free) k.same_apicaps refl
        (λ j. rw k.same_head (ground (arith, k.same_children j))) (put_back-IsSound inst i free s)

  slotted-Keeps : (inst' : Instance) (c : Caps) → IsSlotted inst' c → Keeps inst inst'
  slotted-Keeps inst' c k j used =
      ground (arith, k.same_children j, free_apart inst.children i j s.chained.1 used)

  deleted-Keeps :
      (inst' : Instance) (c : Caps) → IsSlotted inst' c → Keeps inst (child_details_delete i inst')
  unfolding child_details_delete
  deleted-Keeps inst' c k j used =
      ground (arith, k.same_children j, free_apart inst.children i j s.chained.1 used)

  finish_create-Created :
      (memory : Bool) (x : Result Caps) (inst' : Instance) (c : Caps)
      → IsSlotted inst' c
      → (x ≡ err not_authorized)
        ⊎ (x ≡ ok (set_false (intersect inst.apicaps caps) cap_child_context_create))
      → Created inst (i ∷ free) caps (finish_create memory i x inst')
  unfolding finish_create
  finish_create-Created memory x inst' c k (inl e) =
      subst (λ x. Created inst (i ∷ free) caps (finish_create memory i x inst')) (sym e)
        (inl (_, refl, deleted-IsSound inst' c k, deleted-Keeps inst' c k))
  finish_create-Created false x inst' c k (inr e) =
      let granted = set_false (intersect inst.apicaps caps) cap_child_context_create in
      let k' = recap-IsSlotted inst' c granted k in
      subst (λ x. Created inst (i ∷ free) caps (finish_create false i x inst')) (sym e)
        (inl (
          _,
          refl,
          deleted-IsSound (recap granted inst') granted k',
          deleted-Keeps (recap granted inst') granted k',
        ))
  finish_create-Created true x inst' c k (inr e) =
      let granted = set_false (intersect inst.apicaps caps) cap_child_context_create in
      let k' = recap-IsSlotted inst' c granted k in
      let here : (recap granted inst').children i
          ≡ record cleared { dispose = true; childcaps = granted } =
        k'.same_children i ∙ rw (==_refl i) in
      subst (λ x. Created inst (i ∷ free) caps (finish_create true i x inst')) (sym e)
        (inr (
          i,
          free,
          refl,
          refl,
          same-IsSound _ (recap granted inst') free k'.same_apicaps k'.same_head k'.same_children
              (taken-IsSound inst i free s _ refl (sealed_caps inst caps s.sized one)),
          ap (λ c. c.dispose) here,
          ap (λ c. c.childcaps) here,
          slotted-Keeps (recap granted inst') granted k',
        ))

-- The creation of a context, for every free list.
pub create-Created :
    (memory : Bool) (caps : Caps) (inst : Instance) (free : List ℕ)
    → length caps ≡ 1
    → IsSound inst free
    → Created inst free caps (fill_child memory caps (child_details_create inst))
unfolding fill_child child_details_create
create-Created memory caps inst [] one s =
    let none_left : child_details_create inst ≡ (err out_of_child_instances, inst) =
      simp (child_details_create, s.chained) in
    subst (λ x. Created inst [] caps (fill_child memory caps x)) (sym none_left)
      (inl (_, refl, s, λ j h. refl))
create-Created memory caps inst (i ∷ free) one s =
    let first : child_details_create inst ≡ (ok i, with_slot inst i free s caps one (0 ∷ [])) =
      simp (child_details_create, s.chained.0) in
    subst (λ x. Created inst (i ∷ free) caps (fill_child memory caps x)) (sym first)
      (finish_create-Created inst i free s caps one memory _ _ _
        (recap-IsSlotted inst i free s caps one _ (0 ∷ []) _
          (record { same_apicaps = refl; same_head = refl; same_children = λ j. refl }))
        (caps_cases inst.apicaps _ caps))
