-- ===== src/Contexts/Slots.antt =====
-- The slots of the table, taken off the free list and put back.
use v_c_agentd.Prelude.{
  ℕ, ◌<◌, ◌≡◌, refl, true, false, Option, some, List, ◌∷◌, arith, length, ==_refl,
}
use v_c_agentd.Bitcap.{isset}
use v_c_agentd.Contexts.{
  Child, Instance, cap_child_context_create, max_child_contexts, cleared, assign,
}
use v_c_agentd.Contexts.Free.{has, Chained, IsSound, Chained-frame, Chained-closed}

-- A slot is cleared and put in front of the chain of the other free ones.
freed-IsSound :
    (inst : Instance) (i : ℕ) (free : List ℕ) (n : Option ℕ)
    → Chained inst.children n free
    → has i free ≡ false
    → i < max_child_contexts
    → ((j : ℕ)
        → j < max_child_contexts
        → has j (i ∷ free) ≡ false
        → (inst.children j).dispose ≡ true)
    → ((j : ℕ) → (inst.children j).dispose ≡ true → j < max_child_contexts)
    → ((j : ℕ)
        → (inst.children j).dispose ≡ true
        → isset (inst.children j).childcaps cap_child_context_create ≡ false)
    → length inst.apicaps ≡ 1
    → IsSound
        (record inst {
          child_head = some i;
          children = assign i (record cleared { next = n }) inst.children;
        })
        (i ∷ free)
freed-IsSound inst i free n chained fresh b used bounded sealed sized = record {
  chained = (
    refl,
    rw (==_refl i),
    fresh,
    b,
    rw (==_refl i)
        (Chained-frame inst.children children' n free chained (λ j m. ground (arith, fresh))),
  );
  used = λ j c m. ground (arith, used j);
  bounded = λ j h. ground (arith, bounded j);
  sealed = λ j h. ground (arith, sealed j);
  sized = sized;
}
  where
    children' : ℕ → Child
    children' = assign i (record cleared { next = n }) inst.children

module _ (inst : Instance) (i : ℕ) (free : List ℕ) (s : IsSound inst (i ∷ free)) where
  -- The first free slot is taken into use.
  pub taken-IsSound :
      (slot : Child)
      → slot.dispose ≡ true
      → isset slot.childcaps cap_child_context_create ≡ false
      → IsSound
          (record inst {
            child_head = (inst.children i).next;
            children = assign i slot inst.children;
          })
          free
  taken-IsSound slot used sealed = record {
    chained =
        Chained-frame inst.children (assign i slot inst.children) (inst.children i).next free
          s.chained.4 (λ j m. ground (arith, s.chained.2));
    used = λ j b m. ground (arith, s.used j);
    bounded = λ j h. ground (arith, s.bounded j, s.chained.3);
    sealed = λ j h. ground (arith, s.sealed j);
    sized = s.sized;
  }

  -- The first free slot is cleared, and stays free.
  pub put_back-IsSound :
      IsSound
        (record inst {
          child_head = some i;
          children = assign i (record cleared { next = (inst.children i).next }) inst.children;
        })
        (i ∷ free)
  put_back-IsSound =
      freed-IsSound inst i free (inst.children i).next s.chained.4 s.chained.2 s.chained.3 s.used
        s.bounded s.sealed s.sized

-- A slot in use is released, and is then the first free one.
pub release-IsSound :
    (inst : Instance) (i : ℕ) (free : List ℕ)
    → IsSound inst free
    → (inst.children i).dispose ≡ true
    → IsSound
        (record inst {
          child_head = some i;
          children = assign i (record cleared { next = inst.child_head }) inst.children;
        })
        (i ∷ free)
release-IsSound inst i free s used =
    freed-IsSound inst i free inst.child_head s.chained
      (Chained-closed inst.children inst.child_head free i s.chained used) (s.bounded i used)
      (λ j b m. s.used j b (ground arith)) s.bounded s.sealed s.sized
