-- ===== src/Bitcap/Examples.antt =====
-- Capability sets, at concrete sets.
use v_c_agentd.Prelude.{◌≡◌, refl, true, false, ◌&&◌, [], ◌∷◌, arith}
use v_c_agentd.Bitcap.{word, isset, change, set_true, set_false, intersect}
use v_c_agentd.Bitcap.Laws.{isset-intersect, isset-set_false}

set_true_example : isset (set_true (0 ∷ 0 ∷ []) 40) 40 ≡ true
unfolding isset word change set_true
set_true_example = refl

isset-intersect_example :
    isset (intersect (12 ∷ []) (10 ∷ [])) 3 ≡ (isset (12 ∷ []) 3 && isset (10 ∷ []) 3)
isset-intersect_example = isset-intersect (12 ∷ []) (10 ∷ []) 3 refl

isset-set_false_example : isset (set_false (12 ∷ []) 3) 3 ≡ false
isset-set_false_example = isset-set_false (12 ∷ []) 3 (omega arith)
