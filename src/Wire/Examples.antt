-- ===== src/Wire/Examples.antt =====
-- Integers on the wire, at concrete values.
use v_c_agentd.Prelude.{◌≡◌, refl, [], ◌∷◌, ◌++◌, arith}
use v_c_agentd.Wire.{le, from_le, htonl, htonll, put32, get32, put64, get64}
use v_c_agentd.Wire.Laws.{htonll-reverse, htonl-htonl, get32-put32, get64-put64}
use mathlib.Core.List.{reverse}

-- the highest byte is written first
put32_example : put32 258 ≡ 0 ∷ 0 ∷ 1 ∷ 2 ∷ []
unfolding put32 htonl le from_le
put32_example = refl

htonll-reverse_example : htonll 258 ≡ from_le (reverse (le 8 258))
htonll-reverse_example = htonll-reverse 258

htonl-htonl_example : htonl (htonl 258) ≡ 258
htonl-htonl_example = htonl-htonl 258 (omega arith)

get32-put32_example : get32 (put32 258 ++ 7 ∷ []) ≡ 258
get32-put32_example = get32-put32 258 (7 ∷ []) (omega arith)

get64-put64_example : get64 (put64 258 ++ 7 ∷ []) ≡ 258
get64-put64_example = get64-put64 258 (7 ∷ []) (omega arith)
