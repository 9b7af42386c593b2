-- ===== src/Responses/Fields.antt =====
-- Fields behind each other in a packet, and where they start.
use v_c_agentd.Prelude.{
  ℕ, zero, suc, ◌+◌, ◌≡◌, refl, ◌∙◌, List, [], ◌∷◌, ◌++◌, length, length-append, take, drop,
  take-append, arith,
}
use v_c_agentd.Wire.{Bytes}
use v_c_agentd.Responses.Packet.{drop-past}

-- the fields, and what follows them
abbrev pub behind : List Bytes → Bytes → Bytes
behind [] rest = rest
behind (f ∷ fs) rest = f ++ behind fs rest

abbrev pub total : List Bytes → ℕ
total [] = 0
total (f ∷ fs) = length f + total fs

pub length-behind :
    (fs : List Bytes) (rest : Bytes) → length (behind fs rest) ≡ total fs + length rest
length-behind [] rest = omega arith
length-behind (f ∷ fs) rest = omega (arith, length-append f (behind fs rest), length-behind fs rest)

pub rest_at :
    (fs : List Bytes) (rest : Bytes) (n : ℕ) → n ≡ total fs → drop n (behind fs rest) ≡ rest
rest_at [] rest zero h = refl
rest_at [] rest (suc n) h = absurd (omega arith)
rest_at (f ∷ fs) rest n h =
    drop-past n (length f) (total fs) f (behind fs rest) h refl ∙ rest_at fs rest (total fs) refl

pub field_at :
    (pre : List Bytes) (f : Bytes) (post : List Bytes) (rest : Bytes) (n k : ℕ)
    → n ≡ total pre
    → length f ≡ k
    → take k (drop n (behind pre (behind (f ∷ post) rest))) ≡ f
field_at pre f post rest n k h e =
    rw (rest_at pre (f ++ behind post rest) n h) (take-append k f (behind post rest) e)
