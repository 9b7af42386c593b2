-- ===== src/Responses/Packet.antt =====
-- The packet of a response and its parts.
use v_c_agentd.Prelude.{
  ℕ, ◌+◌, ◌<◌, ◌^◌, zero, suc, ◌≡◌, refl, ap, ◌∙◌, Bool, true, false, Option, none, some, [], ◌∷◌,
  ◌++◌, ◌==◌, ==_refl, arith, ltb, length, length-append, drop, take-append, drop-append, take_all,
}
use v_c_agentd.Wire.{Bytes, put32}
use v_c_agentd.Wire.Laws.{get32-put32, drop-put32, length-put32}
use v_c_agentd.Status.{ok, guard, ◌>>=◌, ◌>>◌}
use v_c_agentd.Responses.{read_header}

pub length-append_bytes : (xs ys : Bytes) → length (xs ++ ys) ≡ length xs + length ys
length-append_bytes = length-append

pub ruleset lengths = (arith, length-append_bytes, length-put32)

-- What is dropped goes past a prefix.
pub drop-past :
    (k n m : ℕ) (xs ys : Bytes) → k ≡ n + m → length xs ≡ n → drop k (xs ++ ys) ≡ drop m ys
drop-past k zero m [] ys e h = ap (λ j. drop j ys) (omega arith)
drop-past k zero m (x ∷ xs) ys e h = absurd (omega arith)
drop-past k (suc n) m [] ys e h = absurd (omega arith)
drop-past zero (suc n) m (x ∷ xs) ys e h = absurd (omega arith)
drop-past (suc k) (suc n) m (x ∷ xs) ys e h = drop-past k n m xs ys (omega arith) (omega arith)

-- the packet of a response
abbrev pub packet : ℕ → ℕ → ℕ → Bytes → Bytes
packet method offset status body = put32 method ++ (put32 offset ++ (put32 status ++ body))

module _ (method offset status : ℕ) (body : Bytes) (hm : method < 2 ^ 32) (ho : offset < 2 ^ 32)
    (hs : status < 2 ^ 32) where
  pub length-packet : length (packet method offset status body) ≡ 12 + length body
  length-packet = omega lengths

  behind_method : drop 4 (packet method offset status body) ≡ put32 offset ++ (put32 status ++ body)
  behind_method = drop-put32 method (put32 offset ++ (put32 status ++ body))

  behind_offset : drop 8 (packet method offset status body) ≡ put32 status ++ body
  behind_offset =
      drop-past 8 4 4 (put32 method) (put32 offset ++ (put32 status ++ body)) refl
        (length-put32 method)
      ∙ drop-put32 offset (put32 status ++ body)

  pub behind_status : drop 12 (packet method offset status body) ≡ body
  behind_status =
      drop-past 12 4 8 (put32 method) (put32 offset ++ (put32 status ++ body)) refl
        (length-put32 method)
      ∙ drop-past 8 4 4 (put32 offset) (put32 status ++ body) refl (length-put32 offset)
      ∙ drop-put32 status body

  pub read_header-packet :
      read_header method (packet method offset status body) ≡ ok (offset, status)
  unfolding read_header guard ◌>>=◌ ◌>>◌
  read_header-packet = rw (
    long,
    get32-put32 method (put32 offset ++ (put32 status ++ body)) hm,
    ==_refl method,
    behind_method,
    behind_offset,
    get32-put32 offset (put32 status ++ body) ho,
    get32-put32 status body hs,
  )
    where
      long : ltb (length (packet method offset status body)) 12 ≡ false
      long = ground (arith, length-packet)
