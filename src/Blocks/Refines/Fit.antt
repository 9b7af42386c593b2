-- ===== src/Blocks/Refines/Fit.antt =====
-- The checks of a block's certificate, against the end node and against the chain.
use v_c_agentd.Prelude.{
  ℕ, suc, ◌≡◌, refl, ◌||◌, Bool, true, false, ◌<◌, ◌^◌, ◌%◌, ◌+◌, List, [], ◌∷◌, ◌==◌, length,
  arith, ap, ==_iff,
}
use mathlib.Core.Bool.{not}
use v_c_agentd.Wire.{Bytes, get64}
use v_c_agentd.Status.{
  Status, ok, guard, ◌>>=◌, ◌>>◌, missing_block_height, invalid_block_height,
  missing_previous_block_uuid, invalid_previous_block_uuid, missing_block_uuid, invalid_block_uuid,
}
use mathlib.Core.Path.{fun_ext}
use v_c_agentd.Status.Ensures.{
  Ensures, holds, refused, anything, Ensures-ok, Ensures-bind, Ensures-guard,
}
use v_c_agentd.Queue.{Uuid, begin_id, end_id}
use v_c_agentd.Blocks.Certs.{
  Certificates, field, uuid_of, block_height, previous_block_uuid, block_uuid,
  constraint_matching_block_height, constraint_matching_prev_uuid, constraint_sane_block_uuid,
}
use v_c_agentd.Blocks.Chain.{Block, end_of, parent_id, reserved}
use v_c_agentd.Blocks.Ledger.{fit_height, fit_prev, fit_id}

small : (n : ℕ) → suc n < 2 ^ 64 → (1 + n) % 2 ^ 64 ≡ suc n
small n h = omega arith

guards :
    (a b c : Bool) (s : Status)
    → (guard (not a) s >> (guard (not b) s >> guard (not c) s)) ≡ guard (not (a || b || c)) s
unfolding guard ◌>>◌ ◌>>=◌
guards true b c s = refl
guards false true c s = refl
guards false false c s = refl

not-free : (b : Bool) (s : Status) → Ensures (λ _. b ≡ false) (guard (not b) s)
unfolding guard
not-free true s = refused
not-free false s = holds refl

module _ (c : Certificates) (block_data : Bytes) where
  pub height-fit :
      (bs : List Block)
      → suc (length bs) < 2 ^ 64
      → constraint_matching_block_height c block_data (end_of bs) ≡ fit_height c block_data bs
  unfolding constraint_matching_block_height fit_height
  height-fit [] bound = refl
  height-fit (b ∷ bs) bound =
      ap
        (λ n. field c block_data block_height 8 missing_block_height >>= λ raw.
          guard (get64 raw == n) invalid_block_height >> ok n)
        (small (suc (length bs)) bound)

  pub prev-fit :
      (bs : List Block)
      → constraint_matching_prev_uuid c block_data (end_of bs) ≡ fit_prev c block_data bs
  unfolding constraint_matching_prev_uuid fit_prev
  prev-fit [] = refl
  prev-fit (b ∷ bs) = refl

  pub id-fit : (id : Uuid) → constraint_sane_block_uuid c block_data id ≡ fit_id c block_data id
  unfolding constraint_sane_block_uuid fit_id
  id-fit id =
      ap (λ k. field c block_data block_uuid 16 missing_block_uuid >>= k)
        (fun_ext λ raw.
          rw (guards (id == c.root_block) (id == begin_id) (id == end_id) invalid_block_uuid) refl)

  pub fit_height-ok :
      (bs : List Block) (height : ℕ)
      → fit_height c block_data bs ≡ ok height
      → height ≡ suc (length bs)
  unfolding fit_height
  fit_height-ok bs height h =
      Ensures-ok {P = λ height. height ≡ suc (length bs)}
        (Ensures-bind (anything (field c block_data block_height 8 missing_block_height)) λ raw _.
          Ensures-guard (get64 raw == suc (length bs)) invalid_block_height λ eq. holds refl)
        h

  pub fit_prev-ok :
      (bs : List Block) (prev : Uuid)
      → fit_prev c block_data bs ≡ ok prev
      → prev ≡ parent_id c.root_block bs
  unfolding fit_prev
  fit_prev-ok bs prev h =
      Ensures-ok {P = λ prev. prev ≡ parent_id c.root_block bs}
        (Ensures-bind
          (anything (field c block_data previous_block_uuid 16 missing_previous_block_uuid))
          λ raw _.
            Ensures-guard (uuid_of raw == parent_id c.root_block bs) invalid_previous_block_uuid
              λ eq. holds ((==_iff (uuid_of raw) (parent_id c.root_block bs)).0 eq))
        h

  pub fit_id-ok : (id : Uuid) → fit_id c block_data id ≡ ok tt → reserved c.root_block id ≡ false
  unfolding fit_id
  fit_id-ok id h =
      Ensures-ok {P = λ _. reserved c.root_block id ≡ false}
        (Ensures-bind (anything (field c block_data block_uuid 16 missing_block_uuid)) λ raw _.
          Ensures-guard (id == uuid_of raw) invalid_block_uuid
            λ eq. not-free (reserved c.root_block id) invalid_block_uuid)
        h
