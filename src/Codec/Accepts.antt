-- ===== src/Codec/Accepts.antt =====
-- Which requests the decoders of dataservice_decode_request_*.c accept.
use v_c_agentd.Prelude.{
  ℕ, ◌<◌, ◌≤◌, ◌≡◌, true, some, arith, ◌==◌, ltb, leb, ==_iff, length, take, drop, length-take_le,
  length-drop_add,
}
use mathlib.Core.Bool.{not}
use v_c_agentd.Wire.{Bytes, get32}
use v_c_agentd.Wire.Laws.{get32-lt, get64-lt}
use v_c_agentd.Status.{ok}
use v_c_agentd.Status.Ensures.{
  Ensures, holds, refused, Ensures-ok, Ensures-guard, Ensures-if, Ensures-bind, Ensures-non_null,
}
use v_c_agentd.Codec.{Request}
use v_c_agentd.Codec.Decode.{
  request_init, request_init_empty, decode_request_root_context_init,
  decode_request_root_context_reduce_caps, decode_request_child_context_create,
  decode_request_child_context_close, decode_request_global_setting_get,
  decode_request_global_setting_set, decode_request_transaction_submit,
  decode_request_transaction_get_first, decode_request_transaction_get,
  decode_request_transaction_drop, decode_request_transaction_promote,
  decode_request_payload_artifact_read, decode_request_block_make, decode_request_block_read,
  decode_request_block_id_by_height_read, decode_request_block_id_latest_read,
  decode_request_canonized_transaction_get,
}
use v_c_agentd.Codec.Dispatch.{switch, decode_and_dispatch}
use v_c_agentd.Codec.Layout.{IsValid, IsU32, IsUuid, decoders}

request_init-Ensures : (req : Bytes) → Ensures (λ (i, rest). IsU32 i) (request_init req)
unfolding request_init
request_init-Ensures req = Ensures-guard _ _ λ h. holds (get32-lt req)

-- the size tests, as inequalities
eq_of_test : (n m : ℕ) → (n == m) ≡ true → n ≡ m
eq_of_test n m = (==_iff n m).0

lt_of_test : (n m : ℕ) → not (leb n m) ≡ true → m < n
lt_of_test n m h = ground arith

le_of_test : (n m : ℕ) → not (ltb n m) ≡ true → m ≤ n
le_of_test n m h = ground arith

take-IsUuid : (bs : Bytes) → 16 ≤ length bs → IsUuid (take 16 bs)
take-IsUuid bs h = length-take_le 16 bs h

drop_pos : (n : ℕ) (bs : Bytes) → n < length bs → 0 < length (drop n bs)
drop_pos n bs h = omega (arith, length-drop_add n bs (omega arith))

drop_ids :
    (bs : Bytes) → 32 < length bs → (16 ≤ length (drop 16 bs)) × (0 < length (drop 16 (drop 16 bs)))
drop_ids bs h = (
  omega (arith, length-drop_add 16 bs (omega arith)),
  drop_pos 16 (drop 16 bs) (omega (arith, length-drop_add 16 bs (omega arith))),
)

decode_request_root_context_init-IsValid :
    (req : Bytes)
    → Ensures IsValid (decode_request_root_context_init (some req) (some (λ n. true)) true)
unfolding decode_request_root_context_init
decode_request_root_context_init-IsValid req = Ensures-non_null _ λ breq.
    Ensures-non_null _ λ allocate. Ensures-guard _ _ λ given. Ensures-guard _ _ λ h.
      Ensures-guard _ _
        λ memory. holds (get64-lt breq, drop_pos 8 breq (lt_of_test (length breq) 8 h))

decode_request_root_context_reduce_caps-IsValid :
    (req : Bytes) → Ensures IsValid (decode_request_root_context_reduce_caps (some req))
unfolding decode_request_root_context_reduce_caps
decode_request_root_context_reduce_caps-IsValid req =
    unfold request_init_empty in
    Ensures-non_null _ λ breq. Ensures-guard _ _ λ h. holds (eq_of_test (length breq) 4 h)

decode_request_child_context_create-IsValid :
    (req : Bytes) → Ensures IsValid (decode_request_child_context_create (some req))
unfolding decode_request_child_context_create
decode_request_child_context_create-IsValid req =
    unfold request_init_empty in
    Ensures-non_null _ λ breq. Ensures-guard _ _ λ h. holds (eq_of_test (length breq) 4 h)

decode_request_child_context_close-IsValid :
    (req : Bytes) → Ensures IsValid (decode_request_child_context_close req)
unfolding decode_request_child_context_close
decode_request_child_context_close-IsValid req =
    Ensures-bind (request_init-Ensures req) λ (i, breq) hi. holds hi

decode_request_transaction_get_first-IsValid :
    (req : Bytes) → Ensures IsValid (decode_request_transaction_get_first req)
unfolding decode_request_transaction_get_first
decode_request_transaction_get_first-IsValid req =
    Ensures-bind (request_init-Ensures req) λ (i, breq) hi. holds hi

decode_request_block_id_latest_read-IsValid :
    (req : Bytes) → Ensures IsValid (decode_request_block_id_latest_read req)
unfolding decode_request_block_id_latest_read
decode_request_block_id_latest_read-IsValid req =
    Ensures-bind (request_init-Ensures req) λ (i, breq) hi. holds hi

decode_request_global_setting_get-IsValid :
    (req : Bytes) → Ensures IsValid (decode_request_global_setting_get req)
unfolding decode_request_global_setting_get
decode_request_global_setting_get-IsValid req =
    Ensures-bind (request_init-Ensures req)
      λ (i, breq) hi. Ensures-guard _ _ λ h. holds (hi, get64-lt breq)

decode_request_block_id_by_height_read-IsValid :
    (req : Bytes) → Ensures IsValid (decode_request_block_id_by_height_read req)
unfolding decode_request_block_id_by_height_read
decode_request_block_id_by_height_read-IsValid req =
    Ensures-bind (request_init-Ensures req)
      λ (i, breq) hi. Ensures-guard _ _ λ h. holds (hi, get64-lt breq)

decode_request_global_setting_set-IsValid :
    (req : Bytes) → Ensures IsValid (decode_request_global_setting_set req)
unfolding decode_request_global_setting_set
decode_request_global_setting_set-IsValid req =
    Ensures-bind (request_init-Ensures req) λ (i, breq) hi.
      Ensures-guard _ _ λ h. holds (hi, get64-lt breq, drop_pos 8 breq (lt_of_test _ _ h))

decode_request_transaction_submit-IsValid :
    (req : Bytes) → Ensures IsValid (decode_request_transaction_submit req)
unfolding decode_request_transaction_submit
decode_request_transaction_submit-IsValid req =
    Ensures-bind (request_init-Ensures req) λ (i, breq) hi. Ensures-guard _ _ λ h.
      let long = lt_of_test (length breq) 32 h in
      holds (
        hi,
        take-IsUuid breq (omega arith),
        take-IsUuid (drop 16 breq) (drop_ids breq long).0,
        (drop_ids breq long).1,
      )

decode_request_transaction_get-IsValid :
    (req : Bytes) → Ensures IsValid (decode_request_transaction_get req)
unfolding decode_request_transaction_get
decode_request_transaction_get-IsValid req = Ensures-bind (request_init-Ensures req) λ (i, breq) hi.
    Ensures-guard _ _
      λ h. holds (hi, take-IsUuid breq (omega (arith, eq_of_test (length breq) 16 h)))

decode_request_transaction_drop-IsValid :
    (req : Bytes) → Ensures IsValid (decode_request_transaction_drop req)
unfolding decode_request_transaction_drop
decode_request_transaction_drop-IsValid req =
    Ensures-bind (request_init-Ensures req) λ (i, breq) hi.
      Ensures-guard _ _
        λ h. holds (hi, take-IsUuid breq (omega (arith, eq_of_test (length breq) 16 h)))

decode_request_transaction_promote-IsValid :
    (req : Bytes) → Ensures IsValid (decode_request_transaction_promote req)
unfolding decode_request_transaction_promote
decode_request_transaction_promote-IsValid req =
    Ensures-bind (request_init-Ensures req) λ (i, breq) hi.
      Ensures-guard _ _
        λ h. holds (hi, take-IsUuid breq (omega (arith, eq_of_test (length breq) 16 h)))

decode_request_payload_artifact_read-IsValid :
    (req : Bytes) → Ensures IsValid (decode_request_payload_artifact_read req)
unfolding decode_request_payload_artifact_read
decode_request_payload_artifact_read-IsValid req =
    Ensures-bind (request_init-Ensures req) λ (i, breq) hi.
      Ensures-guard _ _
        λ h. holds (hi, take-IsUuid breq (omega (arith, eq_of_test (length breq) 16 h)))

decode_request_block_read-IsValid : (req : Bytes) → Ensures IsValid (decode_request_block_read req)
unfolding decode_request_block_read
decode_request_block_read-IsValid req = Ensures-bind (request_init-Ensures req) λ (i, breq) hi.
    Ensures-guard _ _
      λ h. holds (hi, take-IsUuid breq (omega (arith, eq_of_test (length breq) 17 h)))

decode_request_canonized_transaction_get-IsValid :
    (req : Bytes) → Ensures IsValid (decode_request_canonized_transaction_get req)
unfolding decode_request_canonized_transaction_get
decode_request_canonized_transaction_get-IsValid req =
    Ensures-bind (request_init-Ensures req) λ (i, breq) hi.
      Ensures-guard _ _
        λ h. holds (hi, take-IsUuid breq (omega (arith, eq_of_test (length breq) 17 h)))

decode_request_block_make-IsValid : (req : Bytes) → Ensures IsValid (decode_request_block_make req)
unfolding decode_request_block_make
decode_request_block_make-IsValid req =
    Ensures-bind (request_init-Ensures req)
      λ (i, breq) hi. Ensures-guard _ _ λ h. holds (hi, take-IsUuid breq (le_of_test _ _ h))

switch-IsValid : (method : ℕ) (payload : Bytes) → Ensures IsValid (switch decoders method payload)
unfolding switch
switch-IsValid method p = Ensures-if _ (decode_request_root_context_init-IsValid p) (
    Ensures-if _ (decode_request_root_context_reduce_caps-IsValid p) (
      Ensures-if _ (decode_request_child_context_create-IsValid p) (
        Ensures-if _ (decode_request_child_context_close-IsValid p) (
          Ensures-if _ (decode_request_global_setting_get-IsValid p) (
            Ensures-if _ (decode_request_global_setting_set-IsValid p) (
              Ensures-if _ (decode_request_transaction_submit-IsValid p) (
                Ensures-if _ (decode_request_transaction_get_first-IsValid p) (
                  Ensures-if _ (decode_request_transaction_get-IsValid p) (
                    Ensures-if _ (decode_request_transaction_drop-IsValid p) (
                      Ensures-if _ (decode_request_transaction_promote-IsValid p) (
                        Ensures-if _ (decode_request_payload_artifact_read-IsValid p) (
                          Ensures-if _ (decode_request_block_make-IsValid p) (
                            Ensures-if _ (decode_request_block_read-IsValid p) (
                              Ensures-if _ (decode_request_block_id_by_height_read-IsValid p) (
                                Ensures-if _ (decode_request_block_id_latest_read-IsValid p) (
                                  Ensures-if _ (decode_request_canonized_transaction_get-IsValid p)
                                    (refused)))))))))))))))))

dispatch-IsValid : (req : Bytes) → Ensures IsValid (decode_and_dispatch decoders req)
unfolding decode_and_dispatch
dispatch-IsValid req = Ensures-if _ refused (switch-IsValid (get32 req) (drop 4 req))

-- Every request that the service decodes fits the packet of its method: a child index and integers of
-- their widths, ids of sixteen bytes, capabilities of one word, and no empty setting, transaction
-- certificate or directory.
pub decode_and_dispatch-IsValid :
    (req : Bytes) (r : Request) → decode_and_dispatch decoders req ≡ ok r → IsValid r
decode_and_dispatch-IsValid req r e = Ensures-ok (dispatch-IsValid req) e
