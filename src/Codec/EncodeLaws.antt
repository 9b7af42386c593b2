-- ===== src/Codec/EncodeLaws.antt =====
-- The encoders of dataservice_encode_request_*.c and the packets.
use v_c_agentd.Prelude.{
  ℕ, zero, suc, ◌+◌, ◌≡◌, refl, ap, true, none, [], ◌∷◌, ◌++◌, arith, ==_iff, length, length-append,
  take-append, take_all,
}
use v_c_agentd.Wire.{Bytes}
use v_c_agentd.Wire.Laws.{length-put32, length-put64}
use v_c_agentd.Status.{ok, guard, non_null, ◌>>=◌, ◌>>◌}
use v_c_agentd.Codec.{
  Target, check_target, fill, Request, root_context_init, root_context_reduce_caps,
  child_context_create, child_context_close, global_setting_get, global_setting_set,
  transaction_submit, transaction_get_first, transaction_get, transaction_drop, transaction_promote,
  payload_artifact_read, block_make, block_read, block_id_by_height_read, block_id_latest_read,
  canonized_transaction_get,
}
use v_c_agentd.Codec.Encode.{
  strlen, encode_request_root_context_init, encode_request_root_context_reduce_caps,
  encode_request_child_context_create, encode_request_child_context_close,
  encode_request_global_settings_get, encode_request_global_settings_set,
  encode_request_transaction_submit, encode_request_transaction_get_first,
  encode_request_transaction_get, encode_request_transaction_drop,
  encode_request_transaction_promote, encode_request_artifact_get, encode_request_block_make,
  encode_request_block_get, encode_request_block_id_by_height_get,
  encode_request_latest_block_id_get, encode_request_canonized_transaction_get,
}
use v_c_agentd.Codec.Layout.{layout, IsText, IsValid, IsEncodable, c_string, encode}

-- The pointers are given, and `vccrypt_buffer_init` finds memory for every size.
pub record IsReady (t : Target) : Type 0 where
  pub buffer : t.buffer ≡ true
  pub alloc_opts : t.alloc_opts ≡ true
  pub memory : (n : ℕ) → t.buffer_init n ≡ none

length-append_bytes : (xs ys : Bytes) → length (xs ++ ys) ≡ length xs + length ys
length-append_bytes = length-append

ruleset lengths = (arith, length-append_bytes, length-put32, length-put64)

strlen-c_string : (d : Bytes) → IsText d → strlen (c_string d) ≡ length d
unfolding strlen
strlen-c_string [] h = refl
strlen-c_string (zero ∷ cs) h = absurd (omega (arith, h.0))
strlen-c_string (suc c ∷ cs) h = ap suc (strlen-c_string cs h.1)

module _ {t : Target} (ready : IsReady t) where
  check_target-ok : check_target t ≡ ok tt
  unfolding check_target guard
  check_target-ok = rw (ready.buffer, ready.alloc_opts)

  fill-ok : (n : ℕ) (parts : Bytes) → length parts ≡ n → fill t n parts ≡ ok parts
  unfolding fill
  fill-ok n parts h = rw (fill, ready.memory n, (==_iff (length parts) n).1 h)

  -- With the pointers given and memory at hand, the encoder of a request that fits its packet
  -- returns that packet: no byte of the buffer is overrun or left unset.
  pub encode-layout : (r : Request) → IsValid r → IsEncodable r → encode t r ≡ ok (layout r)
  unfolding encode_request_root_context_init encode_request_root_context_reduce_caps
      encode_request_child_context_create encode_request_child_context_close
      encode_request_global_settings_get encode_request_global_settings_set
      encode_request_transaction_submit encode_request_transaction_get_first
      encode_request_transaction_get encode_request_transaction_drop
      encode_request_transaction_promote encode_request_artifact_get encode_request_block_make
      encode_request_block_get encode_request_block_id_by_height_get
      encode_request_latest_block_id_get encode_request_canonized_transaction_get guard non_null
      ◌>>=◌ ◌>>◌
  encode-layout (root_context_init s d) (hs, hd) e =
      rw (check_target-ok, strlen-c_string d e, take-append (length d) d (0 ∷ []) refl)
        (fill-ok _ _ (omega lengths))
  encode-layout (root_context_reduce_caps c) h e = rw check_target-ok (fill-ok _ _ (omega lengths))
  encode-layout (child_context_create c) h e = rw check_target-ok (fill-ok _ _ (omega lengths))
  encode-layout (child_context_close i) h e = rw check_target-ok (fill-ok _ _ (omega lengths))
  encode-layout (global_setting_get i k) h e = rw check_target-ok (fill-ok _ _ (omega lengths))
  encode-layout (global_setting_set i k v) h e = rw check_target-ok (fill-ok _ _ (omega lengths))
  encode-layout (transaction_submit i x a c) (hi, hx, ha, hc) e =
      rw (check_target-ok, take_all 16 x hx, take_all 16 a ha) (fill-ok _ _ (omega lengths))
  encode-layout (transaction_get_first i) h e = rw check_target-ok (fill-ok _ _ (omega lengths))
  encode-layout (transaction_get i x) (hi, hx) e =
      rw (check_target-ok, take_all 16 x hx) (fill-ok _ _ (omega lengths))
  encode-layout (transaction_drop i x) (hi, hx) e =
      rw (check_target-ok, take_all 16 x hx) (fill-ok _ _ (omega lengths))
  encode-layout (transaction_promote i x) (hi, hx) e =
      rw (check_target-ok, take_all 16 x hx) (fill-ok _ _ (omega lengths))
  encode-layout (payload_artifact_read i x) (hi, hx) e =
      rw (check_target-ok, take_all 16 x hx) (fill-ok _ _ (omega lengths))
  encode-layout (block_make i b c) (hi, hb) e =
      rw (check_target-ok, take_all 16 b hb) (fill-ok _ _ (omega lengths))
  encode-layout (block_read i b r) (hi, hb) e =
      rw (check_target-ok, take_all 16 b hb) (fill-ok _ _ (omega lengths))
  encode-layout (block_id_by_height_read i k) h e = rw check_target-ok (fill-ok _ _ (omega lengths))
  encode-layout (block_id_latest_read i) h e = rw check_target-ok (fill-ok _ _ (omega lengths))
  encode-layout (canonized_transaction_get i b r) (hi, hb) e =
      rw (check_target-ok, take_all 16 b hb) (fill-ok _ _ (omega lengths))
