-- ===== src/Service/Laws.antt =====
-- What the service does with a packet.
use v_c_agentd.Prelude.{◌≡◌, refl, sym, ap, ◌∙◌, ◌<◌, ◌^◌, Bool, true, false, ◌++◌, [], ◌∷◌, arith}
use v_c_agentd.Wire.{Bytes, put32, put64}
use v_c_agentd.Status.{Status, success, external, Result, ok}
use v_c_agentd.Status.Code.{status_code}
use v_c_agentd.Method.{
  Method, method_id, ll_root_context_create, ll_root_context_reduce_caps, ll_child_context_create,
  ll_child_context_close, app_global_setting_read, app_global_setting_write,
  app_block_id_latest_read, app_block_read, app_transaction_read, app_pq_transaction_submit,
  app_pq_transaction_promote, app_pq_transaction_first_read, app_pq_transaction_read,
  app_pq_transaction_drop, app_artifact_read, app_block_write, app_block_id_by_height_read,
}
use v_c_agentd.Codec.{
  Request, root_context_init, root_context_reduce_caps, child_context_create, child_context_close,
  global_setting_get, global_setting_set, transaction_submit, transaction_get_first,
  transaction_get, transaction_drop, transaction_promote, payload_artifact_read, block_make,
  block_read, block_id_by_height_read, block_id_latest_read, canonized_transaction_get,
}
use v_c_agentd.Codec.Encode.{flag}
use v_c_agentd.Codec.Layout.{layout, IsValid, decoders}
use v_c_agentd.Codec.Dispatch.{Handlers, switch, decode_and_dispatch}
use v_c_agentd.Codec.DecodeLaws.{dispatch-method, decode-layout}
use v_c_agentd.Service.{Setup, Handler, serve, service}

-- the method of a request
abbrev pub method_of : Request → Method
method_of (root_context_init s d) = ll_root_context_create
method_of (root_context_reduce_caps c) = ll_root_context_reduce_caps
method_of (child_context_create c) = ll_child_context_create
method_of (child_context_close i) = ll_child_context_close
method_of (global_setting_get i k) = app_global_setting_read
method_of (global_setting_set i k v) = app_global_setting_write
method_of (transaction_submit i x a c) = app_pq_transaction_submit
method_of (transaction_get_first i) = app_pq_transaction_first_read
method_of (transaction_get i x) = app_pq_transaction_read
method_of (transaction_drop i x) = app_pq_transaction_drop
method_of (transaction_promote i x) = app_pq_transaction_promote
method_of (payload_artifact_read i a) = app_artifact_read
method_of (block_make i b c) = app_block_write
method_of (block_read i b r) = app_block_read
method_of (block_id_by_height_read i h) = app_block_id_by_height_read
method_of (block_id_latest_read i) = app_block_id_latest_read
method_of (canonized_transaction_get i x r) = app_transaction_read

-- the requests that `serve` handles
abbrev pub operates : Request → Bool
operates (root_context_init s d) = false
operates (root_context_reduce_caps c) = false
operates (child_context_create c) = false
operates (child_context_close i) = false
operates r = true

module _ (s : Setup) (root_create : Bytes → Handler s) where
  abbrev pub handlers : Handlers (Handler s)
  handlers = service s root_create

  -- the packet of a method goes to its handler, as it goes to its decoder
  through :
      (m : Method) (payload : Bytes) (r : Request) (d : Result Request)
      → switch handlers (method_id m) payload ≡ serve s m d
      → switch decoders (method_id m) payload ≡ d
      → decode_and_dispatch decoders (put32 (method_id m) ++ payload) ≡ ok r
      → decode_and_dispatch handlers (put32 (method_id m) ++ payload) ≡ serve s m (ok r)
  through m payload r d to_handler to_decoder decoded =
      dispatch-method handlers m payload
      ∙ to_handler
      ∙ ap (serve s m) (sym to_decoder ∙ sym (dispatch-method decoders m payload) ∙ decoded)

  -- The packet of a valid request of an operation is served as that request.
  pub dispatch-serve :
      (r : Request)
      → IsValid r
      → operates r ≡ true
      → decode_and_dispatch handlers (layout r) ≡ serve s (method_of r) (ok r)
  unfolding switch service
  dispatch-serve (root_context_init x d) v h = cc
  dispatch-serve (root_context_reduce_caps c) v h = cc
  dispatch-serve (child_context_create c) v h = cc
  dispatch-serve (child_context_close i) v h = cc
  dispatch-serve (global_setting_get i k) v h =
      through app_global_setting_read (put32 i ++ put64 k) _ _ refl refl
        (decode-layout (global_setting_get i k) v)
  dispatch-serve (global_setting_set i k x) v h =
      through app_global_setting_write (put32 i ++ (put64 k ++ x)) _ _ refl refl
        (decode-layout (global_setting_set i k x) v)
  dispatch-serve (transaction_submit i x a c) v h =
      through app_pq_transaction_submit (put32 i ++ (x ++ (a ++ c))) _ _ refl refl
        (decode-layout (transaction_submit i x a c) v)
  dispatch-serve (transaction_get_first i) v h =
      through app_pq_transaction_first_read (put32 i) _ _ refl refl
        (decode-layout (transaction_get_first i) v)
  dispatch-serve (transaction_get i x) v h =
      through app_pq_transaction_read (put32 i ++ x) _ _ refl refl
        (decode-layout (transaction_get i x) v)
  dispatch-serve (transaction_drop i x) v h =
      through app_pq_transaction_drop (put32 i ++ x) _ _ refl refl
        (decode-layout (transaction_drop i x) v)
  dispatch-serve (transaction_promote i x) v h =
      through app_pq_transaction_promote (put32 i ++ x) _ _ refl refl
        (decode-layout (transaction_promote i x) v)
  dispatch-serve (payload_artifact_read i x) v h =
      through app_artifact_read (put32 i ++ x) _ _ refl refl
        (decode-layout (payload_artifact_read i x) v)
  dispatch-serve (block_make i b c) v h =
      through app_block_write (put32 i ++ (b ++ c)) _ _ refl refl
        (decode-layout (block_make i b c) v)
  dispatch-serve (block_read i b q) v h =
      through app_block_read (put32 i ++ (b ++ flag q ∷ [])) _ _ refl refl
        (decode-layout (block_read i b q) v)
  dispatch-serve (block_id_by_height_read i k) v h =
      through app_block_id_by_height_read (put32 i ++ put64 k) _ _ refl refl
        (decode-layout (block_id_by_height_read i k) v)
  dispatch-serve (block_id_latest_read i) v h =
      through app_block_id_latest_read (put32 i) _ _ refl refl
        (decode-layout (block_id_latest_read i) v)
  dispatch-serve (canonized_transaction_get i x q) v h =
      through app_transaction_read (put32 i ++ (x ++ flag q ∷ [])) _ _ refl refl
        (decode-layout (canonized_transaction_get i x q) v)

-- A status is sent as 32 bits.
pub status_code-lt : (e : Status) → status_code e < 2 ^ 32
status_code-lt success = omega arith
status_code-lt (external n) = omega arith
status_code-lt _ = omega arith
