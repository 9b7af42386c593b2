-- ===== src/Codec/DecodeLaws.antt =====
-- The decoders of dataservice_decode_request_*.c, behind the switch, and the packets.
use v_c_agentd.Prelude.{
  ℕ, ◌+◌, ◌<◌, ◌^◌, ◌≡◌, ◌∙◌, true, false, [], ◌∷◌, ◌++◌, arith, ◌==◌, ltb, leb, ==_iff, length,
  length-append, take, drop, take-append, drop-append, take_all,
}
use mathlib.Core.List.{append-nil}
use v_c_agentd.Wire.{Bytes, put32, put64, get64}
use v_c_agentd.Wire.Laws.{
  length-put32, length-put64, get32-put32, get64-put64, drop-put32, drop-put64,
}
use v_c_agentd.Status.{ok, guard, non_null, ◌>>=◌, ◌>>◌}
use v_c_agentd.Method.{
  Method, method_id, ll_root_context_create, ll_root_context_reduce_caps, ll_child_context_create,
  ll_child_context_close, app_global_setting_read, app_global_setting_write,
  app_block_id_latest_read, app_block_read, app_transaction_read, app_pq_transaction_submit,
  app_pq_transaction_promote, app_pq_transaction_first_read, app_pq_transaction_read,
  app_pq_transaction_drop, app_artifact_read, app_block_write, app_block_id_by_height_read,
}
use v_c_agentd.Codec.{
  Request, root_context_init, root_context_reduce_caps, child_context_create, child_context_close,
  global_setting_get, global_setting_set, transaction_submit, transaction_get_first,
  transaction_get, transaction_drop, transaction_promote, payload_artifact_read, block_make,
  block_read, block_id_by_height_read, block_id_latest_read, canonized_transaction_get,
}
use v_c_agentd.Codec.Decode.{
  request_init, request_init_empty, decode_request_root_context_init,
  decode_request_root_context_reduce_caps, decode_request_child_context_create,
  decode_request_child_context_close, decode_request_global_setting_get,
  decode_request_global_setting_set, decode_request_transaction_submit,
  decode_request_transaction_get_first, decode_request_transaction_get,
  decode_request_transaction_drop, decode_request_transaction_promote,
  decode_request_payload_artifact_read, decode_request_block_make, decode_request_block_read,
  decode_request_block_id_by_height_read, decode_request_block_id_latest_read,
  decode_request_canonized_transaction_get,
}
use v_c_agentd.Codec.Dispatch.{Handlers, switch, decode_and_dispatch}
use v_c_agentd.Codec.Encode.{flag}
use v_c_agentd.Codec.Layout.{layout, IsValid, IsU32, IsU64, decoders}

length-append_bytes : (xs ys : Bytes) → length (xs ++ ys) ≡ length xs + length ys
length-append_bytes = length-append

ruleset lengths = (arith, length-append_bytes, length-put32, length-put64)

put32-long : (x : ℕ) (rest : Bytes) → ltb (length (put32 x ++ rest)) 4 ≡ false
put32-long x rest = ground (arith, length-append_bytes (put32 x) rest, length-put32 x)

-- The method id selects the handler, which is given the payload.
dispatch-put32 :
    {R : Type 0} (h : Handlers R) (m : ℕ) (payload : Bytes)
    → m < 2 ^ 32
    → decode_and_dispatch h (put32 m ++ payload) ≡ switch h m payload
unfolding decode_and_dispatch
dispatch-put32 h m payload lt =
    rw (put32-long m payload, get32-put32 m payload lt, drop-put32 m payload)

method_id-lt : (m : Method) → method_id m < 2 ^ 32
method_id-lt ll_root_context_create = omega arith
method_id-lt _ = omega arith

pub dispatch-method :
    {R : Type 0} (h : Handlers R) (m : Method) (payload : Bytes)
    → decode_and_dispatch h (put32 (method_id m) ++ payload) ≡ switch h (method_id m) payload
dispatch-method h m payload = dispatch-put32 h (method_id m) payload (method_id-lt m)

request_init-put32 :
    (i : ℕ) (rest : Bytes) → IsU32 i → request_init (put32 i ++ rest) ≡ ok (i, rest)
unfolding request_init guard ◌>>=◌ ◌>>◌
request_init-put32 i rest h = rw (put32-long i rest, get32-put32 i rest h, drop-put32 i rest)

-- ... and of a packet that ends behind the child index.
pub request_init-put32_end : (i : ℕ) → IsU32 i → request_init (put32 i) ≡ ok (i, [])
request_init-put32_end i h = rw append-nil at (request_init-put32 i [] h)

exact : (bs : Bytes) (n : ℕ) → length bs ≡ n → (length bs == n) ≡ true
exact bs n h = (==_iff (length bs) n).1 h

long-put64 : (k : ℕ) (v : Bytes) → 0 < length v → leb (length (put64 k ++ v)) 8 ≡ false
long-put64 k v h = ground (arith, length-append_bytes (put64 k) v, length-put64 k)

long_id : (x v : Bytes) → length x ≡ 16 → ltb (length (x ++ v)) 16 ≡ false
long_id x v h = ground (arith, length-append_bytes x v)

long_ids :
    (x a c : Bytes)
    → length x ≡ 16
    → length a ≡ 16
    → 0 < length c
    → leb (length (x ++ (a ++ c))) 32 ≡ false
long_ids x a c hx ha hc = ground (arith, length-append_bytes x (a ++ c), length-append_bytes a c)

get64-put64_end : (k : ℕ) → IsU64 k → get64 (put64 k) ≡ k
get64-put64_end k h = rw append-nil at (get64-put64 k [] h)

id_then :
    (x rest : Bytes) → length x ≡ 16 → (take 16 (x ++ rest) ≡ x) × (drop 16 (x ++ rest) ≡ rest)
id_then x rest h = (take-append 16 x rest h, drop-append 16 x rest h)

-- Whatever a client sends as the packet of a request that fits it, the service decodes as that
-- request, by the decoder of its method.
pub decode-layout : (r : Request) → IsValid r → decode_and_dispatch decoders (layout r) ≡ ok r
unfolding switch decode_request_root_context_init decode_request_root_context_reduce_caps
    decode_request_child_context_create decode_request_child_context_close
    decode_request_global_setting_get decode_request_global_setting_set
    decode_request_transaction_submit decode_request_transaction_get_first
    decode_request_transaction_get decode_request_transaction_drop
    decode_request_transaction_promote decode_request_payload_artifact_read
    decode_request_block_make decode_request_block_read decode_request_block_id_by_height_read
    decode_request_block_id_latest_read decode_request_canonized_transaction_get guard non_null
    ◌>>=◌ ◌>>◌
decode-layout (root_context_init s d) (hs, hd) =
    dispatch-method decoders ll_root_context_create (put64 s ++ d)
    ∙ rw (long-put64 s d hd, drop-put64 s d, get64-put64 s d hs)
decode-layout (root_context_reduce_caps c) h =
    dispatch-method decoders ll_root_context_reduce_caps (c) ∙ rw (request_init_empty, exact c 4 h)
decode-layout (child_context_create c) h =
    dispatch-method decoders ll_child_context_create (c) ∙ rw (request_init_empty, exact c 4 h)
decode-layout (child_context_close i) hi =
    dispatch-method decoders ll_child_context_close (put32 i) ∙ rw (request_init-put32_end i hi)
decode-layout (transaction_get_first i) hi =
    dispatch-method decoders app_pq_transaction_first_read (put32 i)
    ∙ rw (request_init-put32_end i hi)
decode-layout (block_id_latest_read i) hi =
    dispatch-method decoders app_block_id_latest_read (put32 i) ∙ rw (request_init-put32_end i hi)
decode-layout (global_setting_get i k) (hi, hk) =
    dispatch-method decoders app_global_setting_read (put32 i ++ put64 k)
    ∙ rw (
      request_init-put32 i (put64 k) hi,
      exact (put64 k) 8 (length-put64 k),
      get64-put64_end k hk,
    )
decode-layout (block_id_by_height_read i k) (hi, hk) =
    dispatch-method decoders app_block_id_by_height_read (put32 i ++ put64 k)
    ∙ rw (
      request_init-put32 i (put64 k) hi,
      exact (put64 k) 8 (length-put64 k),
      get64-put64_end k hk,
    )
decode-layout (global_setting_set i k v) (hi, hk, hv) =
    dispatch-method decoders app_global_setting_write (put32 i ++ (put64 k ++ v))
    ∙ rw (
      request_init-put32 i (put64 k ++ v) hi,
      long-put64 k v hv,
      drop-put64 k v,
      get64-put64 k v hk,
    )
decode-layout (transaction_submit i x a c) (hi, hx, ha, hc) =
    dispatch-method decoders app_pq_transaction_submit (put32 i ++ (x ++ (a ++ c)))
    ∙ rw (
      request_init-put32 i (x ++ (a ++ c)) hi,
      long_ids x a c hx ha hc,
      (id_then x (a ++ c) hx).0,
      (id_then x (a ++ c) hx).1,
      (id_then a c ha).0,
      (id_then a c ha).1,
    )
decode-layout (transaction_get i x) (hi, hx) =
    dispatch-method decoders app_pq_transaction_read (put32 i ++ x)
    ∙ rw (request_init-put32 i x hi, exact x 16 hx, take_all 16 x hx)
decode-layout (transaction_drop i x) (hi, hx) =
    dispatch-method decoders app_pq_transaction_drop (put32 i ++ x)
    ∙ rw (request_init-put32 i x hi, exact x 16 hx, take_all 16 x hx)
decode-layout (transaction_promote i x) (hi, hx) =
    dispatch-method decoders app_pq_transaction_promote (put32 i ++ x)
    ∙ rw (request_init-put32 i x hi, exact x 16 hx, take_all 16 x hx)
decode-layout (payload_artifact_read i x) (hi, hx) =
    dispatch-method decoders app_artifact_read (put32 i ++ x)
    ∙ rw (request_init-put32 i x hi, exact x 16 hx, take_all 16 x hx)
decode-layout (block_make i b c) (hi, hb) =
    dispatch-method decoders app_block_write (put32 i ++ (b ++ c))
    ∙ rw (request_init-put32 i (b ++ c) hi, long_id b c hb, (id_then b c hb).0, (id_then b c hb).1)
decode-layout (block_read i x true) (hi, hx) =
    dispatch-method decoders app_block_read (put32 i ++ (x ++ flag true ∷ []))
    ∙ rw (
      request_init-put32 i (x ++ flag true ∷ []) hi,
      exact (x ++ flag true ∷ []) 17 (omega (lengths)),
      (id_then x (flag true ∷ []) hx).0,
      (id_then x (flag true ∷ []) hx).1,
    )
decode-layout (block_read i x false) (hi, hx) =
    dispatch-method decoders app_block_read (put32 i ++ (x ++ flag false ∷ []))
    ∙ rw (
      request_init-put32 i (x ++ flag false ∷ []) hi,
      exact (x ++ flag false ∷ []) 17 (omega (lengths)),
      (id_then x (flag false ∷ []) hx).0,
      (id_then x (flag false ∷ []) hx).1,
    )
decode-layout (canonized_transaction_get i x true) (hi, hx) =
    dispatch-method decoders app_transaction_read (put32 i ++ (x ++ flag true ∷ []))
    ∙ rw (
      request_init-put32 i (x ++ flag true ∷ []) hi,
      exact (x ++ flag true ∷ []) 17 (omega (lengths)),
      (id_then x (flag true ∷ []) hx).0,
      (id_then x (flag true ∷ []) hx).1,
    )
decode-layout (canonized_transaction_get i x false) (hi, hx) =
    dispatch-method decoders app_transaction_read (put32 i ++ (x ++ flag false ∷ []))
    ∙ rw (
      request_init-put32 i (x ++ flag false ∷ []) hi,
      exact (x ++ flag false ∷ []) 17 (omega (lengths)),
      (id_then x (flag false ∷ []) hx).0,
      (id_then x (flag false ∷ []) hx).1,
    )
