-- ===== src/Service/Exchange.antt =====
-- A client's exchange with the service: a request is encoded, served, and its response decoded.
use v_c_agentd.Prelude.{
  ℕ, ◌≡◌, refl, ap, ◌∙◌, ◌<◌, ◌^◌, Bool, true, false, Option, none, some, List, arith,
}
use v_c_agentd.Wire.{Bytes}
use v_c_agentd.Status.{Result, ok, err, ◌>>=◌}
use v_c_agentd.Status.Code.{status_code}
use v_c_agentd.Method.{method_id}
use v_c_agentd.Codec.{
  Target, Request, root_context_init, root_context_reduce_caps, child_context_create,
  child_context_close, global_setting_get, global_setting_set, transaction_submit,
  transaction_get_first, transaction_get, transaction_drop, transaction_promote,
  payload_artifact_read, block_make, block_read, block_id_by_height_read, block_id_latest_read,
  canonized_transaction_get,
}
use v_c_agentd.Codec.Layout.{layout, IsValid, IsEncodable, encode}
use v_c_agentd.Codec.EncodeLaws.{IsReady, encode-layout}
use v_c_agentd.Codec.Dispatch.{decode_and_dispatch}
use v_c_agentd.Contexts.{child_context_lookup}
use v_c_agentd.Responses.Reads.{decode_status}
use v_c_agentd.Responses.Answers.Plain.{status-answer}
use v_c_agentd.Service.{
  Setup, State, Handler, without_data, child_index, operate, respond, serve, after_lookup,
}
use v_c_agentd.Service.Laws.{method_of, operates, handlers, dispatch-serve, status_code-lt}

-- the requests that change something, which are answered without data
abbrev pub changes : Request → Bool
changes (transaction_submit i x a c) = true
changes (transaction_drop i x) = true
changes (transaction_promote i x) = true
changes (block_make i b c) = true
changes (global_setting_set i k v) = true
changes r = false

-- the number that stands for a result
abbrev pub code_of : {A : Type 0} → Result A → ℕ
code_of (ok a) = 0
code_of (err e) = status_code e

code_of-lt : {A : Type 0} (x : Result A) → code_of x < 2 ^ 32
code_of-lt (ok a) = omega arith
code_of-lt (err e) = status_code-lt e

empty_answer :
    {T : Type 0} (x : Result (Unit {0}) × T) (p : Option Bytes)
    → (without_data x).0 ≡ ok p
    → p ≡ none
empty_answer (ok u, t) p h = cc
empty_answer (err e, t) p h = cc

changes-operates : (r : Request) → changes r ≡ true → operates r ≡ true
changes-operates (transaction_submit i x a c) h = refl
changes-operates (transaction_drop i x) h = refl
changes-operates (transaction_promote i x) h = refl
changes-operates (block_make i b c) h = refl
changes-operates (root_context_init x d) h = cc
changes-operates (root_context_reduce_caps x) h = cc
changes-operates (child_context_create x) h = cc
changes-operates (child_context_close i) h = cc
changes-operates (global_setting_get i k) h = refl
changes-operates (global_setting_set i k v) h = refl
changes-operates (transaction_get_first i) h = refl
changes-operates (transaction_get i x) h = refl
changes-operates (payload_artifact_read i a) h = refl
changes-operates (block_read i b q) h = refl
changes-operates (block_id_by_height_read i k) h = refl
changes-operates (block_id_latest_read i) h = refl
changes-operates (canonized_transaction_get i x q) h = refl

module _ (s : Setup) (root_create : Bytes → Handler s) where
  -- the packet of a request, what the service does with it, and the response as the client decodes it
  abbrev pub answer : Target → Request → State s.env → Result (ℕ × ℕ × Option (Unit {0}))
  answer t r st = encode t r >>= λ packet.
      (decode_and_dispatch (handlers s root_create) packet st).0 >>= λ resp.
      decode_status (method_of r) (some resp) true

  abbrev pub served : Request → State s.env → State s.env
  served r st = (decode_and_dispatch (handlers s root_create) (layout r) st).1

  module _ (memory : (n : ℕ) → s.env.malloc n ≡ true) where
    pub serve-eq :
        (r : Request) (st : State s.env) (i : ℕ)
        → child_context_lookup st.inst (child_index r) ≡ ok i
        → serve s (method_of r) (ok r) st ≡ after_lookup s (method_id (method_of r)) r (ok i) st
    unfolding serve
    serve-eq r st i h = rw (serve, h) refl

    respond-none :
        (r : Request) (x : Result (Option Bytes))
        → ((p : Option Bytes) → x ≡ ok p → p ≡ none)
        → child_index r < 2 ^ 32
        → (respond s (method_id (method_of r)) (child_index r) x >>= λ resp.
            decode_status (method_of r) (some resp) true)
          ≡ ok (child_index r, code_of x, some tt)
    unfolding respond
    respond-none r (ok p) empty hi =
        rw (empty p refl)
          (status-answer s.env.malloc memory (child_index r) hi 0 (omega arith) (method_of r))
    respond-none r (err e) empty hi =
        status-answer s.env.malloc memory (child_index r) hi (status_code e) (status_code-lt e)
          (method_of r)

    -- the caller's capabilities
    abbrev caps_at : ℕ → State s.env → List ℕ
    caps_at i st = (st.inst.children i).childcaps

    no_data :
        (r : Request) (caps : List ℕ) (store : s.env.T) (p : Option Bytes)
        → changes r ≡ true
        → (operate s r caps store).0 ≡ ok p
        → p ≡ none
    unfolding operate
    no_data (root_context_init x d) caps store p c h = cc
    no_data (root_context_reduce_caps x) caps store p c h = cc
    no_data (child_context_create x) caps store p c h = cc
    no_data (child_context_close i) caps store p c h = cc
    no_data (global_setting_get i k) caps store p c h = cc
    no_data (global_setting_set i k v) caps store p c h = empty_answer _ p h
    no_data (transaction_get_first i) caps store p c h = cc
    no_data (transaction_get i x) caps store p c h = cc
    no_data (payload_artifact_read i a) caps store p c h = cc
    no_data (block_read i b q) caps store p c h = cc
    no_data (block_id_by_height_read i k) caps store p c h = cc
    no_data (block_id_latest_read i) caps store p c h = cc
    no_data (canonized_transaction_get i x q) caps store p c h = cc
    no_data (transaction_submit i x a d) caps store p c h = empty_answer _ p h
    no_data (transaction_drop i x) caps store p c h = empty_answer _ p h
    no_data (transaction_promote i x) caps store p c h = empty_answer _ p h
    no_data (block_make i b d) caps store p c h = empty_answer _ p h

    -- A client's exchange of a valid request that submits, drops or promotes a transaction, adds a
    -- block or writes a setting, with the pointers given and memory at hand on both sides, on a child context that
    -- is open: the client decodes its index and the number of the result of the operation, run
    -- with the capabilities of the context, and the service is then as before but for the store
    -- that the operation left.
    pub exchange-change :
        (t : Target) (r : Request) (st : State s.env) (i : ℕ)
        → IsReady t
        → IsValid r
        → IsEncodable r
        → changes r ≡ true
        → child_index r < 2 ^ 32
        → child_context_lookup st.inst (child_index r) ≡ ok i
        → (answer t r st
            ≡ ok (child_index r, code_of (operate s r (caps_at i st) st.store).0, some tt))
          × (served r st ≡ record st { store = (operate s r (caps_at i st) st.store).1 })
    unfolding ◌>>=◌ operate
    exchange-change t r st i ready valid text c hi open_context =
        let done =
          ap (λ f. f st) (dispatch-serve s root_create r valid (changes-operates r c))
          ∙ serve-eq r st i open_context in
        (
          rw (encode-layout ready r valid text, done)
              (respond-none r (operate s r (caps_at i st) st.store).0
                (λ p h. no_data r (caps_at i st) st.store p c h) hi),
          ap (λ x. x.1) done,
        )
