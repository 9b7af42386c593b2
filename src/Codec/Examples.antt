-- ===== src/Codec/Examples.antt =====
-- The codec's theorems at concrete requests.
use v_c_agentd.Prelude.{ℕ, ◌≡◌, refl, true, none, [], ◌∷◌, arith}
use v_c_agentd.Wire.{Bytes}
use v_c_agentd.Status.{ok, ◌>>=◌}
use v_c_agentd.Codec.{Target, Request, transaction_submit, root_context_init}
use v_c_agentd.Codec.Dispatch.{decode_and_dispatch}
use v_c_agentd.Codec.Layout.{layout, IsValid, encode, decoders}
use v_c_agentd.Codec.EncodeLaws.{IsReady, encode-layout}
use v_c_agentd.Codec.DecodeLaws.{decode-layout}
use v_c_agentd.Codec.Accepts.{decode_and_dispatch-IsValid}
use v_c_agentd.Codec.RoundTrip.{dispatch-encode}

abbrev target : Target
target = record { buffer = true; alloc_opts = true; buffer_init = λ n. none }

abbrev ready : IsReady target
ready = record { buffer = refl; alloc_opts = refl; memory = λ n. refl }

abbrev id_of : ℕ → Bytes
id_of b = b ∷ b ∷ b ∷ b ∷ b ∷ b ∷ b ∷ b ∷ b ∷ b ∷ b ∷ b ∷ b ∷ b ∷ b ∷ b ∷ []

abbrev submission : Request
submission = transaction_submit 3 (id_of 1) (id_of 2) (9 ∷ 8 ∷ [])

abbrev submission-IsValid : IsValid submission
submission-IsValid = (omega arith, refl, refl, omega arith)

abbrev init : Request
init = root_context_init 4096 (46 ∷ 47 ∷ [])

abbrev init-IsValid : IsValid init
init-IsValid = (omega arith, omega arith)

encode-layout_example : encode target init ≡ ok (layout init)
encode-layout_example = encode-layout ready init init-IsValid (omega arith, (omega arith, tt))

decode-layout_example : decode_and_dispatch decoders (layout submission) ≡ ok submission
decode-layout_example = decode-layout submission submission-IsValid

decode_and_dispatch-IsValid_example : IsValid submission
decode_and_dispatch-IsValid_example =
    decode_and_dispatch-IsValid (layout submission) submission
      (decode-layout submission submission-IsValid)

dispatch-encode_example :
    (encode target init >>= λ packet. decode_and_dispatch decoders packet) ≡ ok init
dispatch-encode_example =
    dispatch-encode target init ready init-IsValid (omega arith, (omega arith, tt))
