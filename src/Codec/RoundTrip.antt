-- ===== src/Codec/RoundTrip.antt =====
-- The client's encoders and the service's decoders, one behind the other.
use v_c_agentd.Prelude.{◌≡◌}
use v_c_agentd.Status.{ok, ◌>>=◌}
use v_c_agentd.Codec.{Target, Request}
use v_c_agentd.Codec.Dispatch.{decode_and_dispatch}
use v_c_agentd.Codec.Layout.{IsValid, IsEncodable, encode, decoders}
use v_c_agentd.Codec.EncodeLaws.{IsReady, encode-layout}
use v_c_agentd.Codec.DecodeLaws.{decode-layout}

-- A request that fits its packet and that a client encodes, with the pointers given and memory at
-- hand, is decoded by the service as that request.
pub dispatch-encode :
    (t : Target) (r : Request)
    → IsReady t
    → IsValid r
    → IsEncodable r
    → (encode t r >>= λ packet. decode_and_dispatch decoders packet) ≡ ok r
unfolding ◌>>=◌
dispatch-encode t r ready valid text = rw (encode-layout ready r valid text) (decode-layout r valid)
