-- ===== src/Contexts/Root.antt =====
-- The root context: src/dataservice/dataservice_root_context_init.c, as far as its capabilities, and the
-- handler of its request, dataservice_decode_and_dispatch_root_context_create.c.
use v_c_agentd.Prelude.{ℕ, ◌≡◌, refl, Bool, true, some, [], ◌∷◌, arith, length, if◌then◌else◌}
use v_c_agentd.Wire.{Bytes}
use v_c_agentd.Status.{Result, ok, err, not_authorized}
use v_c_agentd.Bitcap.{Caps, isset, init_true, set_false, change}
use v_c_agentd.Codec.{Request, root_context_init}
use v_c_agentd.Codec.Decode.{decode_request_root_context_init}
use v_c_agentd.Contexts.{cap_root_context_create, Handler, decoded}

-- all capabilities but the creation of a root context
abbrev pub root_caps : Caps → Caps
root_caps apicaps = set_false (init_true apicaps) cap_root_context_create

-- the status of dataservice_database_open, whose files are no part of the model
abbrev pub as_response : Result (Unit {0}) → Result Bytes
as_response (ok u) = ok []
as_response (err e) = err e

-- dataservice_root_context_init, where the database opens with the given status
unfoldable pub init_root_context : Result (Unit {0}) → Handler
init_root_context opened inst =
    if isset inst.apicaps cap_root_context_create
    then (as_response opened, record inst { apicaps = root_caps inst.apicaps })
    else (err not_authorized, inst)

-- the status with which the database of a request opens
abbrev pub opening : (ℕ → Bytes → Result (Unit {0})) → Request → Result (Unit {0})
opening open_database (root_context_init max_database_size datadir) =
    open_database max_database_size datadir
opening open_database r = ok tt

-- A request that is not decoded is not answered: its status is returned.
unfoldable pub dispatch_root_context_create :
    (open_database : ℕ → Bytes → Result (Unit {0})) (allocate : ℕ → Bool) → Bytes → Handler
unfolding init_root_context
dispatch_root_context_create open_database allocate req =
    decoded (decode_request_root_context_init (some req) (some allocate) true)
      λ r. init_root_context (opening open_database r)

pub length-root_caps : (caps : Caps) → length caps ≡ 1 → length (root_caps caps) ≡ 1
unfolding init_true set_false change
length-root_caps [] h = absurd (omega arith)
length-root_caps (w ∷ []) h = refl
length-root_caps (w ∷ v ∷ ws) h = absurd (omega arith)
