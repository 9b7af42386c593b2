-- ===== src/Contexts/Examples.antt =====
-- The child contexts, at concrete instances.
use v_c_agentd.Prelude.{
  ℕ, ◌^◌, ◌-◌, ◌≡◌, refl, true, false, ◌&&◌, none, some, List, [], ◌∷◌, ◌++◌, ◌==◌, arith,
  if◌then◌else◌, ltb,
}
use mathlib.Core.Bool.{not}
use v_c_agentd.Wire.{Bytes, from_le, le, put32, put64, get32, get64}
use v_c_agentd.Status.{ok, err, guard, non_null, ◌>>=◌, ◌>>◌, child_context_invalid}
use v_c_agentd.Bitcap.{isset, word, change, init_true, set_true, set_false, intersect}
use v_c_agentd.Codec.Decode.{
  request_init, request_init_empty, decode_request_root_context_init,
  decode_request_child_context_create, decode_request_child_context_close,
}
use v_c_agentd.Contexts.{
  Child, Instance, cap_child_context_create, cap_child_context_close, max_child_contexts, cleared,
  instance_create, child_details_create, child_context_lookup, child_context_caps, finish_create,
  fill_child, close_child, child_details_delete, link_children, dispatch_child_context_create,
  dispatch_child_context_close,
}
use v_c_agentd.Contexts.Root.{init_root_context, dispatch_root_context_create}
use v_c_agentd.Contexts.Free.{IsSound}
use v_c_agentd.Contexts.Histories.{
  Event, create_requested, close_requested, root_requested, serve, serve_all,
  serve_all-instance_create,
}
use v_c_agentd.Contexts.Grants.{create-grants, close-frees, serve-keeps}

-- a client that opens the root context, asks twice for a context with all capabilities, and closes the
-- first
abbrev all_bytes : Bytes
all_bytes = 255 ∷ 255 ∷ 255 ∷ 255 ∷ []

abbrev requests : List Event
requests =
    root_requested (λ size dir. ok tt) (λ n. true) (put64 65536 ++ (47 ∷ 100 ∷ []))
    ∷ create_requested true all_bytes
    ∷ create_requested true all_bytes
    ∷ close_requested (put32 1023)
    ∷ []

-- The second context is in use then, and the first is not.
one_left :
    (child_context_lookup (serve_all requests instance_create) 1022 ≡ ok 1022)
    × (child_context_lookup (serve_all requests instance_create) 1023 ≡ err child_context_invalid)
unfolding instance_create link_children child_context_lookup dispatch_root_context_create
    init_root_context decode_request_root_context_init dispatch_child_context_create
    decode_request_child_context_create dispatch_child_context_close
    decode_request_child_context_close request_init request_init_empty guard non_null ◌>>=◌ ◌>>◌
    fill_child child_details_create child_details_delete finish_create close_child
    child_context_caps isset word init_true set_true set_false change intersect from_le le put64
    put32 get64 get32
one_left = (refl, refl)

serve_all-instance_create_example :
    (free : List ℕ) × IsSound (serve_all requests instance_create) free
serve_all-instance_create_example = serve_all-instance_create requests

-- all capabilities but the creation of contexts
abbrev in_use : Child
in_use = record { dispose = true; next = none; childcaps = (2 ^ 32 - 5) ∷ [] }

-- an instance in which the slot 5 is the only free one
abbrev busy : Instance
busy = record {
  apicaps = (2 ^ 32 - 1) ∷ [];
  children = λ j. if ltb j max_child_contexts && not (j == 5) then in_use else cleared;
  child_head = some 5;
}

in_use_sealed : isset in_use.childcaps cap_child_context_create ≡ false
unfolding isset word
in_use_sealed = refl

in_use_closes : isset in_use.childcaps cap_child_context_close ≡ true
unfolding isset word
in_use_closes = refl

busy-IsSound : IsSound busy (5 ∷ [])
busy-IsSound = record {
  chained = (refl, refl, refl, omega arith, refl);
  used = λ j b m. ground arith;
  bounded = λ j h. ground arith;
  sealed = λ j h. ground (arith, in_use_sealed);
  sized = refl;
}

granted :
    dispatch_child_context_create true all_bytes busy
    ≡ (ok (put32 5), (dispatch_child_context_create true all_bytes busy).1)
unfolding dispatch_child_context_create decode_request_child_context_create request_init_empty guard
    non_null ◌>>=◌ ◌>>◌ fill_child child_details_create finish_create child_context_caps isset word
    set_true set_false change intersect from_le
granted = refl

create-grants_example :
    (i : ℕ) × (put32 5 ≡ put32 i)
    × (child_context_lookup busy i ≡ err child_context_invalid)
    × (child_context_lookup (dispatch_child_context_create true all_bytes busy).1 i ≡ ok i)
    × ((isset ((dispatch_child_context_create true all_bytes busy).1.children i).childcaps 15
          && not (isset busy.apicaps 15 && isset (from_le all_bytes ∷ []) 15))
        ≡ false)
create-grants_example =
    create-grants true all_bytes (put32 5) busy
      (dispatch_child_context_create true all_bytes busy).1 (5 ∷ []) 15 busy-IsSound granted

found_seven : child_context_lookup busy 7 ≡ ok 7
unfolding child_context_lookup
found_seven = refl

close-frees_example :
    ((dispatch_child_context_close (put32 7) busy).0 ≡ ok [])
    × (child_context_lookup (dispatch_child_context_close (put32 7) busy).1 7
        ≡ err child_context_invalid)
    × IsSound (dispatch_child_context_close (put32 7) busy).1 (7 ∷ 5 ∷ [])
close-frees_example = close-frees 7 busy (5 ∷ []) busy-IsSound found_seven in_use_closes

serve-keeps_example : (serve (create_requested true all_bytes) busy).1.children 7 ≡ busy.children 7
serve-keeps_example =
    serve-keeps (create_requested true all_bytes) busy (5 ∷ []) 7 busy-IsSound refl refl
