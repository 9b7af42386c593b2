-- ===== src/Contexts.antt =====
-- The child contexts of the data service: src/dataservice/dataservice_instance_create.c,
-- dataservice_child_details_{create,delete}.c, dataservice_child_context_{create,close,lookup}.c,
-- dataservice_root_context_reduce_capabilities.c and the handlers of their requests.
pub mod Root
pub mod Free
pub mod Slots
pub mod Handlers
pub mod Histories
pub mod Grants
pub mod Examples
use v_c_agentd.Prelude.{
  ℕ, zero, suc, Bool, true, false, Option, none, some, List, [], ◌∷◌, ◌==◌, ltb, if◌then◌else◌,
}
use v_c_agentd.Wire.{Bytes, from_le, put32}
use v_c_agentd.Status.{
  Status, Result, ok, err, not_authorized, out_of_memory, out_of_child_instances,
  child_context_max_reached, child_context_create_failure, child_context_bad_index,
  child_context_invalid, child_details_delete_failure,
}
use v_c_agentd.Bitcap.{Caps, isset, set_true, set_false, intersect}
use v_c_agentd.Codec.{Request, root_context_reduce_caps, child_context_create, child_context_close}
use v_c_agentd.Codec.Decode.{
  decode_request_root_context_reduce_caps, decode_request_child_context_create,
  decode_request_child_context_close,
}

-- the bits of `dataservice_api_cap_enum`
abbrev pub cap_root_context_create : ℕ
cap_root_context_create = 0

abbrev pub cap_root_context_reduce_caps : ℕ
cap_root_context_reduce_caps = 1

abbrev pub cap_child_context_create : ℕ
cap_child_context_create = 2

abbrev pub cap_child_context_close : ℕ
cap_child_context_close = 3

-- DATASERVICE_MAX_CHILD_CONTEXTS
abbrev pub max_child_contexts : ℕ
max_child_contexts = 1024

-- `dataservice_child_details_t`: whether the dispose method is set, the next free slot, and the
-- capabilities of the context. A pointer into the array is an index.
pub record Child : Type 0 where
  pub dispose : Bool
  pub next : Option ℕ
  pub childcaps : Caps

-- what `memset` of a slot to zero leaves; 23 capability bits take one word
abbrev pub cleared : Child
cleared = record { dispose = false; next = none; childcaps = 0 ∷ [] }

-- `dataservice_instance_t`, less the root context's database and the event loop
pub record Instance : Type 0 where
  pub apicaps : Caps
  pub children : ℕ → Child
  pub child_head : Option ℕ

-- the array with one slot assigned
abbrev pub assign : ℕ → Child → (ℕ → Child) → ℕ → Child
assign i c children j = if i == j then c else children j

-- The loop of dataservice_instance_create, over the first slots.
unfoldable pub link_children : ℕ → Instance → Instance
link_children zero inst = inst
link_children (suc i) inst =
    let inst' = link_children i inst in
    record inst' {
      children = assign i (record (inst'.children i) { next = inst'.child_head }) inst'.children;
      child_head = some i;
    }

abbrev pub blank : Instance
blank = record {
  apicaps = set_true (0 ∷ []) cap_root_context_create;
  children = λ i. cleared;
  child_head = none;
}

-- dataservice_instance_create, where `malloc` gives memory
unfoldable pub instance_create : Instance
unfolding link_children
instance_create = link_children max_child_contexts blank

-- dataservice_child_details_create: the slot's index
unfoldable pub child_details_create : Instance → Result ℕ × Instance
child_details_create inst = elim (inst.child_head) [
  | none ↦ (err out_of_child_instances, inst)
  | some i ↦ (
    ok i,
    record inst {
      child_head = (inst.children i).next;
      children = assign i (record cleared { dispose = true }) inst.children;
    },
  )
]

-- dataservice_child_details_delete
unfoldable pub child_details_delete : ℕ → Instance → Instance
child_details_delete i inst = record inst {
  children = assign i (record cleared { next = inst.child_head }) inst.children;
  child_head = some i;
}

-- dataservice_child_context_lookup
unfoldable pub child_context_lookup : Instance → ℕ → Result ℕ
child_context_lookup inst offset =
    if ltb offset max_child_contexts
    then (if (inst.children offset).dispose then ok offset else err child_context_invalid)
    else err child_context_bad_index

-- dataservice_child_context_create: the new capabilities of the child
unfoldable pub child_context_caps : Caps → Caps → Caps → Result Caps
child_context_caps apicaps childcaps caps =
    if isset apicaps cap_child_context_create
    then (if isset childcaps cap_child_context_create
        then ok (set_false (intersect apicaps caps) cap_child_context_create)
        else err not_authorized)
    else err not_authorized

-- `caps`, and `hdr.child_index`, of a decoded request
abbrev pub caps_of : Request → Caps
caps_of (child_context_create caps) = from_le caps ∷ []
caps_of (root_context_reduce_caps caps) = from_le caps ∷ []
caps_of r = []

abbrev pub index_of : Request → ℕ
index_of (child_context_close i) = i
index_of r = 0

-- A handler gives the status or the payload that it writes to the socket.
abbrev pub Handler : Type 0
Handler = Instance → Result Bytes × Instance

abbrev pub decoded : Result Request → (Request → Handler) → Handler
decoded (ok r) run inst = run r inst
decoded (err e) run inst = (err e, inst)

-- the end of dataservice_decode_and_dispatch_child_context_create; the flag says whether the encoder
-- of the response gets its memory
unfoldable pub finish_create : Bool → ℕ → Result Caps → Handler
unfolding child_details_delete
finish_create memory i (err e) inst =
    (err child_context_create_failure, child_details_delete i inst)
finish_create memory i (ok caps) inst =
    let inst' : Instance = record inst {
      children = assign i (record (inst.children i) { childcaps = caps }) inst.children;
    } in
    if memory then (ok (put32 i), inst') else (err out_of_memory, child_details_delete i inst')

unfoldable pub fill_child : Bool → Caps → Result ℕ × Instance → Result Bytes × Instance
unfolding finish_create child_context_caps
fill_child memory caps (err e, inst) = (err child_context_max_reached, inst)
fill_child memory caps (ok i, inst) =
    let childcaps = set_true (inst.children i).childcaps cap_child_context_create in
    let inst' : Instance = record inst {
      children = assign i (record (inst.children i) { childcaps = childcaps }) inst.children;
    } in
    finish_create memory i (child_context_caps inst.apicaps childcaps caps) inst'

unfoldable pub dispatch_child_context_create : Bool → Bytes → Handler
unfolding fill_child child_details_create
dispatch_child_context_create memory req =
    decoded (decode_request_child_context_create (some req))
      λ r inst. fill_child memory (caps_of r) (child_details_create inst)

-- dataservice_child_context_close, and the release of the slot
unfoldable pub close_child : Result ℕ → Handler
unfolding child_details_delete
close_child (err e) inst = (err e, inst)
close_child (ok i) inst =
    if isset (inst.children i).childcaps cap_child_context_close
    then (ok [], child_details_delete i inst)
    else (err child_details_delete_failure, inst)

unfoldable pub dispatch_child_context_close : Bytes → Handler
unfolding close_child child_context_lookup
dispatch_child_context_close req =
    decoded (decode_request_child_context_close req)
      λ r inst. close_child (child_context_lookup inst (index_of r)) inst

-- dataservice_root_context_reduce_capabilities
unfoldable pub reduce_capabilities : Caps → Handler
reduce_capabilities caps inst =
    if isset inst.apicaps cap_root_context_reduce_caps
    then (ok [], record inst { apicaps = intersect inst.apicaps caps })
    else (err not_authorized, inst)

unfoldable pub dispatch_root_context_reduce_caps : Bytes → Handler
unfolding reduce_capabilities
dispatch_root_context_reduce_caps req =
    decoded (decode_request_root_context_reduce_caps (some req))
      λ r. reduce_capabilities (caps_of r)
