-- ===== src/Contexts/Grants.antt =====
-- What a client has of a child context.
use v_c_agentd.Prelude.{
  ℕ, ◌<◌, ◌≡◌, refl, ap, Bool, true, false, ◌&&◌, some, List, [], ◌∷◌, ◌==◌, arith, length,
  if◌then◌else◌, ==_refl, Bool-cases, inl, inr, ltb,
}
use mathlib.Core.Bool.{not}
use mathlib.Core.Path.{subst}
use v_c_agentd.Wire.{Bytes, put32, from_le}
use v_c_agentd.Status.{Result, ok, err, guard, ◌>>=◌, ◌>>◌, child_context_invalid}
use v_c_agentd.Bitcap.{Caps, isset, intersect, set_false}
use v_c_agentd.Bitcap.Laws.{isset-intersect, set_false-subset}
use v_c_agentd.Codec.{Request}
use v_c_agentd.Codec.Decode.{
  decode_request_child_context_close, decode_request_root_context_reduce_caps,
  decode_request_root_context_init,
}
use v_c_agentd.Codec.DecodeLaws.{request_init-put32_end}
use v_c_agentd.Contexts.{
  Instance, cap_child_context_create, cap_child_context_close, cap_root_context_reduce_caps,
  cap_root_context_create, max_child_contexts, child_details_delete, child_context_lookup, index_of,
  caps_of, decoded, close_child, reduce_capabilities, dispatch_child_context_create,
  dispatch_child_context_close, dispatch_root_context_reduce_caps,
}
use v_c_agentd.Contexts.Root.{init_root_context, opening, dispatch_root_context_create}
use v_c_agentd.Contexts.Free.{Chained, IsSound}
use v_c_agentd.Contexts.Slots.{release-IsSound}
use v_c_agentd.Contexts.Handlers.{Created}
use v_c_agentd.Contexts.Histories.{
  Event, create_requested, close_requested, reduce_requested, root_requested, serve, create-cases,
  lookup-cases,
}

-- a slot of the array that is in use is found, and one that is not is not
lookup-used :
    (inst : Instance) (i : ℕ) (b : Bool)
    → i < max_child_contexts
    → (inst.children i).dispose ≡ b
    → child_context_lookup inst i ≡ (if b then ok i else err child_context_invalid)
unfolding child_context_lookup
lookup-used inst i b h d = rw (d, inside)
  where
    inside : ltb i max_child_contexts ≡ true
    inside = ground arith

granted_subset :
    (apicaps caps : Caps) (bit : ℕ)
    → length apicaps ≡ length caps
    → (isset (set_false (intersect apicaps caps) cap_child_context_create) bit
        && not (isset apicaps bit && isset caps bit))
      ≡ false
granted_subset apicaps caps bit h = ground (
  arith,
  set_false-subset (intersect apicaps caps) cap_child_context_create bit,
  isset-intersect apicaps caps bit h,
)

-- On a sound instance, a request to create a context that succeeds names a slot that was not in
-- use and now is, and each capability of the new context is one of the root's and one of those
-- requested.
pub create-grants :
    (memory : Bool) (req payload : Bytes) (inst inst' : Instance) (free : List ℕ) (bit : ℕ)
    → IsSound inst free
    → dispatch_child_context_create memory req inst ≡ (ok payload, inst')
    → (i : ℕ) × (payload ≡ put32 i)
      × (child_context_lookup inst i ≡ err child_context_invalid)
      × (child_context_lookup inst' i ≡ ok i)
      × ((isset (inst'.children i).childcaps bit
            && not (isset inst.apicaps bit && isset (from_le req ∷ []) bit))
          ≡ false)
create-grants memory req payload inst inst' free bit s h =
    elim (subst (Created inst free (from_le req ∷ [])) h (create-cases memory req inst free s)) [
      | inl (e, failed, s', keeps) ↦ cc
      | inr (i, rest, first, done, s', used, caps, keeps) ↦
          let c = subst (Chained inst.children inst.child_head) first s.chained in
          (
            i,
            cc,
            lookup-used inst i false c.3 c.1,
            lookup-used inst' i true c.3 used,
            rw caps (granted_subset inst.apicaps (from_le req ∷ []) bit s.sized),
          )
    ]

-- On a sound instance, closing a context that is in use and has the capability to close contexts
-- succeeds: it is then not found, and its slot is the first free one.
pub close-frees :
    (i : ℕ) (inst : Instance) (free : List ℕ)
    → IsSound inst free
    → child_context_lookup inst i ≡ ok i
    → isset (inst.children i).childcaps cap_child_context_close ≡ true
    → ((dispatch_child_context_close (put32 i) inst).0 ≡ ok [])
      × (child_context_lookup (dispatch_child_context_close (put32 i) inst).1 i
          ≡ err child_context_invalid)
      × IsSound (dispatch_child_context_close (put32 i) inst).1 (i ∷ free)
unfolding dispatch_child_context_close decode_request_child_context_close close_child
    child_details_delete ◌>>=◌ ◌>>◌ guard
close-frees i inst free s found allowed = elim (lookup-cases inst i) [
  | inl (e, bad) ↦ cc
  | inr (good, used) ↦
      rw (request_init-put32_end i (omega (arith, s.bounded i used)), good, allowed)
        (
          refl,
          lookup-used (child_details_delete i inst) i false (s.bounded i used) (rw (==_refl i)),
          release-IsSound inst i free s used,
        )
]

abbrev pub names : Result Request → ℕ → Bool
names (ok r) j = index_of r == j
names (err e) j = false

-- the context that a request closes, if it closes one
abbrev pub closes : Event → ℕ → Bool
closes (create_requested memory req) j = false
closes (close_requested req) j = names (decode_request_child_context_close req) j
closes (reduce_requested req) j = false
closes (root_requested open_database allocate req) j = false

close_child-keeps :
    (i j : ℕ) (inst : Instance)
    → (i == j) ≡ false
    → (close_child (child_context_lookup inst i) inst).1.children j ≡ inst.children j
unfolding close_child child_details_delete
close_child-keeps i j inst other = elim (lookup-cases inst i) [
  | inl (e, bad) ↦ rw bad
  | inr (good, used) ↦
      elim (Bool-cases (isset (inst.children i).childcaps cap_child_context_close)) [
        | inr refused ↦ rw (good, refused)
        | inl allowed ↦ rw (good, allowed, other)
      ]
]

reduce_capabilities-keeps :
    (caps : Caps) (inst : Instance) → (reduce_capabilities caps inst).1.children ≡ inst.children
unfolding reduce_capabilities
reduce_capabilities-keeps caps inst =
    elim (Bool-cases (isset inst.apicaps cap_root_context_reduce_caps)) [
      | inr refused ↦ rw refused
      | inl allowed ↦ rw allowed
    ]

init_root_context-keeps :
    (opened : Result (Unit {0})) (inst : Instance)
    → (init_root_context opened inst).1.children ≡ inst.children
unfolding init_root_context
init_root_context-keeps opened inst =
    elim (Bool-cases (isset inst.apicaps cap_root_context_create)) [
      | inr refused ↦ rw refused
      | inl allowed ↦ rw allowed
    ]

-- On a sound instance, the slot of a child context in use is the same after a request to open the root
-- context, to reduce the root's capabilities, to create a child context, or to close a child context
-- that is not this one.
pub serve-keeps :
    (e : Event) (inst : Instance) (free : List ℕ) (j : ℕ)
    → IsSound inst free
    → (inst.children j).dispose ≡ true
    → closes e j ≡ false
    → (serve e inst).1.children j ≡ inst.children j
unfolding dispatch_child_context_close dispatch_root_context_reduce_caps
    dispatch_root_context_create
serve-keeps (create_requested memory req) inst free j s used other =
    elim (create-cases memory req inst free s) [
      | inl (e, failed, s', keeps) ↦ keeps j used
      | inr (i, rest, first, done, s', used', caps, keeps) ↦ keeps j used
    ]
serve-keeps (close_requested req) inst free j s used other =
    elim (decode_request_child_context_close req)
        as (λ d.
          names d j ≡ false
          → (decoded d (λ r inst. close_child (child_context_lookup inst (index_of r)) inst)
                inst).1.children
              j
            ≡ inst.children j) [
              | ok r ↦ λ o. close_child-keeps (index_of r) j inst o
              | err e ↦ λ o. refl
            ]
      other
serve-keeps (reduce_requested req) inst free j s used other =
    elim (decode_request_root_context_reduce_caps (some req))
      as (λ d.
        (decoded d (λ r. reduce_capabilities (caps_of r)) inst).1.children j ≡ inst.children j) [
          | ok r ↦ ap (λ f. f j) (reduce_capabilities-keeps (caps_of r) inst)
          | err e ↦ refl
        ]
serve-keeps (root_requested open_database allocate req) inst free j s used other =
    elim (decode_request_root_context_init (some req) (some allocate) true)
      as (λ d.
        (decoded d (λ r. init_root_context (opening open_database r)) inst).1.children j
        ≡ inst.children j) [
          | ok r ↦ ap (λ f. f j) (init_root_context-keeps (opening open_database r) inst)
          | err e ↦ refl
        ]
