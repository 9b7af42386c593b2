-- ===== src/Contexts/Histories.antt =====
-- Requests in any order, from the instance that the service starts with.
use v_c_agentd.Prelude.{
  ℕ, zero, suc, ◌≤◌, ◌≡◌, ◌⊎◌, refl, ap, sym, ◌∙◌, Bool, true, false, some, List, [], ◌∷◌, ◌==◌,
  arith, length, ==_refl, Bool-cases, inl, inr, ltb,
}
use v_c_agentd.Wire.{Bytes, from_le}
use v_c_agentd.Status.{
  Status, Result, ok, err, guard, non_null, ◌>>=◌, ◌>>◌, request_packet_invalid_size,
  child_context_invalid, child_context_bad_index,
}
use v_c_agentd.Bitcap.{Caps, isset, set_true, change}
use v_c_agentd.Codec.{child_context_create, root_context_reduce_caps}
use v_c_agentd.Codec.Decode.{
  request_init_empty, sizeof_caps, decode_request_child_context_create,
  decode_request_child_context_close, decode_request_root_context_reduce_caps,
  decode_request_root_context_init,
}
use v_c_agentd.Contexts.{
  Instance, cap_root_context_create, cap_child_context_close, cap_root_context_reduce_caps,
  max_child_contexts, assign, blank, link_children, instance_create, child_details_delete,
  child_context_lookup, index_of, decoded, Handler, close_child, reduce_capabilities,
  dispatch_child_context_create, dispatch_child_context_close, dispatch_root_context_reduce_caps,
}
use v_c_agentd.Contexts.Root.{
  init_root_context, opening, dispatch_root_context_create, length-root_caps,
}
use v_c_agentd.Contexts.Free.{has, Chained, IsSound, Chained-frame}
use v_c_agentd.Contexts.Slots.{release-IsSound}
use v_c_agentd.Contexts.Handlers.{Created, create-Created, length-intersect}

-- A request that arrives, as its payload; the flag says whether the response gets its memory, and the
-- functions how the database opens and whether the decoder gets its memory.
pub data Event : Type 0 where
  create_requested : (memory : Bool) (req : Bytes) → Event
  close_requested : (req : Bytes) → Event
  reduce_requested : (req : Bytes) → Event
  root_requested :
      (open_database : ℕ → Bytes → Result (Unit {0})) (allocate : ℕ → Bool) (req : Bytes) → Event

abbrev pub serve : Event → Handler
serve (create_requested memory req) = dispatch_child_context_create memory req
serve (close_requested req) = dispatch_child_context_close req
serve (reduce_requested req) = dispatch_root_context_reduce_caps req
serve (root_requested open_database allocate req) =
    dispatch_root_context_create open_database allocate req

-- the instance after the requests
abbrev pub serve_all : List Event → Instance → Instance
serve_all [] inst = inst
serve_all (e ∷ es) inst = serve_all es (serve e inst).1

decode_create-cases :
    (req : Bytes)
    → (decode_request_child_context_create (some req) ≡ err request_packet_invalid_size)
      ⊎ (decode_request_child_context_create (some req) ≡ ok (child_context_create req))
unfolding decode_request_child_context_create request_init_empty guard non_null ◌>>=◌ ◌>>◌
decode_create-cases req = elim (Bool-cases (length req == sizeof_caps)) [
  | inl fits ↦ inr (rw fits)
  | inr wrong ↦ inl (rw wrong)
]

decode_reduce-cases :
    (req : Bytes)
    → (decode_request_root_context_reduce_caps (some req) ≡ err request_packet_invalid_size)
      ⊎ (decode_request_root_context_reduce_caps (some req) ≡ ok (root_context_reduce_caps req))
unfolding decode_request_root_context_reduce_caps request_init_empty guard non_null ◌>>=◌ ◌>>◌
decode_reduce-cases req = elim (Bool-cases (length req == sizeof_caps)) [
  | inl fits ↦ inr (rw fits)
  | inr wrong ↦ inl (rw wrong)
]

-- A request to create a context fails and leaves as many slots free, or takes the first free slot.
pub create-cases :
    (memory : Bool) (req : Bytes) (inst : Instance) (free : List ℕ)
    → IsSound inst free
    → Created inst free (from_le req ∷ []) (dispatch_child_context_create memory req inst)
unfolding dispatch_child_context_create
create-cases memory req inst free s = elim (decode_create-cases req) [
  | inl bad ↦ rw bad (inl (_, refl, s, λ j h. refl))
  | inr good ↦ rw good (create-Created memory (from_le req ∷ []) inst free refl s)
]

pub lookup-cases :
    (inst : Instance) (offset : ℕ)
    → ((e : Status) × (child_context_lookup inst offset ≡ err e))
      ⊎ ((child_context_lookup inst offset ≡ ok offset) × ((inst.children offset).dispose ≡ true))
unfolding child_context_lookup
lookup-cases inst offset = elim (Bool-cases (ltb offset max_child_contexts)) [
  | inr outside ↦ inl (child_context_bad_index, rw outside)
  | inl inside ↦ elim (Bool-cases ((inst.children offset).dispose)) [
    | inr unused ↦ inl (child_context_invalid, rw (inside, unused))
    | inl used ↦ inr (rw (inside, used), used)
  ]
]

close_child-IsSound :
    (offset : ℕ) (inst : Instance) (free : List ℕ)
    → IsSound inst free
    → (free' : List ℕ) × IsSound (close_child (child_context_lookup inst offset) inst).1 free'
unfolding close_child child_details_delete
close_child-IsSound offset inst free s = elim (lookup-cases inst offset) [
  | inl (e, bad) ↦ rw bad (free, s)
  | inr (good, used) ↦
      elim (Bool-cases (isset (inst.children offset).childcaps cap_child_context_close)) [
        | inr refused ↦ rw (good, refused) (free, s)
        | inl allowed ↦ rw (good, allowed) (offset ∷ free, release-IsSound inst offset free s used)
      ]
]

reduce-IsSound :
    (caps : Caps) (inst : Instance) (free : List ℕ)
    → length caps ≡ 1
    → IsSound inst free
    → IsSound (reduce_capabilities caps inst).1 free
unfolding reduce_capabilities
reduce-IsSound caps inst free one s =
    elim (Bool-cases (isset inst.apicaps cap_root_context_reduce_caps)) [
      | inr refused ↦ rw refused s
      | inl allowed ↦ rw allowed (record {
        chained = s.chained;
        used = s.used;
        bounded = s.bounded;
        sealed = s.sealed;
        sized = length-intersect inst.apicaps caps (s.sized ∙ sym one) ∙ s.sized;
      })
    ]

init_root_context-IsSound :
    (opened : Result (Unit {0})) (inst : Instance) (free : List ℕ)
    → IsSound inst free
    → IsSound (init_root_context opened inst).1 free
unfolding init_root_context
init_root_context-IsSound opened inst free s =
    elim (Bool-cases (isset inst.apicaps cap_root_context_create)) [
      | inr refused ↦ rw refused s
      | inl allowed ↦ rw allowed (record {
        chained = s.chained;
        used = s.used;
        bounded = s.bounded;
        sealed = s.sealed;
        sized = length-root_caps inst.apicaps s.sized;
      })
    ]

serve-IsSound :
    (e : Event) (inst : Instance) (free : List ℕ)
    → IsSound inst free
    → (free' : List ℕ) × IsSound (serve e inst).1 free'
unfolding dispatch_child_context_close dispatch_root_context_reduce_caps
    dispatch_root_context_create
serve-IsSound (create_requested memory req) inst free s =
    elim (create-cases memory req inst free s) [
      | inl (e, failed, s', keeps) ↦ (free, s')
      | inr (i, rest, first, done, s', used, caps, keeps) ↦ (rest, s')
    ]
serve-IsSound (close_requested req) inst free s =
    elim (decode_request_child_context_close req)
      as (λ d.
        (free' : List ℕ) × IsSound
          (decoded d (λ r inst. close_child (child_context_lookup inst (index_of r)) inst) inst).1
          free') [ err e ↦ (free, s) | ok r ↦ close_child-IsSound (index_of r) inst free s ]
serve-IsSound (reduce_requested req) inst free s = elim (decode_reduce-cases req) [
  | inl bad ↦ rw bad (free, s)
  | inr good ↦ rw good (free, reduce-IsSound (from_le req ∷ []) inst free refl s)
]
serve-IsSound (root_requested open_database allocate req) inst free s =
    elim (decode_request_root_context_init (some req) (some allocate) true)
      as (λ d.
        (free' : List ℕ) × IsSound
          (decoded d (λ r. init_root_context (opening open_database r)) inst).1 free') [
            | err e ↦ (free, s)
            | ok r ↦ (free, init_root_context-IsSound (opening open_database r) inst free s)
          ]

serve_all-IsSound :
    (es : List Event) (inst : Instance) (free : List ℕ)
    → IsSound inst free
    → (free' : List ℕ) × IsSound (serve_all es inst) free'
serve_all-IsSound [] inst free s = (free, s)
serve_all-IsSound (e ∷ es) inst free s =
    let (free', s') = serve-IsSound e inst free s in serve_all-IsSound es (serve e inst).1 free' s'

-- the free list of a new instance
abbrev pub countdown : ℕ → List ℕ
countdown zero = []
countdown (suc i) = i ∷ countdown i

has-countdown : (n j : ℕ) → has j (countdown n) ≡ ltb j n
has-countdown zero j = ground arith
has-countdown (suc n) j = ground (arith, has-countdown n j)

link_children-cleared : (n j : ℕ) → ((link_children n blank).children j).dispose ≡ false
unfolding link_children
link_children-cleared zero j = refl
link_children-cleared (suc n) j = elim (Bool-cases (n == j)) [
  | inl hit ↦ rw hit (link_children-cleared n n)
  | inr miss ↦ rw miss (link_children-cleared n j)
]

link_children-Chained :
    (n : ℕ)
    → n ≤ max_child_contexts
    → Chained (link_children n blank).children (link_children n blank).child_head (countdown n)
unfolding link_children
link_children-Chained zero h = refl
link_children-Chained (suc n) h =
    let inst = link_children n blank in
    (
      refl,
      rw (==_refl n) (link_children-cleared n n),
      ground (arith, has-countdown n n),
      omega arith,
      rw (==_refl n) (
          Chained-frame inst.children
            (assign n (record (inst.children n) { next = inst.child_head }) inst.children)
            inst.child_head (countdown n) (link_children-Chained n (omega arith))
            (λ j m. ground (arith, has-countdown n j))),
    )

link_children-apicaps : (n : ℕ) → (link_children n blank).apicaps ≡ blank.apicaps
unfolding link_children
link_children-apicaps zero = refl
link_children-apicaps (suc n) = link_children-apicaps n

blank_sized : length blank.apicaps ≡ 1
unfolding set_true change
blank_sized = refl

link_children-IsSound :
    (n : ℕ) → n ≡ max_child_contexts → IsSound (link_children n blank) (countdown n)
link_children-IsSound n e = record {
  chained = link_children-Chained n (omega arith);
  used = λ j b m. ground (arith, has-countdown n j);
  bounded = λ j h. ground (arith, link_children-cleared n j);
  sealed = λ j h. ground (arith, link_children-cleared n j);
  sized = ap length (link_children-apicaps n) ∙ blank_sized;
}

-- In a new instance all slots are free.
pub instance_create-IsSound : IsSound instance_create (countdown max_child_contexts)
unfolding instance_create
instance_create-IsSound = link_children-IsSound max_child_contexts refl

-- Whatever requests to open the root context, which grants the root its capabilities, to create and
-- close child contexts and to reduce the root's capabilities arrive at a new instance, in whatever
-- order, and with whatever status the database opens, each slot of the array is afterwards either on the free
-- list, once, or in use, and no context in use has the capability to create contexts.
pub serve_all-instance_create :
    (es : List Event) → (free : List ℕ) × IsSound (serve_all es instance_create) free
serve_all-instance_create es =
    serve_all-IsSound es instance_create (countdown max_child_contexts) instance_create-IsSound
