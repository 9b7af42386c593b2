-- ===== src/Responses/Laws.antt =====
-- The encoders and decoders of responses, one behind the other.
use v_c_agentd.Prelude.{
  ℕ, ◌+◌, ◌<◌, ◌%◌, ◌^◌, ◌≡◌, refl, Bool, true, false, Option, none, some, [], ◌++◌, ◌==◌, arith,
  ltb, length, take-append, drop-append, take_all,
}
use mathlib.Core.List.{append-nil}
use v_c_agentd.Wire.{Bytes, put32, get32}
use v_c_agentd.Wire.Laws.{get32-put32, length-put32}
use v_c_agentd.Status.{ok, guard, ◌>>=◌, ◌>>◌}
use v_c_agentd.Method.{
  method_id, ll_child_context_create, app_pq_transaction_submit, app_pq_transaction_read,
}
use v_c_agentd.Responses.Packet.{
  lengths, drop-past, packet, length-packet, behind_status, read_header-packet,
}
use v_c_agentd.Responses.{
  data_of, write_status, Reply, encode_response_transaction_get,
  encode_response_child_context_create, check_response, dat_size, reply_of,
  decode_response_transaction_submit, decode_response_child_context_create,
  decode_response_transaction_get,
}

module _ (malloc : ℕ → Bool) (memory : (n : ℕ) → malloc n ≡ true) (offset status : ℕ)
    (ho : offset < 2 ^ 32) (hs : status < 2 ^ 32) where
  pub write_status-packet :
      (method : ℕ) (payload : Option Bytes)
      → 12 + length (data_of payload) < 2 ^ 32
      → write_status malloc method offset status payload
        ≡ ok (packet method offset status (data_of payload))
  unfolding write_status
  write_status-packet method payload small = rw (
    memory (12 + length (data_of payload)),
    whole,
    take_all (12 + length (data_of payload)) (packet method offset status (data_of payload))
        (omega lengths),
  )
    where
      whole : (12 + length (data_of payload)) % 2 ^ 32 ≡ 12 + length (data_of payload)
      whole = omega arith

  -- Where there is memory, a 32-bit status of a submission, sent with a 32-bit offset, is
  -- decoded by the client.
  submit-response :
      (write_status malloc (method_id app_pq_transaction_submit) offset status none >>= λ resp.
      decode_response_transaction_submit (some resp) true)
      ≡ ok (offset, status, some tt)
  unfolding decode_response_transaction_submit check_response guard ◌>>=◌ ◌>>◌
  submit-response = rw (
    write_status-packet (method_id app_pq_transaction_submit) none (omega arith),
    exact,
    read_header-packet (method_id app_pq_transaction_submit) offset status [] (omega arith) ho hs,
  )
    where
      exact : (length (packet (method_id app_pq_transaction_submit) offset status []) == 12) ≡ true
      exact = ground (
        arith,
        length-packet (method_id app_pq_transaction_submit) offset status [] (omega arith) ho hs,
      )

-- The ids have sixteen bytes, and the state four.
abbrev pub IsReply : Reply → Type 0
IsReply r =
    (length r.txn_id ≡ 16)
    × (length r.prev_id ≡ 16)
    × (length r.next_id ≡ 16)
    × (length r.artifact_id ≡ 16)
    × (length r.net_txn_state ≡ 4)

-- the parts of a reply behind each other
abbrev laid_out : Reply → Bytes
laid_out r =
    r.txn_id ++ (r.prev_id ++ (r.next_id ++ (r.artifact_id ++ (r.net_txn_state ++ r.cert))))

length-laid_out : (r : Reply) → IsReply r → length (laid_out r) ≡ 68 + length r.cert
length-laid_out r (hx, hp, hn, ha, hs) = omega lengths

reply_of-laid_out : (r : Reply) → IsReply r → reply_of (length r.cert) (laid_out r) ≡ r
reply_of-laid_out r (hx, hp, hn, ha, hs) =
    let c0 = r.cert in
    let c1 = r.net_txn_state ++ c0 in
    let c2 = r.artifact_id ++ c1 in
    let c3 = r.next_id ++ c2 in
    let c4 = r.prev_id ++ c3 in
    rw (
      take-append 16 r.txn_id c4 hx,
      drop-append 16 r.txn_id c4 hx,
      take-append 16 r.prev_id c3 hp,
      drop-past 32 16 16 r.txn_id c4 refl hx,
      drop-append 16 r.prev_id c3 hp,
      take-append 16 r.next_id c2 hn,
      drop-past 48 16 32 r.txn_id c4 refl hx,
      drop-past 32 16 16 r.prev_id c3 refl hp,
      drop-append 16 r.next_id c2 hn,
      take-append 16 r.artifact_id c1 ha,
      drop-past 64 16 48 r.txn_id c4 refl hx,
      drop-past 48 16 32 r.prev_id c3 refl hp,
      drop-past 32 16 16 r.next_id c2 refl hn,
      drop-append 16 r.artifact_id c1 ha,
      take-append 4 r.net_txn_state c0 hs,
      drop-past 68 16 52 r.txn_id c4 refl hx,
      drop-past 52 16 36 r.prev_id c3 refl hp,
      drop-past 36 16 20 r.next_id c2 refl hn,
      drop-past 20 16 4 r.artifact_id c1 refl ha,
      drop-append 4 r.net_txn_state c0 hs,
      take_all (length c0) c0 refl,
    )

module _ (malloc : ℕ → Bool) (memory : (n : ℕ) → malloc n ≡ true) (offset : ℕ)
    (ho : offset < 2 ^ 32) where
  encode-laid_out :
      (r : Reply) → IsReply r → encode_response_transaction_get malloc r ≡ ok (laid_out r)
  unfolding encode_response_transaction_get
  encode-laid_out r (hx, hp, hn, ha, hs) = rw (
    memory (68 + length r.cert),
    take_all 16 r.txn_id hx,
    take_all 16 r.prev_id hp,
    take_all 16 r.next_id hn,
    take_all 16 r.artifact_id ha,
    take_all 4 r.net_txn_state hs,
  )

  -- Where there is memory, a queued transaction whose ids have sixteen bytes and whose state
  -- has four, in a packet of fewer than 2^32 bytes, sent by the service with the status of
  -- success and a 32-bit offset, is decoded by the client as it is.
  pub get-response :
      (r : Reply)
      → IsReply r
      → 80 + length r.cert < 2 ^ 32
      → (encode_response_transaction_get malloc r >>= λ payload.
          write_status malloc (method_id app_pq_transaction_read) offset 0 (some payload)
          >>= λ resp. decode_response_transaction_get (some resp) true)
        ≡ ok (offset, 0, some r)
  unfolding decode_response_transaction_get check_response guard ◌>>=◌ ◌>>◌
  get-response r h bound = rw (
    encode-laid_out r h,
    write_status-packet malloc memory offset 0 ho (omega arith) (method_id app_pq_transaction_read)
        (some (laid_out r)) small,
    read_header-packet (method_id app_pq_transaction_read) offset 0 (laid_out r) (omega arith) ho
        (omega arith),
    long,
    behind_status (method_id app_pq_transaction_read) offset 0 (laid_out r) (omega arith) ho
        (omega arith),
    fits,
    reply_of-laid_out r h,
  )
    where
      small : 12 + length (laid_out r) < 2 ^ 32
      small = omega (arith, length-laid_out r h)

      fits :
          dat_size (length (packet (method_id app_pq_transaction_read) offset 0 (laid_out r))) 68
          ≡ length r.cert
      fits = omega (
        arith,
        length-packet (method_id app_pq_transaction_read) offset 0 (laid_out r) (omega arith) ho
            (omega arith),
        length-laid_out r h,
      )

      long :
          ltb (length (packet (method_id app_pq_transaction_read) offset 0 (laid_out r))) 80 ≡ false
      long = ground (
        arith,
        length-packet (method_id app_pq_transaction_read) offset 0 (laid_out r) (omega arith) ho
            (omega arith),
        length-laid_out r h,
      )

  -- Where there is memory, the 32-bit index of a new child context, sent with the status of
  -- success and a 32-bit offset, is decoded by the client.
  pub create-response :
      (i : ℕ)
      → i < 2 ^ 32
      → (encode_response_child_context_create malloc i >>= λ payload.
          write_status malloc (method_id ll_child_context_create) offset 0 (some payload)
          >>= λ resp. decode_response_child_context_create (some resp) true)
        ≡ ok (offset, 0, some i)
  unfolding encode_response_child_context_create decode_response_child_context_create check_response
      guard ◌>>=◌ ◌>>◌
  create-response i hi = rw (
    memory 4,
    write_status-packet malloc memory offset 0 ho (omega arith) (method_id ll_child_context_create)
        (some (put32 i)) (omega (arith, length-put32 i)),
    read_header-packet (method_id ll_child_context_create) offset 0 (put32 i) (omega arith) ho
        (omega arith),
    long,
    behind_status (method_id ll_child_context_create) offset 0 (put32 i) (omega arith) ho
        (omega arith),
    alone,
  )
    where
      long : ltb (length (packet (method_id ll_child_context_create) offset 0 (put32 i))) 16 ≡ false
      long = ground (
        arith,
        length-packet (method_id ll_child_context_create) offset 0 (put32 i) (omega arith) ho
            (omega arith),
        length-put32 i,
      )

      alone : get32 (put32 i) ≡ i
      alone = rw append-nil at (get32-put32 i [] hi)

  -- Where there is memory, a 32-bit status other than that of success, sent with a 32-bit
  -- offset and whatever payload of fewer than 2^32 - 12 bytes, is decoded by the client of a transaction read, without a
  -- transaction.
  get-response-failed :
      (status : ℕ) (payload : Option Bytes)
      → status < 2 ^ 32
      → (status == 0) ≡ false
      → 12 + length (data_of payload) < 2 ^ 32
      → (write_status malloc (method_id app_pq_transaction_read) offset status payload >>= λ resp.
          decode_response_transaction_get (some resp) true)
        ≡ ok (offset, status, none)
  unfolding decode_response_transaction_get check_response guard ◌>>=◌ ◌>>◌
  get-response-failed status payload hs failed small = rw (
    write_status-packet malloc memory offset status ho hs (method_id app_pq_transaction_read)
        payload small,
    read_header-packet (method_id app_pq_transaction_read) offset status (data_of payload)
        (omega arith) ho hs,
    failed,
  )
