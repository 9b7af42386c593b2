-- ===== src/Responses/Answers/Certified.antt =====
-- The responses that carry a certificate, encoded by the service and decoded by the client.
use v_c_agentd.Prelude.{
  ℕ, refl, ◌+◌, ◌*◌, ◌<◌, ◌^◌, ◌≡◌, Bool, true, false, some, List, [], ◌∷◌, arith, ltb, length,
  take-append, take_all,
}
use v_c_agentd.Wire.{Bytes, put64}
use v_c_agentd.Wire.Laws.{length-put64}
use v_c_agentd.Status.{ok, guard, ◌>>=◌, ◌>>◌}
use v_c_agentd.Method.{method_id, app_block_read, app_transaction_read}
use v_c_agentd.Responses.{write_status, check_response, dat_size}
use v_c_agentd.Responses.Packet.{packet, length-packet, behind_status, read_header-packet}
use v_c_agentd.Responses.Laws.{write_status-packet}
use v_c_agentd.Responses.Fields.{behind, length-behind, rest_at, field_at}
use v_c_agentd.Responses.Reads.{
  asked, encode_response_block_read, block_of_reply, decode_response_block_get, CanonizedReply,
  encode_response_canonized_transaction_get, canonized_of_reply,
  decode_response_canonized_transaction_get,
}

abbrev pub IsId : Bytes → Type 0
IsId bs = length bs ≡ 16

module _ (malloc : ℕ → Bool) (memory : (n : ℕ) → malloc n ≡ true) (offset : ℕ)
    (ho : offset < 2 ^ 32) where
  module _ (a b c d h tail : Bytes) (ha : IsId a) (hb : IsId b) (hc : IsId c) (hd : IsId d)
      (hh : length h ≡ 8) where
    abbrev block_fields : List Bytes
    block_fields = a ∷ b ∷ c ∷ d ∷ h ∷ []

    block_of_reply-behind : block_of_reply (length tail) (behind block_fields tail) ≡ record {
      block_id = a;
      prev_id = b;
      next_id = c;
      first_txn_id = d;
      net_block_height = h;
      cert = tail;
    }
    block_of_reply-behind = rw (
      take-append 16 a (behind (b ∷ c ∷ d ∷ h ∷ []) tail) ha,
      field_at (a ∷ []) b (c ∷ d ∷ h ∷ []) tail 16 16 (omega arith) hb,
      field_at (a ∷ b ∷ []) c (d ∷ h ∷ []) tail 32 16 (omega arith) hc,
      field_at (a ∷ b ∷ c ∷ []) d (h ∷ []) tail 48 16 (omega arith) hd,
      field_at (a ∷ b ∷ c ∷ d ∷ []) h [] tail 64 8 (omega arith) hh,
      rest_at (a ∷ b ∷ c ∷ d ∷ h ∷ []) tail 72 (omega arith),
      take_all (length tail) tail refl,
    )

  pub block-answer :
      (a b c d : Bytes) (height : ℕ) (write_cert : Bool) (cert : Bytes)
      → IsId a
      → IsId b
      → IsId c
      → IsId d
      → 84 + length (asked write_cert cert) < 2 ^ 32
      → (encode_response_block_read malloc a b c d height write_cert cert >>= λ payload.
          write_status malloc (method_id app_block_read) offset 0 (some payload) >>= λ resp.
          decode_response_block_get (some resp) true)
        ≡ ok (
          offset,
          0,
          some (record {
            block_id = a;
            prev_id = b;
            next_id = c;
            first_txn_id = d;
            net_block_height = put64 height;
            cert = asked write_cert cert;
          }),
        )
  unfolding encode_response_block_read decode_response_block_get check_response guard ◌>>=◌ ◌>>◌
  block-answer a b c d height write_cert cert ha hb hc hd bound = rw (
    memory (4 * 16 + 8 + length (asked write_cert cert)),
    take_all 16 a ha,
    take_all 16 b hb,
    take_all 16 c hc,
    take_all 16 d hd,
    write_status-packet malloc memory offset 0 ho (omega arith) (method_id app_block_read)
        (some body) small,
    read_header-packet (method_id app_block_read) offset 0 body (omega arith) ho (omega arith),
    long,
    behind_status (method_id app_block_read) offset 0 body (omega arith) ho (omega arith),
    fits,
    block_of_reply-behind a b c d (put64 height) (asked write_cert cert) ha hb hc hd
        (length-put64 height),
  )
    where
      body : Bytes
      body = behind (a ∷ b ∷ c ∷ d ∷ put64 height ∷ []) (asked write_cert cert)

      size :
          length (packet (method_id app_block_read) offset 0 body)
          ≡ 84 + length (asked write_cert cert)
      size = omega (
        arith,
        length-packet (method_id app_block_read) offset 0 body (omega arith) ho (omega arith),
        length-behind (a ∷ b ∷ c ∷ d ∷ put64 height ∷ []) (asked write_cert cert),
        length-put64 height,
      )

      small : 12 + length body < 2 ^ 32
      small = omega (
        arith,
        length-behind (a ∷ b ∷ c ∷ d ∷ put64 height ∷ []) (asked write_cert cert),
        length-put64 height,
      )

      fits :
          dat_size (length (packet (method_id app_block_read) offset 0 body)) 72
          ≡ length (asked write_cert cert)
      fits = omega (arith, size)

      long : ltb (length (packet (method_id app_block_read) offset 0 body)) 84 ≡ false
      long = ground (arith, size)

  module _ (a b c d b' s tail : Bytes) (ha : IsId a) (hb : IsId b) (hc : IsId c) (hd : IsId d)
      (hb' : IsId b') (hs : length s ≡ 4) where
    canonized_of_reply-behind :
        canonized_of_reply (length tail) (behind (a ∷ b ∷ c ∷ d ∷ b' ∷ s ∷ []) tail) ≡ record {
          txn_id = a;
          prev_id = b;
          next_id = c;
          artifact_id = d;
          block_id = b';
          net_txn_state = s;
          cert = tail;
        }
    canonized_of_reply-behind = rw (
      take-append 16 a (behind (b ∷ c ∷ d ∷ b' ∷ s ∷ []) tail) ha,
      field_at (a ∷ []) b (c ∷ d ∷ b' ∷ s ∷ []) tail 16 16 (omega arith) hb,
      field_at (a ∷ b ∷ []) c (d ∷ b' ∷ s ∷ []) tail 32 16 (omega arith) hc,
      field_at (a ∷ b ∷ c ∷ []) d (b' ∷ s ∷ []) tail 48 16 (omega arith) hd,
      field_at (a ∷ b ∷ c ∷ d ∷ []) b' (s ∷ []) tail 64 16 (omega arith) hb',
      field_at (a ∷ b ∷ c ∷ d ∷ b' ∷ []) s [] tail 80 4 (omega arith) hs,
      rest_at (a ∷ b ∷ c ∷ d ∷ b' ∷ s ∷ []) tail 84 (omega arith),
      take_all (length tail) tail refl,
    )

  -- the ids have sixteen bytes, and the state four
  abbrev IsCanonizedReply : CanonizedReply → Type 0
  IsCanonizedReply r =
      IsId r.txn_id
      × IsId r.prev_id
      × IsId r.next_id
      × IsId r.artifact_id
      × IsId r.block_id
      × (length r.net_txn_state ≡ 4)

  pub canonized-answer :
      (r : CanonizedReply) (write_cert : Bool)
      → IsCanonizedReply r
      → 96 + length (asked write_cert r.cert) < 2 ^ 32
      → (encode_response_canonized_transaction_get malloc r write_cert >>= λ payload.
          write_status malloc (method_id app_transaction_read) offset 0 (some payload) >>= λ resp.
          decode_response_canonized_transaction_get (some resp) true)
        ≡ ok (offset, 0, some (record r { cert = asked write_cert r.cert }))
  unfolding encode_response_canonized_transaction_get decode_response_canonized_transaction_get
      check_response guard ◌>>=◌ ◌>>◌
  canonized-answer r write_cert (ha, hb, hc, hd, hb', hs) bound = rw (
    memory (5 * 16 + 4 + length (asked write_cert r.cert)),
    take_all 16 r.txn_id ha,
    take_all 16 r.prev_id hb,
    take_all 16 r.next_id hc,
    take_all 16 r.artifact_id hd,
    take_all 16 r.block_id hb',
    take_all 4 r.net_txn_state hs,
    write_status-packet malloc memory offset 0 ho (omega arith) (method_id app_transaction_read)
        (some body) small,
    read_header-packet (method_id app_transaction_read) offset 0 body (omega arith) ho
        (omega arith),
    long,
    behind_status (method_id app_transaction_read) offset 0 body (omega arith) ho (omega arith),
    fits,
    canonized_of_reply-behind r.txn_id r.prev_id r.next_id r.artifact_id r.block_id r.net_txn_state
        (asked write_cert r.cert) ha hb hc hd hb' hs,
  )
    where
      parts : List Bytes
      parts = r.txn_id ∷ r.prev_id ∷ r.next_id ∷ r.artifact_id ∷ r.block_id ∷ r.net_txn_state ∷ []

      body : Bytes
      body = behind parts (asked write_cert r.cert)

      size :
          length (packet (method_id app_transaction_read) offset 0 body)
          ≡ 96 + length (asked write_cert r.cert)
      size = omega (
        arith,
        length-packet (method_id app_transaction_read) offset 0 body (omega arith) ho (omega arith),
        length-behind parts (asked write_cert r.cert),
      )

      small : 12 + length body < 2 ^ 32
      small = omega (arith, length-behind parts (asked write_cert r.cert))

      fits :
          dat_size (length (packet (method_id app_transaction_read) offset 0 body)) 84
          ≡ length (asked write_cert r.cert)
      fits = omega (arith, size)

      long : ltb (length (packet (method_id app_transaction_read) offset 0 body)) 96 ≡ false
      long = ground (arith, size)
