-- ===== src/Client/Access.antt =====
-- The handler of test/LogicServer/src/LogicInterfaceHandler.cpp, the stand-in for an access server: what
-- it prints of a message. Its loop over the beams is left out: it iterates over an int32_t.
use short_message.Prelude.{
  ℕ, ◌≤◌, ◌≡◌, refl, ◌==◌, ◌∷◌, [], ◌++◌, Bytes, length, some, if◌then◌else◌, arith, append_assoc,
}
use short_message.Prelude.Int.{ℤ}
use short_message.Machine.{Result, ok, ◌>>=◌, in_bounds}
use short_message.Memory.{htonl, htons, c_string, c_string-append, c_string-IsText}
use short_message.Protocol.{ControlHead, Response}
use short_message.Protocol.Signal
use short_message.World.{AccessMessage}
use short_message.Coder.{header, message_encode, response_encode}
use short_message.Coder.RoundTrip.{Fits, client_head-header, message_encode_total}
use short_message.Client.{ClientHead, client_head, client_response}

-- What is printed after the type.
pub data Detail : Type 0 where
  no_detail : Detail
  content_line : Bytes → Detail
  receipt_lines : ℕ → ℕ → Detail

-- The lines, in the order in which they are printed.
pub record Printed : Type 0 where
  pub uid : ℤ
  pub msg : Bytes
  pub to_id : ℕ
  pub from_id : ℕ
  pub frame_id : ℕ
  pub type : ℕ
  pub detail : Detail

-- switch (control_head->type)
unfoldable pub print_detail : ClientHead → Bytes → Result Detail
print_detail head p =
    if head.type == Signal.simple_message
    then (do content ← in_bounds (c_string head.content); ok (content_line content))
    else if head.type == Signal.receipte
    then (do rept ← client_response p; ok (receipt_lines rept.receipt_type rept.receipt_indicate))
    else ok no_detail

-- LogicToAccess; `content.c_str()` ends in a NUL.
unfoldable pub print_response : AccessMessage → Result Printed
print_response m = do
  head ← client_head (m.content ++ 0 ∷ [])
  detail ← print_detail head (m.content ++ 0 ∷ [])
  ok (record {
    uid = m.uid;
    msg = m.content;
    to_id = htonl head.to_id;
    from_id = htonl head.from_id;
    frame_id = htons head.frame_id;
    type = head.type;
    detail = detail;
  })

-- A receipt (0x80) whose ids are below 2 ^ 32 and whose frame is below 2 ^ 16 is encoded in 15 bytes,
-- one more than the struct has; the access server prints its ids and its frame in the order of the
-- host, and its receipt_type and receipt_indicate.
pub print_response-response_encode :
    (r : Response) (uid sate_id beam_id level : ℤ)
    → Fits r.to_id r.from_id r.frame_id
    → r.type ≡ Signal.receipte
    → (length (response_encode r) ≡ 15)
      × (print_response (record {
        uid = uid;
        sate_id = sate_id;
        beam_id = beam_id;
        level = level;
        content = response_encode r;
      })
          ≡ ok (record {
            uid = uid;
            msg = response_encode r;
            to_id = htonl r.to_id;
            from_id = htonl r.from_id;
            frame_id = htons r.frame_id;
            type = Signal.receipte;
            detail = receipt_lines r.receipt_type r.receipt_indicate;
          }))
unfolding print_response print_detail client_head client_response response_encode
print_response-response_encode r uid sate_id beam_id level f t = (refl, ground arith)

-- What the access server prints of a simple message (0x40) that the server has encoded: the ids and the
-- frame in the order of the host, and the text up to its first NUL.
pub print_response-message_encode :
    (h : ControlHead) (s : Bytes) (m : AccessMessage) (uid : ℤ)
    → Fits h.to_id h.from_id h.frame_id
    → h.type ≡ Signal.simple_message
    → c_string h.content ≡ some s
    → length s ≤ 1011
    → message_encode h ≡ ok m.content
    → m.uid ≡ uid
    → print_response m
      ≡ ok (record {
        uid = uid;
        msg = m.content;
        to_id = htonl h.to_id;
        from_id = htonl h.from_id;
        frame_id = htons h.frame_id;
        type = Signal.simple_message;
        detail = content_line s;
      })
unfolding print_response print_detail
print_response-message_encode h s m uid f t e le encoded to =
    let content : m.content ≡ header h.to_id h.from_id h.frame_id h.type h.retain ++ s ++ 0 ∷ [] =
      cc (message_encode_total h s e le) in
    let head =
      client_head-header h.to_id h.from_id h.frame_id h.type h.retain (s ++ 0 ∷ 0 ∷ []) f in
    rw
      (
        content,
        to,
        append_assoc s (0 ∷ []) (0 ∷ []),
        head,
        t,
        c_string-append s (0 ∷ []) (c_string-IsText h.content s e),
      )
      refl
