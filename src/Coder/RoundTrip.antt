-- ===== src/Coder/RoundTrip.antt =====
-- A receiver that reads the encoders' output as the client does gets every field back.
use short_message.Prelude.{
  ℕ, ◌+◌, ◌-◌, ◌≤◌, ◌<◌, ◌^◌, ◌≡◌, refl, ◌∷◌, [], ◌++◌, Bytes, length, replicate, arith, some, ◌⊎◌,
  inl, inr, Bool-cases, ltb,
}
use short_message.Machine.{Result, ok, fault, out_of_bounds}
use short_message.Memory.{htonl, htons, c_string, IsText, c_string-append, c_string-IsText}
use short_message.Protocol.{ControlHead, MessageItem}
use short_message.Coder.{header, message_encode, item_encode, copy_string}
use short_message.Client.{ClientHead, client_head, received_content}

-- The fields of a head fit their C types.
pub record Fits (to_id from_id frame_id : ℕ) : Type 0 where
  pub to_fits : to_id < 2 ^ 32
  pub from_fits : from_id < 2 ^ 32
  pub frame_fits : frame_id < 2 ^ 16

pub client_head-header :
    (to_id from_id frame_id type retain : ℕ) (rest : Bytes)
    → Fits to_id from_id frame_id
    → client_head (header to_id from_id frame_id type retain ++ rest)
      ≡ ok (record {
        to_id = to_id;
        from_id = from_id;
        frame_id = frame_id;
        type = type;
        retain = retain;
        content = rest;
      })
unfolding client_head
client_head-header to_id from_id frame_id type retain rest f = ground arith

-- What the client reads from an encoded message.
pub record Delivers (sent : Result Bytes) (head : ClientHead) (s : Bytes) : Type 0 where
  pub bytes : Bytes
  pub encoded : sent ≡ ok bytes
  pub fields : client_head bytes ≡ ok head
  pub content : received_content bytes ≡ ok s

received_content-append :
    (p s : Bytes) {head : ClientHead}
    → client_head p ≡ ok head
    → head.content ≡ s ++ 0 ∷ []
    → IsText s
    → received_content p ≡ ok s
unfolding received_content
received_content-append p s e c t = rw (e, c, c_string-append s [] t)

one_zero : (n : ℕ) → replicate {A = ℕ} (n + 1 - n) 0 ≡ 0 ∷ []
one_zero n = let e : n + 1 - n ≡ 1 = omega arith in rw e

copy_string_lem :
    (head content : Bytes)
    → IsText content
    → length head + length content + 1 ≤ 1024
    → copy_string head content ≡ ok (head ++ content ++ 0 ∷ [])
unfolding copy_string
copy_string_lem head content t le =
    ground (arith, c_string-append content [] t, one_zero (length content))

-- The head that the client is to read.
abbrev pub head_with : ControlHead → Bytes → ClientHead
head_with h content = record {
  to_id = h.to_id;
  from_id = h.from_id;
  frame_id = h.frame_id;
  type = h.type;
  retain = h.retain;
  content = content;
}

pub message_encode_total :
    (h : ControlHead) (s : Bytes)
    → c_string h.content ≡ some s
    → length s ≤ 1011
    → message_encode h ≡ ok (header h.to_id h.from_id h.frame_id h.type h.retain ++ s ++ 0 ∷ [])
unfolding message_encode
message_encode_total h s e le = ground arith

message_encode_overflow :
    (h : ControlHead) (s : Bytes)
    → c_string h.content ≡ some s
    → 1011 < length s
    → message_encode h ≡ fault out_of_bounds
unfolding message_encode
message_encode_overflow h s e lt = ground arith

message_encode_delivered :
    (h : ControlHead) (s : Bytes)
    → c_string h.content ≡ some s
    → length s ≤ 1011
    → Fits h.to_id h.from_id h.frame_id
    → Delivers (message_encode h) (head_with h (s ++ 0 ∷ [])) s
message_encode_delivered h s e le f =
    let fields = client_head-header h.to_id h.from_id h.frame_id h.type h.retain (s ++ 0 ∷ []) f in
    record {
      bytes = header h.to_id h.from_id h.frame_id h.type h.retain ++ s ++ 0 ∷ [];
      encoded = message_encode_total h s e le;
      fields = fields;
      content = received_content-append _ _ fields refl (c_string-IsText h.content s e);
    }

-- `MessageEncode` of a request's head whose content has a first NUL. Up to it the content has at most
-- 1011 bytes, and then a receiver that reads the result as the client does gets back every field of
-- the head and the content up to the NUL; or it has more, and then it is copied past the end of the
-- 1024-byte buffer.
pub message_encode-Delivers :
    (h : ControlHead) (s : Bytes)
    → c_string h.content ≡ some s
    → Fits h.to_id h.from_id h.frame_id
    → ((length s ≤ 1011) × Delivers (message_encode h) (head_with h (s ++ 0 ∷ [])) s)
      ⊎ ((1011 < length s) × (message_encode h ≡ fault out_of_bounds))
message_encode-Delivers h s e f = elim (Bool-cases (ltb 1011 (length s))) [
  | inl long ↦ let lt : 1011 < length s = ground arith in inr (lt, message_encode_overflow h s e lt)
  | inr short ↦
      let le : length s ≤ 1011 = ground arith in inl (le, message_encode_delivered h s e le f)
]

-- A queued message whose content has no NUL and at most 1011 bytes is encoded, and the client reads
-- back its numbers in network order, and its content.
pub item_encode-Delivers :
    (m : MessageItem)
    → IsText m.content
    → length m.content ≤ 1011
    → Delivers
        (item_encode m)
        (record {
          to_id = htonl m.to_id;
          from_id = htonl m.from_id;
          frame_id = htons m.frame_id;
          type = m.type;
          retain = m.retain;
          content = m.content ++ 0 ∷ [];
        })
        m.content
unfolding item_encode
item_encode-Delivers m t le = record {
  bytes =
      header (htonl m.to_id) (htonl m.from_id) (htons m.frame_id) m.type m.retain
      ++ m.content
      ++ 0 ∷ [];
  encoded =
      copy_string_lem (header (htonl m.to_id) (htonl m.from_id) (htons m.frame_id) m.type m.retain)
        m.content t (omega arith);
  fields =
      client_head-header (htonl m.to_id) (htonl m.from_id) (htons m.frame_id) m.type m.retain
        (m.content ++ 0 ∷ []) (omega arith);
  content =
      received_content-append _ _
        (client_head-header (htonl m.to_id) (htonl m.from_id) (htons m.frame_id) m.type m.retain
          (m.content ++ 0 ∷ []) (omega arith))
        refl t;
}
