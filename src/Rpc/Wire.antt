-- ===== src/Rpc/Wire.antt =====
-- What src/thrift calls of thrift's TProtocol, and the loop in which every struct is read.
pub mod Fields
pub mod Ends
use short_message.Prelude.{
  ℕ, zero, suc, ◌^◌, ◌≤◌, ◌<◌, ◌≡◌, ◌≢◌, Option, none, some, ◌++◌, Bytes, length,
}
use short_message.Prelude.Int.{ℤ, pos, negsuc}
use short_message.Memory.{text}
use short_message.Machine.{Result, ok, fault, thrown, spinning, ◌>>=◌}

-- TType; `t_other` holds the types that im.thrfit does not use.
pub data TType : Type 0 where
  t_stop t_i32 t_string t_struct : TType
  t_other : ℕ → TType

-- TMessageType
pub data TMessageType : Type 0 where
  t_call t_reply t_exception t_oneway : TMessageType

-- A protocol on a transport: what a call writes, and what it reads from the front of the bytes that
-- wait; `none` is a thrift exception.
pub record TProtocol : Type 0 where
  pub write_struct_begin : Bytes → Bytes
  pub write_struct_end : Bytes
  pub write_field_begin : Bytes → TType → ℤ → Bytes
  pub write_field_end : Bytes
  pub write_field_stop : Bytes
  pub write_i32 : ℤ → Bytes
  pub write_string : Bytes → Bytes
  pub write_message_begin : Bytes → TMessageType → ℤ → Bytes
  pub write_message_end : Bytes
  pub read_struct_begin : Bytes → Option Bytes
  pub read_struct_end : Bytes → Option Bytes
  pub read_field_begin : Bytes → Option (TType × ℤ × Bytes)
  pub read_field_end : Bytes → Option Bytes
  pub read_i32 : Bytes → Option (ℤ × Bytes)
  pub read_string : Bytes → Option (Bytes × Bytes)
  pub read_message_begin : Bytes → Option (Bytes × TMessageType × ℤ × Bytes)
  pub read_message_end : Bytes → Option Bytes
  pub skip : TType → Bytes → Option Bytes
  -- TApplicationException, with its text
  pub write_exception : Bytes → Bytes
  pub read_exception : Bytes → Option (Bytes × Bytes)

abbrev pub IsI32 : ℤ → Type 0
IsI32 (pos n) = n < 2 ^ 31
IsI32 (negsuc n) = n < 2 ^ 31

module _ (p : TProtocol) where
  open p use {
    write_struct_begin, write_struct_end, write_field_begin, write_field_end, write_field_stop,
    write_i32, write_string, write_message_begin, write_message_end, write_exception,
    read_struct_begin, read_struct_end, read_field_begin, read_field_end, read_i32, read_string,
    read_message_begin, read_message_end, read_exception, skip,
  }

  -- What a thrift protocol documents: it reads back what it has written, whatever follows.
  pub record IsRoundTrip : Type 0 where
    pub struct_begin :
        (name : Bytes) (rest : Bytes)
        → read_struct_begin (write_struct_begin name ++ rest) ≡ some rest
    pub struct_end : (rest : Bytes) → read_struct_end (write_struct_end ++ rest) ≡ some rest
    pub field_begin :
        (name : Bytes) (type : TType) (id : ℤ) (rest : Bytes)
        → type ≢ t_stop
        → read_field_begin (write_field_begin name type id ++ rest) ≡ some (type, id, rest)
    pub field_end : (rest : Bytes) → read_field_end (write_field_end ++ rest) ≡ some rest
    pub field_stop :
        (rest : Bytes)
        → (id : ℤ) × (read_field_begin (write_field_stop ++ rest) ≡ some (t_stop, id, rest))
    pub i32 : (v : ℤ) (rest : Bytes) → IsI32 v → read_i32 (write_i32 v ++ rest) ≡ some (v, rest)
    pub string :
        (s rest : Bytes) → length s < 2 ^ 31 → read_string (write_string s ++ rest) ≡ some (s, rest)
    pub message_begin :
        (name : Bytes) (type : TMessageType) (seqid : ℤ) (rest : Bytes)
        → read_message_begin (write_message_begin name type seqid ++ rest)
          ≡ some (name, type, seqid, rest)
    pub message_end : (rest : Bytes) → read_message_end (write_message_end ++ rest) ≡ some rest
    pub exception :
        (what : Bytes) (rest : Bytes)
        → read_exception (write_exception what ++ rest) ≡ some (what, rest)

  -- No call puts bytes back, and the header of a field takes at least one byte.
  pub record IsConsuming : Type 0 where
    pub struct_begin : (b rest : Bytes) → read_struct_begin b ≡ some rest → length rest ≤ length b
    pub struct_end : (b rest : Bytes) → read_struct_end b ≡ some rest → length rest ≤ length b
    pub field_begin :
        (b rest : Bytes) (type : TType) (id : ℤ)
        → read_field_begin b ≡ some (type, id, rest)
        → length rest < length b
    pub field_end : (b rest : Bytes) → read_field_end b ≡ some rest → length rest ≤ length b
    pub i32 : (b rest : Bytes) (v : ℤ) → read_i32 b ≡ some (v, rest) → length rest ≤ length b
    pub string : (b rest s : Bytes) → read_string b ≡ some (s, rest) → length rest ≤ length b
    pub skip : (b rest : Bytes) (type : TType) → skip type b ≡ some rest → length rest ≤ length b

-- A thrift exception leaves the code that reads.
abbrev pub raised {ℓ} : {A : Type ℓ} → Option A → Result A
raised none = fault thrown
raised (some a) = ok a

-- What a `switch (fid)` does with a field.
abbrev pub Switch : Type 0 → Type 0
Switch A = ℤ → TType → A → Bytes → Result (A × Bytes)

module _ (p : TProtocol) where
  open p use {read_struct_begin, read_struct_end, read_field_begin, read_field_end, skip}

  -- `xfer += iprot->skip(ftype)`
  abbrev pub skipped : {A : Type 0} → Switch A
  skipped id type a b = do rest ← raised (skip type b); ok (a, rest)

  -- The loop body after `readFieldBegin`, and the rounds after it.
  unfoldable pub field :
      {A : Type 0}
      → Switch A
      → (A → Bytes → Result (A × Bytes))
      → TType
      → ℤ
      → A
      → Bytes
      → Result (A × Bytes)
  field switch more t_stop id a b = ok (a, b)
  field switch more type id a b = do
    (a', b₁) ← switch id type a b
    b₂ ← raised (read_field_end b₁)
    more a' b₂

  -- `while (true)`, for at most so many rounds.
  unfoldable pub read_fields : {A : Type 0} → Switch A → ℕ → A → Bytes → Result (A × Bytes)
  unfolding field
  read_fields switch zero a b = fault spinning
  read_fields switch (suc n) a b = do
    (type, id, rest) ← raised (read_field_begin b)
    field switch (read_fields switch n) type id a rest

  -- The `read` of a struct. There are at most as many rounds as bytes wait, and one more.
  unfoldable pub read_struct : {A : Type 0} → Switch A → A → Bytes → Result (A × Bytes)
  unfolding read_fields
  read_struct switch a b = do
    b₁ ← raised (read_struct_begin b)
    (a', b₂) ← read_fields switch (suc (length b₁)) a b₁
    b₃ ← raised (read_struct_end b₂)
    ok (a', b₃)
