-- ===== src/Tests/Tags.antt =====
-- A protocol that writes tags and numbers, and meets the laws of one.
use short_message.Prelude.{
  ℕ, zero, suc, ◌≡◌, refl, ◌≢◌, ◌≤◌, ◌<◌, Option, none, some, [], ◌∷◌, ◌++◌, Bytes, length,
  length-drop, take, drop, arith,
}
use short_message.Prelude.Int.{ℤ, pos, negsuc}
use short_message.Rpc.Wire.{
  TType, t_stop, t_i32, t_string, t_struct, t_other, TMessageType, t_call, t_reply, t_exception,
  t_oneway, TProtocol, IsRoundTrip, IsConsuming,
}

abbrev write_type : TType → Bytes
write_type t_stop = 0 ∷ 0 ∷ []
write_type t_i32 = 1 ∷ 0 ∷ []
write_type t_string = 2 ∷ 0 ∷ []
write_type t_struct = 3 ∷ 0 ∷ []
write_type (t_other n) = 4 ∷ n ∷ []

abbrev type_of : ℕ → ℕ → TType
type_of zero n = t_stop
type_of (suc zero) n = t_i32
type_of (suc (suc zero)) n = t_string
type_of (suc (suc (suc zero))) n = t_struct
type_of (suc (suc (suc (suc _)))) n = t_other n

abbrev message_code : TMessageType → ℕ
message_code t_call = 0
message_code t_reply = 1
message_code t_exception = 2
message_code t_oneway = 3

abbrev message_type : ℕ → TMessageType
message_type zero = t_call
message_type (suc zero) = t_reply
message_type (suc (suc zero)) = t_exception
message_type (suc (suc (suc _))) = t_oneway

abbrev write_int : ℤ → Bytes
write_int (pos n) = 0 ∷ n ∷ []
write_int (negsuc n) = 1 ∷ n ∷ []

abbrev int_of : ℕ → ℕ → ℤ
int_of zero n = pos n
int_of (suc _) n = negsuc n

abbrev read_int : Bytes → Option (ℤ × Bytes)
read_int (t ∷ n ∷ rest) = some (int_of t n, rest)
read_int _ = none

abbrev write_text : Bytes → Bytes
write_text s = length s ∷ s

abbrev read_text : Bytes → Option (Bytes × Bytes)
read_text [] = none
read_text (n ∷ b) = some (take n b, drop n b)

abbrev read_header : Bytes → Option (TType × ℤ × Bytes)
read_header (t ∷ n ∷ s ∷ id ∷ rest) = some (type_of t n, int_of s id, rest)
read_header _ = none

abbrev write_message : Bytes → TMessageType → ℤ → Bytes
write_message name type (pos n) = message_code type ∷ 0 ∷ n ∷ length name ∷ name
write_message name type (negsuc n) = message_code type ∷ 1 ∷ n ∷ length name ∷ name

abbrev read_message : Bytes → Option (Bytes × TMessageType × ℤ × Bytes)
read_message (t ∷ s ∷ seqid ∷ n ∷ b) = some (take n b, message_type t, int_of s seqid, drop n b)
read_message _ = none

-- A struct without fields is skipped, and a value of a type that is read.
abbrev skip_value : TType → Bytes → Option Bytes
skip_value t_i32 b = elim (read_int b) [ some (v, rest) ↦ some rest | none ↦ none ]
skip_value t_string b = elim (read_text b) [ some (s, rest) ↦ some rest | none ↦ none ]
skip_value t_struct b = elim (read_header b) [ some (t, id, rest) ↦ some rest | none ↦ none ]
skip_value _ b = none

abbrev pub tags : TProtocol
tags = record {
  write_struct_begin = λ name. [];
  write_struct_end = [];
  write_field_begin = λ name type id. write_type type ++ write_int id;
  write_field_end = [];
  write_field_stop = 0 ∷ 0 ∷ 0 ∷ 0 ∷ [];
  write_i32 = write_int;
  write_string = write_text;
  write_message_begin = write_message;
  write_message_end = [];
  read_struct_begin = some;
  read_struct_end = some;
  read_field_begin = read_header;
  read_field_end = some;
  read_i32 = read_int;
  read_string = read_text;
  read_message_begin = read_message;
  read_message_end = some;
  skip = skip_value;
  write_exception = write_text;
  read_exception = read_text;
}

take-append : (s rest : Bytes) → take (length s) (s ++ rest) ≡ s
take-append [] rest = refl
take-append (x ∷ s) rest = ground (arith, take-append s rest)

drop-append : (s rest : Bytes) → drop (length s) (s ++ rest) ≡ rest
drop-append [] rest = refl
drop-append (x ∷ s) rest = drop-append s rest

header_lem :
    (type : TType) (id : ℤ) (rest : Bytes)
    → type ≢ t_stop
    → read_header (write_type type ++ write_int id ++ rest) ≡ some (type, id, rest)
header_lem t_stop id rest ne = absurd (ne refl)
header_lem t_i32 (pos n) rest ne = refl
header_lem t_i32 (negsuc n) rest ne = refl
header_lem t_string (pos n) rest ne = refl
header_lem t_string (negsuc n) rest ne = refl
header_lem t_struct (pos n) rest ne = refl
header_lem t_struct (negsuc n) rest ne = refl
header_lem (t_other m) (pos n) rest ne = refl
header_lem (t_other m) (negsuc n) rest ne = refl

int_lem : (v : ℤ) (rest : Bytes) → read_int (write_int v ++ rest) ≡ some (v, rest)
int_lem (pos n) rest = refl
int_lem (negsuc n) rest = refl

text_lem : (s rest : Bytes) → read_text (write_text s ++ rest) ≡ some (s, rest)
text_lem s rest = rw (take-append s rest, drop-append s rest)

message_lem :
    (name : Bytes) (type : TMessageType) (seqid : ℤ) (rest : Bytes)
    → read_message (write_message name type seqid ++ rest) ≡ some (name, type, seqid, rest)
message_lem name t_call (pos n) rest = rw (take-append name rest, drop-append name rest)
message_lem name t_reply (pos n) rest = rw (take-append name rest, drop-append name rest)
message_lem name t_exception (pos n) rest = rw (take-append name rest, drop-append name rest)
message_lem name t_oneway (pos n) rest = rw (take-append name rest, drop-append name rest)
message_lem name t_call (negsuc n) rest = rw (take-append name rest, drop-append name rest)
message_lem name t_reply (negsuc n) rest = rw (take-append name rest, drop-append name rest)
message_lem name t_exception (negsuc n) rest = rw (take-append name rest, drop-append name rest)
message_lem name t_oneway (negsuc n) rest = rw (take-append name rest, drop-append name rest)

pub tags-IsRoundTrip : IsRoundTrip tags
tags-IsRoundTrip = record {
  struct_begin = λ name rest. refl;
  struct_end = λ rest. refl;
  field_begin = λ name type id rest ne. header_lem type id rest ne;
  field_end = λ rest. refl;
  field_stop = λ rest. (pos 0, refl);
  i32 = λ v rest h. int_lem v rest;
  string = λ s rest h. text_lem s rest;
  message_begin = message_lem;
  message_end = λ rest. refl;
  exception = text_lem;
}

header_shorter :
    (b rest : Bytes) (type : TType) (id : ℤ)
    → read_header b ≡ some (type, id, rest)
    → length rest < length b
header_shorter [] rest type id e = cc
header_shorter (t ∷ []) rest type id e = cc
header_shorter (t ∷ n ∷ []) rest type id e = cc
header_shorter (t ∷ n ∷ s ∷ []) rest type id e = cc
header_shorter (t ∷ n ∷ s ∷ k ∷ b) rest type id e = ground arith

int_shorter : (b rest : Bytes) (v : ℤ) → read_int b ≡ some (v, rest) → length rest ≤ length b
int_shorter [] rest v e = cc
int_shorter (t ∷ []) rest v e = cc
int_shorter (t ∷ n ∷ b) rest v e = ground arith

text_shorter : (b rest s : Bytes) → read_text b ≡ some (s, rest) → length rest ≤ length b
text_shorter [] rest s e = cc
text_shorter (n ∷ b) rest s e = ground (arith, length-drop n b)

skip_shorter :
    (b rest : Bytes) (type : TType) → skip_value type b ≡ some rest → length rest ≤ length b
skip_shorter b rest t_stop e = cc
skip_shorter [] rest t_i32 e = cc
skip_shorter (t ∷ []) rest t_i32 e = cc
skip_shorter (t ∷ n ∷ b) rest t_i32 e = ground arith
skip_shorter [] rest t_string e = cc
skip_shorter (n ∷ b) rest t_string e = ground (arith, length-drop n b)
skip_shorter [] rest t_struct e = cc
skip_shorter (t ∷ []) rest t_struct e = cc
skip_shorter (t ∷ n ∷ []) rest t_struct e = cc
skip_shorter (t ∷ n ∷ s ∷ []) rest t_struct e = cc
skip_shorter (t ∷ n ∷ s ∷ k ∷ b) rest t_struct e = ground arith
skip_shorter b rest (t_other n) e = cc

pub tags-IsConsuming : IsConsuming tags
tags-IsConsuming = record {
  struct_begin = λ b rest e. ground arith;
  struct_end = λ b rest e. ground arith;
  field_begin = header_shorter;
  field_end = λ b rest e. ground arith;
  i32 = int_shorter;
  string = text_shorter;
  skip = skip_shorter;
}
