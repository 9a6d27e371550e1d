-- ===== src/Rpc/Message.antt =====
-- src/thrift/im_types.cpp and im_types.h: the struct AccessMessage on the wire.
pub mod Codec
pub mod Values
use short_message.Prelude.{
  Bool, true, false, ◌++◌, Bytes, length, ◌<◌, ◌^◌, ◌&&◌, if◌then◌else◌, [], ◌==◌,
}
use short_message.Prelude.Int.{ℤ, pos, int_eq}
use short_message.Memory.{text}
use short_message.Machine.{Result, ok, ◌>>=◌}
use short_message.World.{AccessMessage}
use short_message.Rpc.Wire.{
  TType, t_i32, t_string, TProtocol, raised, IsI32, Switch, skipped, read_struct,
}

-- _AccessMessage__isset
pub record Isset : Type 0 where
  pub uid : Bool
  pub sate_id : Bool
  pub beam_id : Bool
  pub level : Bool
  pub content : Bool

-- The object: what the fields hold, and which of them a `read` has found.
pub record AccessObject : Type 0 where
  pub message : AccessMessage
  pub isset : Isset

-- `AccessMessage()`
abbrev pub new_access_message : AccessObject
new_access_message = record {
  message = record { uid = pos 0; sate_id = pos 0; beam_id = pos 0; level = pos 0; content = [] };
  isset = record { uid = false; sate_id = false; beam_id = false; level = false; content = false };
}

abbrev pub all_set : Isset
all_set = record { uid = true; sate_id = true; beam_id = true; level = true; content = true }

-- The numbers are int32_t values, and the content has less than 2 ^ 31 bytes.
pub record IsFit (m : AccessMessage) : Type 0 where
  pub uid : IsI32 m.uid
  pub sate_id : IsI32 m.sate_id
  pub beam_id : IsI32 m.beam_id
  pub level : IsI32 m.level
  pub content : length m.content < 2 ^ 31

-- The setters leave `__isset` as it is.
abbrev pub set_uid : ℤ → AccessObject → AccessObject
set_uid val o = record o { message = record o.message { uid = val } }

abbrev pub set_sate_id : ℤ → AccessObject → AccessObject
set_sate_id val o = record o { message = record o.message { sate_id = val } }

abbrev pub set_beam_id : ℤ → AccessObject → AccessObject
set_beam_id val o = record o { message = record o.message { beam_id = val } }

abbrev pub set_level : ℤ → AccessObject → AccessObject
set_level val o = record o { message = record o.message { level = val } }

abbrev pub set_content : Bytes → AccessObject → AccessObject
set_content val o = record o { message = record o.message { content = val } }

-- The `switch` of `AccessMessage::read`: what a field that is found sets.
abbrev pub found_uid : ℤ → AccessObject → AccessObject
found_uid val o = record (set_uid val o) { isset = record o.isset { uid = true } }

abbrev pub found_sate_id : ℤ → AccessObject → AccessObject
found_sate_id val o = record (set_sate_id val o) { isset = record o.isset { sate_id = true } }

abbrev pub found_beam_id : ℤ → AccessObject → AccessObject
found_beam_id val o = record (set_beam_id val o) { isset = record o.isset { beam_id = true } }

abbrev pub found_level : ℤ → AccessObject → AccessObject
found_level val o = record (set_level val o) { isset = record o.isset { level = true } }

abbrev pub found_content : Bytes → AccessObject → AccessObject
found_content val o = record (set_content val o) { isset = record o.isset { content = true } }

module _ (p : TProtocol) where
  open p use {
    write_struct_begin, write_struct_end, write_field_begin, write_field_end, write_field_stop,
    write_i32, write_string, read_i32, read_string,
  }

  -- `if (ftype == T_I32)`
  abbrev pub i32_field : (ℤ → AccessObject → AccessObject) → Switch AccessObject
  i32_field found id t_i32 o b = do (v, rest) ← raised (read_i32 b); ok (found v o, rest)
  i32_field found id type o b = skipped p id type o b

  -- `if (ftype == T_STRING)`
  abbrev pub string_field : {A : Type 0} → (Bytes → A → A) → Switch A
  string_field found id t_string o b = do (s, rest) ← raised (read_string b); ok (found s o, rest)
  string_field found id type o b = skipped p id type o b

  -- switch (fid)
  unfoldable pub access_field : Switch AccessObject
  access_field id type o b =
      if int_eq id (pos 1)
      then i32_field found_uid id type o b
      else if int_eq id (pos 2)
      then i32_field found_sate_id id type o b
      else if int_eq id (pos 3)
      then i32_field found_beam_id id type o b
      else if int_eq id (pos 4)
      then i32_field found_level id type o b
      else if int_eq id (pos 5)
      then string_field found_content id type o b
      else skipped p id type o b

  unfoldable pub read_access : AccessObject → Bytes → Result (AccessObject × Bytes)
  read_access o b = read_struct p access_field o b

  unfoldable pub write_access : AccessMessage → Bytes
  write_access m =
      write_struct_begin (text "AccessMessage")
      ++ write_field_begin (text "uid") t_i32 (pos 1)
      ++ write_i32 m.uid
      ++ write_field_end
      ++ write_field_begin (text "sate_id") t_i32 (pos 2)
      ++ write_i32 m.sate_id
      ++ write_field_end
      ++ write_field_begin (text "beam_id") t_i32 (pos 3)
      ++ write_i32 m.beam_id
      ++ write_field_end
      ++ write_field_begin (text "level") t_i32 (pos 4)
      ++ write_i32 m.level
      ++ write_field_end
      ++ write_field_begin (text "content") t_string (pos 5)
      ++ write_string m.content
      ++ write_field_end
      ++ write_field_stop
      ++ write_struct_end
