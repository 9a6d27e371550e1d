-- ===== src/Rpc/Message/Codec.antt =====
-- What AccessMessage writes, it reads back.

use short_message.Prelude.{
  ℕ, suc, ◌≡◌, ◌∙◌, ◌^◌, ◌<◌, ◌≤◌, ◌++◌, Bytes, length, length-append, arith, append_assoc,
}
use short_message.Prelude.Int.{ℤ, pos}
use short_message.Memory.{text}
use short_message.Machine.{ok}
use short_message.World.{AccessMessage}
use short_message.Rpc.Wire.{
  t_i32, t_string, TProtocol, IsRoundTrip, IsConsuming, IsI32, read_fields,
}
use short_message.Rpc.Message.{
  AccessObject, read_access, write_access, access_field, i32_field, string_field, found_uid,
  found_sate_id, found_beam_id, found_level, found_content, all_set, IsFit,
}
use short_message.Rpc.Wire.Fields.{
  rounds, read_fields-field, read_fields-stop, read_struct_lem, field_begin-ne-nil,
}

module _ (p : TProtocol) (law : IsRoundTrip p) (consuming : IsConsuming p) where
  open p use {
    write_struct_begin, write_struct_end, write_field_begin, write_field_end, write_field_stop,
    write_i32, write_string,
  }

  found_i32 :
      (found : ℤ → AccessObject → AccessObject) (id v : ℤ) (rest : Bytes) (o : AccessObject)
      → IsI32 v
      → i32_field p found id t_i32 o (write_i32 v ++ rest) ≡ ok (found v o, rest)
  found_i32 found id v rest o h = rw (law.i32 v rest h)

  pub found_string :
      {A : Type 0} (found : Bytes → A → A) (id : ℤ) (s rest : Bytes) (a : A)
      → length s < 2 ^ 31
      → string_field p found id t_string a (write_string s ++ rest) ≡ ok (found s a, rest)
  found_string found id s rest a h = rw (law.string s rest h)

  -- The fields of a message, as they are written.
  abbrev fields : AccessMessage → Bytes
  fields m =
      write_field_begin (text "uid") t_i32 (pos 1)
      ++ (write_i32 m.uid
          ++ (write_field_end
              ++ (write_field_begin (text "sate_id") t_i32 (pos 2)
                  ++ (write_i32 m.sate_id
                      ++ (write_field_end
                          ++ (write_field_begin (text "beam_id") t_i32 (pos 3)
                              ++ (write_i32 m.beam_id
                                  ++ (write_field_end
                                      ++ (write_field_begin (text "level") t_i32 (pos 4)
                                          ++ (write_i32 m.level
                                              ++ (write_field_end
                                                  ++ (write_field_begin (text "content") t_string
                                                        (pos 5)
                                                      ++ (write_string m.content
                                                          ++ (write_field_end
                                                            ++ write_field_stop))))))))))))))

  write_access_parts :
      (m : AccessMessage) (rest : Bytes)
      → write_access p m ++ rest
        ≡ write_struct_begin (text "AccessMessage") ++ (fields m ++ (write_struct_end ++ rest))
  unfolding write_access
  write_access_parts m rest = simp append_assoc

  fields_enough : (m : AccessMessage) → 6 ≤ suc (length (fields m))
  fields_enough m = simp length-append (
      omega (
        arith,
        field_begin-ne-nil p law consuming (text "uid") t_i32 (pos 1) (ground arith),
        field_begin-ne-nil p law consuming (text "sate_id") t_i32 (pos 2) (ground arith),
        field_begin-ne-nil p law consuming (text "beam_id") t_i32 (pos 3) (ground arith),
        field_begin-ne-nil p law consuming (text "level") t_i32 (pos 4) (ground arith),
        field_begin-ne-nil p law consuming (text "content") t_string (pos 5) (ground arith),
      ))

  read_fields-fields :
      (o : AccessObject) (m : AccessMessage) (n : ℕ) (rest : Bytes)
      → IsFit m
      → read_fields p (access_field p) (rounds 6 n) o (fields m ++ rest)
        ≡ ok (record { message = m; isset = all_set }, rest)
  unfolding access_field
  read_fields-fields o m n rest fit =
      let o₁ = found_uid m.uid o in
      let o₂ = found_sate_id m.sate_id o₁ in
      let o₃ = found_beam_id m.beam_id o₂ in
      let o₄ = found_level m.level o₃ in
      let switch = access_field p in
      simp append_assoc (
        read_fields-field p law consuming switch (rounds 5 n) (text "uid") t_i32 (pos 1)
          (write_i32 m.uid) _ o o₁ (ground arith) (found_i32 found_uid (pos 1) m.uid _ o fit.uid)
        ∙ read_fields-field p law consuming switch (rounds 4 n) (text "sate_id") t_i32 (pos 2)
            (write_i32 m.sate_id) _ o₁ o₂ (ground arith)
            (found_i32 found_sate_id (pos 2) m.sate_id _ o₁ fit.sate_id)
        ∙ read_fields-field p law consuming switch (rounds 3 n) (text "beam_id") t_i32 (pos 3)
            (write_i32 m.beam_id) _ o₂ o₃ (ground arith)
            (found_i32 found_beam_id (pos 3) m.beam_id _ o₂ fit.beam_id)
        ∙ read_fields-field p law consuming switch (rounds 2 n) (text "level") t_i32 (pos 4)
            (write_i32 m.level) _ o₃ o₄ (ground arith)
            (found_i32 found_level (pos 4) m.level _ o₃ fit.level)
        ∙ read_fields-field p law consuming switch (rounds 1 n) (text "content") t_string (pos 5)
            (write_string m.content) _ o₄ _ (ground arith)
            (found_string found_content (pos 5) m.content _ o₄ fit.content)
        ∙ read_fields-stop p law consuming switch n rest (found_content m.content o₄))

  -- An AccessMessage that is written with a thrift protocol is read back in any object, with all
  -- its fields set, and no byte of what follows is read: the loop has rounds enough. Its numbers are
  -- int32_t values, and its content has less than 2 ^ 31 bytes.
  pub read_access-write_access :
      (o : AccessObject) (m : AccessMessage) (rest : Bytes)
      → IsFit m
      → read_access p o (write_access p m ++ rest)
        ≡ ok (record { message = m; isset = all_set }, rest)
  unfolding read_access
  read_access-write_access o m rest fit = rw (write_access_parts m rest) (
      read_struct_lem p law consuming (access_field p) 6 (text "AccessMessage") (fields m) rest o _
        (fields_enough m) (λ n. read_fields-fields o m n (write_struct_end ++ rest) fit))
