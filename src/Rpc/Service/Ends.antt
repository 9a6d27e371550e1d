-- ===== src/Rpc/Service/Ends.antt =====
-- The structs of a call are read to an end, whatever bytes arrive.
use short_message.Prelude.{◌≢◌, Bool, Bytes, arith, if◌then◌else◌}
use short_message.Prelude.Int.{ℤ, pos, int_eq}
use short_message.Machine.{Result, fault, spinning}
use short_message.Rpc.Wire.{t_stop, t_i32, t_string, t_struct, t_other, TProtocol, IsConsuming}
use short_message.Rpc.Wire.Ends.{
  Ends, SwitchEnds, Ends-ok, Ends-raised, Ends-bind, skipped_ends, read_struct-Ends,
}
use short_message.Rpc.Message.{
  AccessObject, i32_field, string_field, access_field, read_access, found_uid, found_sate_id,
  found_beam_id, found_level, found_content,
}
use short_message.Rpc.Service.{
  RequestArgs, ResponseArgs, request_field, response_field, struct_field, read_request_args,
  read_response_args, read_result,
}

module _ (p : TProtocol) (law : IsConsuming p) where
  i32_field_ends :
      (found : ℤ → AccessObject → AccessObject) → SwitchEnds AccessObject (i32_field p found)
  i32_field_ends found id t_i32 o b =
      Ends-raised b (p.read_i32 b) _ λ c e. Ends-ok b c.1 (found c.0 o) (law.i32 b c.1 c.0 e)
  i32_field_ends found id t_stop o b = skipped_ends p law id t_stop o b
  i32_field_ends found id t_string o b = skipped_ends p law id t_string o b
  i32_field_ends found id t_struct o b = skipped_ends p law id t_struct o b
  i32_field_ends found id (t_other n) o b = skipped_ends p law id (t_other n) o b

  string_field_ends : (A : Type 0) (found : Bytes → A → A) → SwitchEnds A (string_field p found)
  string_field_ends A found id t_string o b =
      Ends-raised b (p.read_string b) _ λ c e. Ends-ok b c.1 (found c.0 o) (law.string b c.1 c.0 e)
  string_field_ends A found id t_stop o b = skipped_ends p law id t_stop o b
  string_field_ends A found id t_i32 o b = skipped_ends p law id t_i32 o b
  string_field_ends A found id t_struct o b = skipped_ends p law id t_struct o b
  string_field_ends A found id (t_other n) o b = skipped_ends p law id (t_other n) o b

  Ends-if :
      {A : Type 0} (c : Bool) (b : Bytes) (x y : Result (A × Bytes))
      → Ends b x
      → Ends b y
      → Ends b (if c then x else y)
  Ends-if Bool.true b x y ex ey = ex
  Ends-if Bool.false b x y ex ey = ey

  access_field_ends : SwitchEnds AccessObject (access_field p)
  unfolding access_field
  access_field_ends id type o b =
      Ends-if (int_eq id (pos 1)) b _ _ (i32_field_ends found_uid id type o b) (
        Ends-if (int_eq id (pos 2)) b _ _ (i32_field_ends found_sate_id id type o b) (
          Ends-if (int_eq id (pos 3)) b _ _ (i32_field_ends found_beam_id id type o b) (
            Ends-if (int_eq id (pos 4)) b _ _ (i32_field_ends found_level id type o b) (
              Ends-if (int_eq id (pos 5)) b _ _ (string_field_ends _ found_content id type o b)
                (skipped_ends p law id type o b)))))

  struct_field_ends : SwitchEnds ResponseArgs (struct_field p)
  unfolding struct_field read_access
  struct_field_ends id t_struct a b =
      Ends-bind b _ _
        (read_struct-Ends p law AccessObject (access_field p) a.response b access_field_ends)
        λ o rest le. Ends-ok rest rest _ (omega arith)
  struct_field_ends id t_stop o b = skipped_ends p law id t_stop o b
  struct_field_ends id t_i32 o b = skipped_ends p law id t_i32 o b
  struct_field_ends id t_string o b = skipped_ends p law id t_string o b
  struct_field_ends id (t_other n) o b = skipped_ends p law id (t_other n) o b

  response_field_ends : SwitchEnds ResponseArgs (response_field p)
  unfolding response_field
  response_field_ends id type o b =
      Ends-if (int_eq id (pos 1)) b _ _ (struct_field_ends id type o b)
        (skipped_ends p law id type o b)

  request_field_ends : SwitchEnds RequestArgs (request_field p)
  request_field_ends id type o b =
      Ends-if (int_eq id (pos 1)) b _ _
        (string_field_ends _ (λ s a. record a { request = s; isset = Bool.true }) id type o b)
        (skipped_ends p law id type o b)

  -- No bytes keep a reader of arguments or results busy for ever: with as many rounds as bytes wait,
  -- and one more, the loops of all three structs end, in a value or a thrift exception.
  pub read_args_end :
      (request : RequestArgs) (response : ResponseArgs) (b : Bytes)
      → (read_request_args p request b ≢ fault spinning)
        × (read_response_args p response b ≢ fault spinning)
        × (read_result p b ≢ fault spinning)
  unfolding read_request_args read_response_args read_result
  read_args_end request response b = (
    (read_struct-Ends p law RequestArgs _ request b request_field_ends).no_spin,
    (read_struct-Ends p law ResponseArgs _ response b response_field_ends).no_spin,
    (read_struct-Ends p law Unit _ tt b (skipped_ends p law)).no_spin,
  )
