-- ===== src/Rpc/Message/Values.antt =====
-- src/thrift/im_types.h and im_types.cpp: AccessMessage as a value, compared, copied, swapped and
-- printed. `apache::thrift::to_string` is a parameter.
use short_message.Prelude.{
  ◌≡◌, ◌↔◌, refl, Bool, true, false, not, ◌++◌, [], ◌∷◌, Bytes, arith, if◌then◌else◌,
}
use short_message.Prelude.Int.{ℤ, int_eq, int_eq_iff, int_eq_refl}
use short_message.Memory.{text, bytes_eq, bytes_eq_refl}
use short_message.Rpc.Message.{
  AccessObject, set_uid, set_sate_id, set_beam_id, set_level, set_content,
}

-- `operator ==`, which does not look at `__isset`.
unfoldable pub equal : AccessObject → AccessObject → Bool
equal a b =
    if not (int_eq a.message.uid b.message.uid)
    then false
    else if not (int_eq a.message.sate_id b.message.sate_id)
    then false
    else if not (int_eq a.message.beam_id b.message.beam_id)
    then false
    else if not (int_eq a.message.level b.message.level)
    then false
    else if not (bytes_eq a.message.content b.message.content)
    then false
    else true

-- `operator !=`
unfoldable pub differ : AccessObject → AccessObject → Bool
differ a b = not (equal a b)

-- The copy constructor.
unfoldable pub copied : AccessObject → AccessObject
copied other = record {
  message = record {
    uid = other.message.uid;
    sate_id = other.message.sate_id;
    beam_id = other.message.beam_id;
    level = other.message.level;
    content = other.message.content;
  };
  isset = other.isset;
}

-- `operator =`: the fields one after the other, and `__isset`.
unfoldable pub assign : AccessObject → AccessObject → AccessObject
assign o other =
    record (set_content other.message.content (
      set_level other.message.level (
        set_beam_id other.message.beam_id
          (set_sate_id other.message.sate_id (set_uid other.message.uid o))))) {
            isset = other.isset;
          }

-- `swap`: each field of the two objects in turn.
unfoldable pub swap : AccessObject → AccessObject → AccessObject × AccessObject
unfolding assign
swap a b = (assign a b, assign b a)

-- `printTo`
unfoldable pub print_to : (ℤ → Bytes) → (Bytes → Bytes) → AccessObject → Bytes
print_to int_string string_string o =
    text "AccessMessage("
    ++ text "uid="
    ++ int_string o.message.uid
    ++ text ", "
    ++ text "sate_id="
    ++ int_string o.message.sate_id
    ++ text ", "
    ++ text "beam_id="
    ++ int_string o.message.beam_id
    ++ text ", "
    ++ text "level="
    ++ int_string o.message.level
    ++ text ", "
    ++ text "content="
    ++ string_string o.message.content
    ++ text ")"

bytes_eq_sound : (a b : Bytes) → bytes_eq a b ≡ true → a ≡ b
unfolding bytes_eq
bytes_eq_sound [] [] e = refl
bytes_eq_sound (x ∷ xs) (y ∷ ys) e = grind (arith, bytes_eq_sound xs ys)
bytes_eq_sound [] (y ∷ ys) e = ground arith
bytes_eq_sound (x ∷ xs) [] e = ground arith

equal_fields :
    (a b : AccessObject)
    → equal a b ≡ true
    → (int_eq a.message.uid b.message.uid ≡ true)
      × (int_eq a.message.sate_id b.message.sate_id ≡ true)
      × (int_eq a.message.beam_id b.message.beam_id ≡ true)
      × (int_eq a.message.level b.message.level ≡ true)
      × (bytes_eq a.message.content b.message.content ≡ true)
unfolding equal
equal_fields a b same = ground arith

-- Two objects are equal exactly if their fields are, whichever of them a `read` has found.
equal_iff : (a b : AccessObject) → (equal a b ≡ true) ↔ (a.message ≡ b.message)
unfolding equal
equal_iff a b = (
  (λ same.
      let (uid, sate_id, beam_id, level, content) = equal_fields a b same in
      let e = bytes_eq_sound a.message.content b.message.content content in
      let u = (int_eq_iff a.message.uid b.message.uid).0 uid in
      let s = (int_eq_iff a.message.sate_id b.message.sate_id).0 sate_id in
      let m = (int_eq_iff a.message.beam_id b.message.beam_id).0 beam_id in
      let l = (int_eq_iff a.message.level b.message.level).0 level in cc),
  (λ e. rw e (
      rw
        (
          int_eq_refl b.message.uid,
          int_eq_refl b.message.sate_id,
          int_eq_refl b.message.beam_id,
          int_eq_refl b.message.level,
          bytes_eq_refl b.message.content,
        )
        refl)),
)

-- Both copies are the object that they copy.
assign-copied : (o other : AccessObject) → assign o (copied other) ≡ other
unfolding assign copied
assign-copied o other = refl

-- Two swaps undo each other.
swap_twice : (a b : AccessObject) → let (a', b') = swap a b in swap a' b' ≡ (a, b)
unfolding swap
swap_twice a b = refl
