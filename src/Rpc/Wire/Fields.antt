-- ===== src/Rpc/Wire/Fields.antt =====
-- Reading a struct that was written: the rounds of the loop over its fields.
use short_message.Prelude.{
  ℕ, suc, ◌≡◌, refl, ap, ◌∙◌, ◌+◌, ◌-◌, [], ◌<◌, ◌≤◌, ◌≢◌, zero, ◌++◌, Bytes, length, length-append,
  append_assoc, arith,
}
use short_message.Prelude.Int.{ℤ}
use short_message.Machine.{Result, ok}
use short_message.Rpc.Wire.{
  TType, t_i32, t_string, t_stop, t_struct, t_other, TProtocol, IsRoundTrip, IsConsuming,
  read_fields, read_struct, Switch, field,
}

-- k + n, by the clauses that `read_fields` takes apart.
abbrev pub rounds : ℕ → ℕ → ℕ
rounds zero n = n
rounds (suc k) n = suc (rounds k n)

rounds-eq-add : (k n : ℕ) → rounds k n ≡ k + n
rounds-eq-add zero n = omega arith
rounds-eq-add (suc k) n = omega (arith, rounds-eq-add k n)

module _ (p : TProtocol) (law : IsRoundTrip p) (consuming : IsConsuming p) where
  open p use {
    write_struct_begin, write_struct_end, write_field_begin, write_field_end, write_field_stop,
    write_i32, write_string,
  }

  field_lem :
      {A : Type 0} (switch : Switch A) (more : A → Bytes → Result (A × Bytes)) (type : TType)
      (id : ℤ) (b rest : Bytes) (a a' : A)
      → type ≢ t_stop
      → switch id type a b ≡ ok (a', write_field_end ++ rest)
      → field p switch more type id a b ≡ more a' rest
  unfolding field
  field_lem switch more t_stop id b rest a a' ne h = absurd (ne refl)
  field_lem switch more t_i32 id b rest a a' ne h = rw (h, law.field_end rest)
  field_lem switch more t_string id b rest a a' ne h = rw (h, law.field_end rest)
  field_lem switch more t_struct id b rest a a' ne h = rw (h, law.field_end rest)
  field_lem switch more (t_other n) id b rest a a' ne h = rw (h, law.field_end rest)

  -- One round of the loop, where the switch takes the value of the field.
  pub read_fields-field :
      {A : Type 0} (switch : Switch A) (n : ℕ) (name : Bytes) (type : TType) (id : ℤ)
      (value rest : Bytes) (a a' : A)
      → type ≢ t_stop
      → switch id type a (value ++ (write_field_end ++ rest)) ≡ ok (a', write_field_end ++ rest)
      → read_fields p switch
          (suc n)
          a
          (write_field_begin name type id ++ (value ++ (write_field_end ++ rest)))
        ≡ read_fields p switch n a' rest
  unfolding read_fields
  read_fields-field switch n name type id value rest a a' ne h = rw (
    law.field_begin name type id (value ++ (write_field_end ++ rest)) ne,
    field_lem switch (read_fields p switch n) type id (value ++ (write_field_end ++ rest)) rest a a'
        ne h,
  )

  pub read_fields-stop :
      {A : Type 0} (switch : Switch A) (n : ℕ) (rest : Bytes) (a : A)
      → read_fields p switch (suc n) a (write_field_stop ++ rest) ≡ ok (a, rest)
  unfolding read_fields field
  read_fields-stop switch n rest a = rw ((law.field_stop rest).1)

  -- The header of a field is not empty.
  pub field_begin-ne-nil :
      (name : Bytes) (type : TType) (id : ℤ)
      → type ≢ t_stop
      → 0 < length (write_field_begin name type id)
  field_begin-ne-nil name type id ne = omega (
    arith,
    consuming.field_begin (write_field_begin name type id ++ []) [] type id
        (law.field_begin name type id [] ne),
    length-append (write_field_begin name type id) [],
  )

  -- A struct whose fields are read in `k` rounds; that many rounds there are.
  pub read_struct_lem :
      {A : Type 0} (switch : Switch A) (k : ℕ) (name : Bytes) (fields rest : Bytes) (a a' : A)
      → k ≤ suc (length fields)
      → ((n : ℕ)
          → read_fields p switch (rounds k n) a (fields ++ (write_struct_end ++ rest))
            ≡ ok (a', write_struct_end ++ rest))
      → read_struct p switch a (write_struct_begin name ++ (fields ++ (write_struct_end ++ rest)))
        ≡ ok (a', rest)
  unfolding read_struct
  read_struct_lem switch k name fields rest a a' le h =
      let b = fields ++ (write_struct_end ++ rest) in
      let enough : (suc (length b) ≡ rounds k (suc (length b) - k)) = omega (
        arith,
        rounds-eq-add k (suc (length b) - k),
        length-append fields (write_struct_end ++ rest),
      ) in
      let read : (read_fields p switch (suc (length b)) a b ≡ ok (a', write_struct_end ++ rest)) =
        ap (λ n. read_fields p switch n a b) enough ∙ h (suc (length b) - k) in
      rw (law.struct_begin name b, read, law.struct_end rest)

  -- A struct with one field.
  pub read_struct-one :
      {A : Type 0} (switch : Switch A) (name field_name : Bytes) (type : TType) (id : ℤ)
      (value rest : Bytes) (a a' : A)
      → type ≢ t_stop
      → ((more : Bytes) → switch id type a (value ++ more) ≡ ok (a', more))
      → read_struct p switch a (
          write_struct_begin name
          ++ write_field_begin field_name type id
          ++ value
          ++ write_field_end
          ++ write_field_stop
          ++ write_struct_end
          ++ rest)
        ≡ ok (a', rest)
  read_struct-one switch name field_name type id value rest a a' ne h =
      let head = write_field_begin field_name type id in
      let fields = head ++ (value ++ (write_field_end ++ write_field_stop)) in
      let enough : (2 ≤ suc (length fields)) =
        simp length-append (omega (arith, field_begin-ne-nil field_name type id ne)) in
      let read = read_struct_lem switch 2 name fields rest a a' enough λ n. simp append_assoc (
        read_fields-field switch (rounds 1 n) field_name type id value _ a a' ne (h _)
        ∙ read_fields-stop switch n _ a') in
      simp append_assoc (simp append_assoc at read)

  -- A struct without a field.
  pub read_struct-none :
      {A : Type 0} (switch : Switch A) (name : Bytes) (rest : Bytes) (a : A)
      → read_struct p switch a
          (write_struct_begin name ++ write_field_stop ++ write_struct_end ++ rest)
        ≡ ok (a, rest)
  read_struct-none switch name rest a = simp append_assoc (
      read_struct_lem switch 1 name write_field_stop rest a a (omega arith)
        (λ n. read_fields-stop switch n _ a))
