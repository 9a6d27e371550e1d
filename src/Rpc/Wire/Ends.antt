-- ===== src/Rpc/Wire/Ends.antt =====
-- Reading a struct ends on every input.
use short_message.Prelude.{
  ℕ, zero, suc, ◌≡◌, refl, ◌≢◌, ◌≤◌, ◌<◌, Option, none, some, Bytes, length, arith,
}
use short_message.Prelude.Int.{ℤ}
use short_message.Machine.{Result, ok, fault, thrown, spinning, ◌>>=◌}
use short_message.Rpc.Wire.{
  TType, t_stop, t_i32, t_string, t_struct, t_other, TProtocol, IsConsuming, Switch, skipped, field,
  read_fields, read_struct, raised,
}

-- A reading that ends, and puts no bytes back.
pub record Ends {A : Type 0} (b : Bytes) (r : Result (A × Bytes)) : Type 0 where
  pub no_spin : r ≢ fault spinning
  pub shorter : (a : A) (rest : Bytes) → r ≡ ok (a, rest) → length rest ≤ length b

abbrev pub SwitchEnds : (A : Type 0) → Switch A → Type 0
SwitchEnds A switch = (id : ℤ) (type : TType) (a : A) (b : Bytes) → Ends b (switch id type a b)

module _ {A : Type 0} where
  pub Ends-ok : (b rest : Bytes) (a : A) → length rest ≤ length b → Ends b (ok (a, rest))
  Ends-ok b rest a le = record { no_spin = λ e. cc; shorter = λ a' rest' e. ground arith }

  Ends-thrown : (b : Bytes) → Ends {A = A} b (fault thrown)
  Ends-thrown b = record { no_spin = λ e. ground arith; shorter = λ a rest e. cc }

  pub Ends-weaken :
      (b b' : Bytes) (r : Result (A × Bytes)) → Ends b' r → length b' ≤ length b → Ends b r
  Ends-weaken b b' r e le = record {
    no_spin = e.no_spin;
    shorter = λ a rest q. omega (arith, e.shorter a rest q);
  }

  -- A call of the protocol, and what follows it.
  pub Ends-raised :
      {C : Type 0} (b : Bytes) (o : Option C) (f : C → Result (A × Bytes))
      → ((c : C) → o ≡ some c → Ends b (f c))
      → Ends b (raised o >>= f)
  Ends-raised b none f h = Ends-thrown b
  Ends-raised b (some c) f h = h c refl

  pub Ends-bind :
      {C : Type 0} (b : Bytes) (r : Result (C × Bytes)) (f : C × Bytes → Result (A × Bytes))
      → Ends b r
      → ((c : C) (rest : Bytes) → length rest ≤ length b → Ends rest (f (c, rest)))
      → Ends b (r >>= f)
  Ends-bind b (ok (c, rest)) f e h =
      Ends-weaken b rest _ (h c rest (e.shorter c rest refl)) (e.shorter c rest refl)
  Ends-bind b (fault x) f e h = record {
    no_spin = λ q. e.no_spin (ground arith);
    shorter = λ a rest q. cc;
  }

module _ (p : TProtocol) (law : IsConsuming p) where
  pub skipped_ends : {A : Type 0} → SwitchEnds A (skipped p)
  skipped_ends id type a b =
      Ends-raised b (p.skip type b) _ (λ rest e. Ends-ok b rest a (law.skip b rest type e))

  -- The rounds from a field's value on.
  taken-Ends :
      (A : Type 0) (switch : Switch A) (more : A → Bytes → Result (A × Bytes)) (type : TType)
      (id : ℤ) (a : A) (b : Bytes)
      → SwitchEnds A switch
      → ((a : A) (b' : Bytes) → length b' ≤ length b → Ends b' (more a b'))
      → Ends b (switch id type a b >>= λ x. raised (p.read_field_end x.1) >>= λ b₂. more x.0 b₂)
  taken-Ends A switch more type id a b ends h =
      Ends-bind b (switch id type a b) _ (ends id type a b) λ c rest le.
        Ends-raised rest (p.read_field_end rest) _ λ rest' e.
          let le' = law.field_end rest rest' e in
          Ends-weaken rest rest' _ (h c rest' (omega arith)) le'

  field-Ends :
      (A : Type 0) (switch : Switch A) (more : A → Bytes → Result (A × Bytes)) (type : TType)
      (id : ℤ) (a : A) (b : Bytes)
      → SwitchEnds A switch
      → ((a : A) (b' : Bytes) → length b' ≤ length b → Ends b' (more a b'))
      → Ends b (field p switch more type id a b)
  unfolding field
  field-Ends A switch more t_stop id a b ends h = Ends-ok b b a (omega arith)
  field-Ends A switch more t_i32 id a b ends h = taken-Ends A switch more t_i32 id a b ends h
  field-Ends A switch more t_string id a b ends h = taken-Ends A switch more t_string id a b ends h
  field-Ends A switch more t_struct id a b ends h = taken-Ends A switch more t_struct id a b ends h
  field-Ends A switch more (t_other n) id a b ends h =
      taken-Ends A switch more (t_other n) id a b ends h

  read_fields-Ends :
      (A : Type 0) (switch : Switch A) (n : ℕ) (a : A) (b : Bytes)
      → SwitchEnds A switch
      → length b < n
      → Ends b (read_fields p switch n a b)
  unfolding read_fields
  read_fields-Ends _ switch zero a b ends lt = absurd (omega arith)
  read_fields-Ends _ switch (suc n) a b ends lt = Ends-raised b (p.read_field_begin b) _ λ c e.
      let shorter = law.field_begin b c.2 c.0 c.1 e in
      Ends-weaken b c.2 _
        (field-Ends _ switch (read_fields p switch n) c.0 c.1 a c.2 ends
          (λ a' b' le. read_fields-Ends _ switch n a' b' ends (omega arith)))
        (omega arith)

  -- A struct whose fields end is read to an end: the rounds that there are suffice.
  pub read_struct-Ends :
      (A : Type 0) (switch : Switch A) (a : A) (b : Bytes)
      → SwitchEnds A switch
      → Ends b (read_struct p switch a b)
  unfolding read_struct
  read_struct-Ends A switch a b ends = Ends-raised b (p.read_struct_begin b) _ λ b₁ e.
      Ends-weaken b b₁ _
        (Ends-bind b₁ _ _ (read_fields-Ends A switch (suc (length b₁)) a b₁ ends (omega arith))
          λ c b₂ le.
            Ends-raised b₂ (p.read_struct_end b₂) _
              λ b₃ e'. Ends-ok b₂ b₃ c (law.struct_end b₂ b₃ e'))
        (law.struct_begin b b₁ e)
