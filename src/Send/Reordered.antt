-- ===== src/Send/Reordered.antt =====
-- The order of the entries in the configuration of src/workmanager/send_helper.cpp.
use mathlib.Core.Path.{subst}
use mathlib.Core.Quot
use mathlib.Core.Quot.{Quot}
use short_message.Prelude.{
  ◌≡◌, ◌≢◌, refl, ◌∙◌, sym, ap, Bool, true, Option, none, some, inl, inr, List, [], ◌∷◌, ◌++◌,
  Bool-cases, arith,
}
use short_message.Prelude.Int.{ℤ, int_eq, int_eq_iff}
use short_message.Protocol.{SateParam}
use short_message.World.{Address}
use short_message.Send.{SendSetting, init_entry, init}
use short_message.Send.Table.{
  AddressMap, SameMap, first_of, first_entry, complete_with, all_complete, init-all_complete,
  entry_beam, chosen, SameMap-chosen, Initialised, initialised_lem,
}

-- Neighbours of different beams change places, any number of times.
pub data Reordered : List SendSetting → List SendSetting → Type 0 where
  unchanged : (settings : List SendSetting) → Reordered settings settings
  swapped :
      (before after : List SendSetting) (s s' : SendSetting)
      → s.beamid ≢ s'.beamid
      → Reordered (before ++ s ∷ (s' ∷ after)) (before ++ s' ∷ (s ∷ after))
  followed : (a b c : List SendSetting) → Reordered a b → Reordered b c → Reordered a c

complete_with_swapped :
    (o o' : Option (ℤ × Address)) (r : Bool)
    → complete_with o (complete_with o' r) ≡ complete_with o' (complete_with o r)
complete_with_swapped none none r = refl
complete_with_swapped none (some e) r = refl
complete_with_swapped (some e) none r = refl
complete_with_swapped (some e) (some f) r = refl

complete_tail : (o : Option (ℤ × Address)) (r : Bool) → complete_with o r ≡ true → r ≡ true
complete_tail none r h = absurd (ground arith)
complete_tail (some e) r h = h

complete_swapped :
    (before after : List SendSetting) (s s' : SendSetting)
    → all_complete (before ++ s ∷ (s' ∷ after)) ≡ all_complete (before ++ s' ∷ (s ∷ after))
complete_swapped [] after s s' =
    complete_with_swapped (init_entry s) (init_entry s') (all_complete after)
complete_swapped (x ∷ before) after s s' =
    ap (complete_with (init_entry x)) (complete_swapped before after s s')

first_of_swapped :
    (b : ℤ) (o o' : Option (ℤ × Address)) (c : Bool) (r : Option Address)
    → ((k k' : ℤ) (a a' : Address) → o ≡ some (k, a) → o' ≡ some (k', a') → k ≢ k')
    → complete_with o (complete_with o' c) ≡ true
    → first_of b o (first_of b o' r) ≡ first_of b o' (first_of b o r)
first_of_swapped b none o' c r ne h = absurd (ground arith)
first_of_swapped b (some e) none c r ne h = absurd (ground arith)
first_of_swapped b (some (k, a)) (some (k', a')) c r ne h = elim (Bool-cases (int_eq k b)) [
  | inl e ↦ elim (Bool-cases (int_eq k' b)) [
    | inl f ↦ absurd (ne k k' a a' refl refl ((int_eq_iff k b).0 e ∙ sym ((int_eq_iff k' b).0 f)))
    | inr f ↦ rw (e, f) refl
  ]
  | inr e ↦ rw e refl
]

first_swapped :
    (b : ℤ) (before after : List SendSetting) (s s' : SendSetting)
    → s.beamid ≢ s'.beamid
    → all_complete (before ++ s ∷ (s' ∷ after)) ≡ true
    → first_entry b (before ++ s ∷ (s' ∷ after)) ≡ first_entry b (before ++ s' ∷ (s ∷ after))
first_swapped b [] after s s' ne h =
    first_of_swapped b (init_entry s) (init_entry s') (all_complete after) (first_entry b after)
      (λ k k' a a' e f same. ne (entry_beam s k a e ∙ ap some same ∙ sym (entry_beam s' k' a' f))) h
first_swapped b (x ∷ before) after s s' ne h = ap (first_of b (init_entry x)) (
    first_swapped b before after s s' ne
      (complete_tail (init_entry x) (all_complete (before ++ s ∷ (s' ∷ after))) h))

Reordered-complete : (a c : List SendSetting) → Reordered a c → all_complete a ≡ all_complete c
Reordered-complete a _ (unchanged _) = refl
Reordered-complete _ _ (swapped before after s s' ne) = complete_swapped before after s s'
Reordered-complete a c (followed _ m _ r r') = Reordered-complete a m r ∙ Reordered-complete m c r'

Reordered-first :
    (b : ℤ) (a c : List SendSetting)
    → Reordered a c
    → all_complete a ≡ true
    → first_entry b a ≡ first_entry b c
Reordered-first b a _ (unchanged _) h = refl
Reordered-first b _ _ (swapped before after s s' ne) h = first_swapped b before after s s' ne h
Reordered-first b a c (followed _ m _ r r') h =
    Reordered-first b a m r h ∙ Reordered-first b m c r' (sym (Reordered-complete a m r) ∙ h)

-- `Init` of a configuration whose entries are complete: a beam has the address of its first entry,
-- and no other. Where neighbouring entries of different beams change places, any number of times,
-- `Init` succeeds as well, and the table is the same map, so that `SendMessage` chooses the same
-- satellite and the same address for every cover.
pub init-Reordered :
    (settings other : List SendSetting) (t : List (ℤ × Address))
    → init settings [] ≡ (true, t)
    → Reordered settings other
    → Initialised settings t
      × (u : List (ℤ × Address)) × Initialised other u
      × ◌≡◌ {A = AddressMap} (Quot.mk t) (Quot.mk u)
      × ((sates : List SateParam) → chosen t sates ≡ chosen u sates)
init-Reordered settings other t e moved =
    let h : (all_complete settings ≡ true) =
      sym (init-all_complete settings []) ∙ ap (λ r. r.0) e in
    let h' : (all_complete other ≡ true) = sym (Reordered-complete settings other moved) ∙ h in
    let first = subst (Initialised settings) (ap (λ r. r.1) e) (initialised_lem settings h) in
    let second = initialised_lem other h' in
    let same : SameMap t (init other []).1 =
      (λ b. first.finds b ∙ Reordered-first b settings other moved h ∙ sym (second.finds b)) in
    (
      first,
      (init other []).1,
      second,
      Quot.sound same,
      λ sates. SameMap-chosen t (init other []).1 sates same,
    )
