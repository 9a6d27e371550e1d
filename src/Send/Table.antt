-- ===== src/Send/Table.antt =====
-- The table of SendHelper, src/workmanager/send_helper.cpp, as the std::map that it is: what `Init` makes
-- of the configuration, whatever the order of its entries.

use mathlib.Core.Quot.{Quot}
use short_message.Prelude.{
  ◌≡◌, refl, ◌∙◌, sym, ap, Bool, true, false, ◌&&◌, Option, none, some, inl, inr, List, [], ◌∷◌,
  ◌++◌, if◌then◌else◌, Bool-cases, Option-cases, arith,
}
use short_message.Prelude.Int.{ℤ, int_eq, int_eq_iff}
use short_message.Float.{gt}
use short_message.Protocol.{SateParam}
use short_message.World.{Address}
use short_message.Send.{
  SendSetting, find_address, is_scheduled, insert_address, init_entry, init, Best, no_sate, better,
  best_sate, address_of,
}

-- What `find` tells of the map is all there is to it.
abbrev pub SameMap : List (ℤ × Address) → List (ℤ × Address) → Type 0
SameMap t u = (b : ℤ) → find_address b t ≡ find_address b u

abbrev pub AddressMap : Type 0
AddressMap = Quot SameMap

abbrev pub first_of : ℤ → Option (ℤ × Address) → Option Address → Option Address
first_of b none rest = none
first_of b (some (k, a)) rest = if int_eq k b then some a else rest

-- The first entry of a beam, unless a bad one comes before it.
abbrev pub first_entry : ℤ → List SendSetting → Option Address
first_entry b [] = none
first_entry b (s ∷ settings) = first_of b (init_entry s) (first_entry b settings)

abbrev pub or_else : Option Address → Option Address → Option Address
or_else (some a) other = some a
or_else none other = other

or_else-none : (o : Option Address) → or_else o none ≡ o
or_else-none none = refl
or_else-none (some a) = refl

or_else-if :
    (c : Bool) (a : Address) (o : Option Address)
    → or_else (if c then some a else none) o ≡ (if c then some a else o)
or_else-if true a o = refl
or_else-if false a o = refl

find_address-append :
    (b k : ℤ) (a : Address) (t : List (ℤ × Address))
    → find_address b (t ++ (k, a) ∷ [])
      ≡ or_else (find_address b t) (if int_eq k b then some a else none)
unfolding find_address
find_address-append b k a [] = refl
find_address-append b k a ((j, x) ∷ t) = elim (Bool-cases (int_eq j b)) [
  | inl e ↦ rw e refl
  | inr e ↦ rw e (find_address-append b k a t)
]

new_beam :
    (k : ℤ) (a : Address) (t : List (ℤ × Address))
    → find_address k t ≡ none
    → insert_address k a t ≡ t ++ (k, a) ∷ []
unfolding insert_address
new_beam k a t e = rw (is_scheduled, e) refl

old_beam :
    (k : ℤ) (a x : Address) (t : List (ℤ × Address))
    → find_address k t ≡ some x
    → insert_address k a t ≡ t
unfolding insert_address
old_beam k a x t e = rw (is_scheduled, e) refl

find_address-insert_address :
    (b k : ℤ) (a : Address) (t : List (ℤ × Address))
    → find_address b (insert_address k a t)
      ≡ or_else (find_address b t) (if int_eq k b then some a else none)
find_address-insert_address b k a t = elim (Option-cases (find_address k t)) [
  | inl e ↦ rw (new_beam k a t e) (find_address-append b k a t)
  | inr (x, e) ↦ rw (old_beam k a x t e) (elim (Bool-cases (int_eq k b)) [
    | inl same ↦ (let kb = (int_eq_iff k b).0 same in let f = rw kb at e in rw f refl)
    | inr other ↦ rw other (sym (or_else-none (find_address b t)))
  ])
]

or_else_assoc : (x y z : Option Address) → or_else (or_else x y) z ≡ or_else x (or_else y z)
or_else_assoc none y z = refl
or_else_assoc (some a) y z = refl

init_bad :
    (s : SendSetting) (settings : List SendSetting) (t : List (ℤ × Address))
    → init_entry s ≡ none
    → init (s ∷ settings) t ≡ (false, t)
unfolding init
init_bad s settings t e = rw (init, e) refl

init_good :
    (s : SendSetting) (settings : List SendSetting) (t : List (ℤ × Address)) (k : ℤ) (a : Address)
    → init_entry s ≡ some (k, a)
    → init (s ∷ settings) t ≡ init settings (insert_address k a t)
unfolding init
init_good s settings t k a e = rw (init, e) refl

find_address-init :
    (b : ℤ) (settings : List SendSetting) (t : List (ℤ × Address))
    → find_address b (init settings t).1 ≡ or_else (find_address b t) (first_entry b settings)
find_address-init b [] t = unfold init in sym (or_else-none (find_address b t))
find_address-init b (s ∷ settings) t = elim (Option-cases (init_entry s)) [
  | inl e ↦ rw (init_bad s settings t e, first_entry, e) (sym (or_else-none (find_address b t)))
  | inr ((k, a), e) ↦
      rw (init_good s settings t k a e, first_entry, e)
        (find_address-init b settings (insert_address k a t)
          ∙ ap (λ o. or_else o (first_entry b settings)) (find_address-insert_address b k a t)
          ∙ or_else_assoc (find_address b t) (if int_eq k b then some a else none)
              (first_entry b settings)
          ∙ ap (or_else (find_address b t)) (or_else-if (int_eq k b) a (first_entry b settings)))
]

abbrev pub complete_with : Option (ℤ × Address) → Bool → Bool
complete_with none rest = false
complete_with (some e) rest = rest

-- Every entry has its three values.
abbrev pub all_complete : List SendSetting → Bool
all_complete [] = true
all_complete (s ∷ settings) = complete_with (init_entry s) (all_complete settings)

pub init-all_complete :
    (settings : List SendSetting) (t : List (ℤ × Address))
    → (init settings t).0 ≡ all_complete settings
init-all_complete [] t = unfold init in refl
init-all_complete (s ∷ settings) t = elim (Option-cases (init_entry s)) [
  | inl e ↦ rw (init_bad s settings t e, all_complete, e) refl
  | inr ((k, a), e) ↦
      rw (init_good s settings t k a e, all_complete, e) (init-all_complete settings _)
]

pub entry_beam :
    (s : SendSetting) (k : ℤ) (a : Address) → init_entry s ≡ some (k, a) → s.beamid ≡ some k
unfolding init_entry
entry_beam s k a e = ground arith

-- The satellite that `SendMessage` chooses, and the address of its beam.
abbrev pub chosen : List (ℤ × Address) → List SateParam → Best × Address
chosen t sates =
    let best = best_sate t no_sate sates in (best, address_of (find_address best.beam_id t))

SameMap-scheduled :
    (t u : List (ℤ × Address)) (b : ℤ) → SameMap t u → is_scheduled b t ≡ is_scheduled b u
SameMap-scheduled t u b same = ap (λ o. elim o [ none ↦ false | some a ↦ true ]) (same b)

SameMap-best :
    (t u : List (ℤ × Address)) (cur : Best) (sates : List SateParam)
    → SameMap t u
    → best_sate t cur sates ≡ best_sate u cur sates
unfolding best_sate better
SameMap-best t u cur [] same = refl
SameMap-best t u cur (s ∷ sates) same =
    ap
      (λ x.
        best_sate t
          (if gt s.snr cur.snr && x
            then record { snr = s.snr; sate_id = s.sate_id; beam_id = s.beam_id }
            else cur)
          sates)
      (SameMap-scheduled t u s.beam_id same)
    ∙ SameMap-best t u (better u cur s) sates same

pub SameMap-chosen :
    (t u : List (ℤ × Address)) (sates : List SateParam)
    → SameMap t u
    → chosen t sates ≡ chosen u sates
SameMap-chosen t u sates same =
    ap (λ b. (b, address_of (find_address b.beam_id t))) (SameMap-best t u no_sate sates same)
    ∙ ap (λ o. (best_sate u no_sate sates, address_of o)) (same (best_sate u no_sate sates).beam_id)

-- What `Init` makes of a configuration that is complete.
pub record Initialised (settings : List SendSetting) (t : List (ℤ × Address)) : Type 0 where
  pub done : init settings [] ≡ (true, t)
  pub finds : (b : ℤ) → find_address b t ≡ first_entry b settings

find_address-nil : (b : ℤ) (o : Option Address) → or_else (find_address b []) o ≡ o
unfolding find_address
find_address-nil b o = refl

pub initialised_lem :
    (settings : List SendSetting)
    → all_complete settings ≡ true
    → Initialised settings (init settings []).1
initialised_lem settings h = record {
  done = ap (λ (x : Bool). (x, (init settings []).1)) (init-all_complete settings [] ∙ h);
  finds = λ b. find_address-init b settings [] ∙ find_address-nil b (first_entry b settings);
}
