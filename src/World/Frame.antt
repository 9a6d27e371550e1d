-- ===== src/World/Frame.antt =====
-- Rules for actions that leave the database alone.
use short_message.Prelude.{
  ◌∷◌, ◌+◌, ◌≡◌, ◌≢◌, refl, ap, ◌∙◌, Bool, true, false, List, if◌then◌else◌, arith,
}
use short_message.Machine.{Result, ok, fault}
use short_message.Database.Pool.{get_connection, get_connection-ne-null, get_connection_retries}
use short_message.World.{
  World, M, pure, ◌>>=◌, lift, query, now, schedule, connect, close, transmit, After, Total, took,
  lifted, Address, AccessMessage,
}

-- `m` ends with the database that it began with.
pub record Frames {Db A : Type 0} (m : M Db A) : Type 0 where
  pub at : (w : World Db) → After (m w) (λ _ w'. w'.db ≡ w.db)

module _ {Db A B : Type 0} where
  -- What holds after a first action and leads on holds after both.
  pub After-bind :
      (r : Result (A × World Db)) (f : A → M Db B) (P : A → World Db → Type 0)
      (Q : B → World Db → Type 0)
      → After r P
      → ((a : A) (w : World Db) → P a w → After (f a w) Q)
      → After (elim r [ ok (a, w') ↦ f a w' | fault e ↦ fault e ]) Q
  After-bind (ok (a, w)) f P Q h k = k a w h
  After-bind (fault e) f P Q h k = tt

pub After-if :
    {Db A : Type 0} (b : Bool) (m n : M Db A) (w : World Db) (P : A → World Db → Type 0)
    → After (m w) P
    → After (n w) P
    → After ((if b then m else n) w) P
After-if true m n w P hm hn = hm
After-if false m n w P hm hn = hn

-- A branch may use the test's result.
pub After-if_eq :
    {Db A : Type 0} (b : Bool) (m n : M Db A) (w : World Db) (P : A → World Db → Type 0)
    → (b ≡ true → After (m w) P)
    → (b ≡ false → After (n w) P)
    → After ((if b then m else n) w) P
After-if_eq true m n w P hm hn = hm refl
After-if_eq false m n w P hm hn = hn refl

-- The pool has a connection at the first call.
pub connect_total :
    {Db : Type 0} (w : World Db) (rest : List Bool)
    → w.pool ≡ true ∷ rest
    → connect w ≡ ok (true, record w { pool = rest; held = w.held + 1 })
unfolding connect
connect_total w rest e = rw (e, (get_connection_retries 0 rest).0)

module _ {Db A B : Type 0} where
  pub Total-bind :
      (r : Result (A × World Db)) (f : A → M Db B)
      → Total r
      → ((a : A) (w : World Db) → r ≡ ok (a, w) → Total (f a w))
      → Total (elim r [ ok (a, w') ↦ f a w' | fault e ↦ fault e ])
  Total-bind (ok (a, w)) f h k = k a w refl
  Total-bind (fault e) f (a, w, h) k = absurd (ground arith)

  -- What an action with a known end leads to, and is followed by.
  pub bind-ok :
      (r : Result (A × World Db)) (f : A → M Db B) (a : A) (w : World Db)
      → r ≡ ok (a, w)
      → elim r [ ok (a, w') ↦ f a w' | fault e ↦ fault e ] ≡ f a w
  bind-ok r f a w e = ap (λ r. elim r [ ok (a, w') ↦ f a w' | fault e ↦ fault e ]) e

  pub Total-then :
      (r : Result (A × World Db)) (f : A → M Db B) (a : A) (w : World Db)
      → r ≡ ok (a, w)
      → Total (f a w)
      → Total (elim r [ ok (a, w') ↦ f a w' | fault e ↦ fault e ])
  Total-then r f a w e h = rw e h

module _ {Db A : Type 0} where
  pub Total-if :
      (b : Bool) (m n : M Db A) (w : World Db)
      → Total (m w)
      → Total (n w)
      → Total ((if b then m else n) w)
  Total-if true m n w hm hn = hm
  Total-if false m n w hm hn = hn

module _ {Db A : Type 0} where
  pub After-map :
      (r : Result (A × World Db)) (P Q : A → World Db → Type 0)
      → After r P
      → ((a : A) (w : World Db) → P a w → Q a w)
      → After r Q
  After-map (ok (a, w)) P Q h k = k a w h
  After-map (fault e) P Q h k = tt

  pub Frames-pure : (a : A) → Frames {Db = Db} (pure a)
  unfolding pure
  Frames-pure a = record { at = λ w. refl }

  pub Frames-lift : (r : Result A) → Frames {Db = Db} (lift r)
  unfolding lift
  Frames-lift r = record { at = λ w. go r w }
    where
      go : (r : Result A) (w : World Db) → After (lifted r w) (λ _ w'. w'.db ≡ w.db)
      go (ok a) w = refl
      go (fault e) w = tt

  pub Frames-query : (f : Db → A) → Frames (query f)
  unfolding query
  Frames-query f = record { at = λ w. refl }

  pub Frames-if : (b : Bool) (m n : M Db A) → Frames m → Frames n → Frames (if b then m else n)
  Frames-if true m n km kn = km
  Frames-if false m n km kn = kn

module _ {Db : Type 0} where
  pub Frames-now : Frames {Db = Db} now
  unfolding now
  Frames-now = record { at = λ w. refl }

  pub Frames-schedule : Frames {Db = Db} schedule
  unfolding schedule
  Frames-schedule = record { at = λ w. refl }

  pub Frames-transmit : (a : Address) (m : AccessMessage) → Frames {Db = Db} (transmit a m)
  unfolding transmit
  Frames-transmit a m = record { at = λ w. refl }

  pub Frames-close : Frames {Db = Db} close
  unfolding close
  Frames-close = record { at = λ w. refl }

  -- A connection is taken, and that is all.
  pub connect_lem :
      (w : World Db)
      → After (connect w) (λ conn w'.
        (conn ≡ true) × ((rest : List Bool) × (w' ≡ record w { pool = rest; held = w.held + 1 })))
  unfolding connect
  connect_lem w = go (get_connection w.pool) (get_connection-ne-null w.pool)
    where
      go :
          (r : Result (Bool × List Bool))
          → ((rest : List Bool) → r ≢ ok (false, rest))
          → After (took w r) (λ conn w'.
            (conn ≡ true)
            × ((rest : List Bool) × (w' ≡ record w { pool = rest; held = w.held + 1 })))
      go (ok (true, rest)) never = (refl, (rest, refl))
      go (ok (false, rest)) never = absurd (never rest refl)
      go (fault e) never = tt

module _ {Db A B : Type 0} where
  pub Frames-bind :
      (m : M Db A) (f : A → M Db B) → Frames m → ((a : A) → Frames (f a)) → Frames (m >>= f)
  unfolding ◌>>=◌
  Frames-bind m f km kf = record {
    at = λ w.
        After-bind (m w) f (λ _ w'. w'.db ≡ w.db) _ (km.at w)
          λ a w' h. After-map (f a w') _ _ ((kf a).at w') λ _ w'' h'. h' ∙ h;
  }

pub ruleset frame_rules = (
  Frames-pure, Frames-lift, Frames-query, Frames-if, Frames-now, Frames-schedule, Frames-transmit,
  Frames-close, Frames-bind,
)
