-- ===== src/World/Connections.antt =====
-- Rules for actions that give back the connections that they take.
use short_message.Prelude.{
  ◌+◌, ◌<◌, ◌≡◌, ◌≢◌, refl, ◌∙◌, List, Bool, true, false, if◌then◌else◌, arith,
}
use short_message.Database.Pool.{get_connection, get_connection-ne-null}
use short_message.Machine.{Result, ok, fault}
use short_message.World.{
  World, M, pure, ◌>>=◌, lift, query, now, schedule, update, update_or_fault, connect, close,
  transmit, After, updated, Address, AccessMessage, took,
}

-- `m` ends with as many connections as it began with.
pub record Keeps {Db A : Type 0} (m : M Db A) : Type 0 where
  pub at : (w : World Db) → After (m w) (λ _ w'. w'.held ≡ w.held)

-- `m` is begun with a connection, and ends with one connection fewer.
pub record Closes {Db A : Type 0} (m : M Db A) : Type 0 where
  pub at : (w : World Db) → 0 < w.held → After (m w) (λ _ w'. w'.held + 1 ≡ w.held)

After-bind :
    {Db A B : Type 0} (r : Result (A × World Db)) (f : A → M Db B) (P : World Db → Type 0)
    (Q : World Db → Type 0)
    → After r (λ _ w. P w)
    → ((a : A) (w : World Db) → P w → After (f a w) (λ _ w'. Q w'))
    → After (elim r [ ok (a, w') ↦ f a w' | fault e ↦ fault e ]) (λ _ w'. Q w')
After-bind (ok (a, w)) f P Q h k = k a w h
After-bind (fault e) f P Q h k = tt

After-map :
    {Db A : Type 0} (r : Result (A × World Db)) (P Q : World Db → Type 0)
    → After r (λ _ w. P w)
    → ((w : World Db) → P w → Q w)
    → After r (λ _ w. Q w)
After-map (ok (a, w)) P Q h k = k w h
After-map (fault e) P Q h k = tt

module _ {Db A : Type 0} where
  pub Keeps-pure : (a : A) → Keeps {Db = Db} (pure a)
  unfolding pure
  Keeps-pure a = record { at = λ w. refl }

  pub Keeps-lift : (r : Result A) → Keeps {Db = Db} (lift r)
  unfolding lift
  Keeps-lift r = record { at = λ w. go r w }
    where
      go : (r : Result A) (w : World Db) → After (lift r w) (λ _ w'. w'.held ≡ w.held)
      go (ok a) w = refl
      go (fault e) w = tt

  pub Keeps-query : (f : Db → A) → Keeps (query f)
  unfolding query
  Keeps-query f = record { at = λ w. refl }

  pub Keeps-update : (f : Db → A × Db) → Keeps (update f)
  unfolding update
  Keeps-update f = record { at = λ w. refl }

  pub Keeps-update_or_fault : (f : Db → Result (A × Db)) → Keeps (update_or_fault f)
  unfolding update_or_fault
  Keeps-update_or_fault f = record { at = λ w. go w (f w.db) }
    where
      go : (w : World Db) (r : Result (A × Db)) → After (updated w r) (λ _ w'. w'.held ≡ w.held)
      go w (ok (a, db')) = refl
      go w (fault e) = tt

pub Keeps-now : {Db : Type 0} → Keeps {Db = Db} now
unfolding now
Keeps-now = record { at = λ w. refl }

pub Keeps-schedule : {Db : Type 0} → Keeps {Db = Db} schedule
unfolding schedule
Keeps-schedule = record { at = λ w. refl }

pub Keeps-transmit :
    {Db : Type 0} (a : Address) (m : AccessMessage) → Keeps {Db = Db} (transmit a m)
unfolding transmit
Keeps-transmit a m = record { at = λ w. refl }

pub Closes-close : {Db : Type 0} → Closes {Db = Db} close
unfolding close
Closes-close = record { at = λ w h. omega arith }

module _ {Db A B : Type 0} where
  pub Keeps-bind :
      (m : M Db A) (f : A → M Db B) → Keeps m → ((a : A) → Keeps (f a)) → Keeps (m >>= f)
  unfolding ◌>>=◌
  Keeps-bind m f km kf = record {
    at = λ w.
        After-bind (m w) f (λ w'. w'.held ≡ w.held) _ (km.at w)
          λ a w' h. After-map (f a w') _ _ ((kf a).at w') λ w'' h'. h' ∙ h;
  }

  -- Something is done before the connection is closed,
  pub Closes-bind :
      (m : M Db A) (f : A → M Db B) → Keeps m → ((a : A) → Closes (f a)) → Closes (m >>= f)
  unfolding ◌>>=◌
  Closes-bind m f km kf = record {
    at = λ w taken.
        After-bind (m w) f (λ w'. w'.held ≡ w.held) _ (km.at w)
          λ a w' h. After-map (f a w') _ _ ((kf a).at w' (omega arith)) λ w'' h'. omega arith;
  }

  -- or after it.
  pub Closes-then :
      (m : M Db A) (f : A → M Db B) → Closes m → ((a : A) → Keeps (f a)) → Closes (m >>= f)
  unfolding ◌>>=◌
  Closes-then m f km kf = record {
    at = λ w taken.
        After-bind (m w) f (λ w'. w'.held + 1 ≡ w.held) _ (km.at w taken)
          λ a w' h. After-map (f a w') _ _ ((kf a).at w') λ w'' h'. omega arith;
  }

module _ {Db B : Type 0} where
  -- What takes a connection and then closes it keeps the number of connections.
  pub Keeps-connect : (f : Bool → M Db B) → Closes (f true) → Keeps (connect >>= f)
  unfolding connect ◌>>=◌
  Keeps-connect f kt = record {
    at = λ w. go w (get_connection w.pool) (get_connection-ne-null w.pool);
  }
    where
      go :
          (w : World Db) (r : Result (Bool × List Bool))
          → ((rest : List Bool) → r ≢ ok (false, rest))
          → After
              (elim (took w r) [ ok (a, w') ↦ f a w' | fault e ↦ fault e ])
              (λ _ w'. w'.held ≡ w.held)
      go w (ok (true, rest)) never =
          After-map (f true _) _ _
            (kt.at (record w { pool = rest; held = w.held + 1 }) (omega arith)) λ w' h. omega arith
      go w (ok (false, rest)) never = absurd (never rest refl)
      go w (fault e) never = tt

module _ {Db A : Type 0} where
  pub Keeps-if : (b : Bool) (m n : M Db A) → Keeps m → Keeps n → Keeps (if b then m else n)
  Keeps-if true m n km kn = km
  Keeps-if false m n km kn = kn

  -- A branch may use the test's result.
  pub Keeps-if_eq :
      (b : Bool) (m n : M Db A)
      → (b ≡ true → Keeps m)
      → (b ≡ false → Keeps n)
      → Keeps (if b then m else n)
  Keeps-if_eq true m n km kn = km refl
  Keeps-if_eq false m n km kn = kn refl

  pub Closes-if : (b : Bool) (m n : M Db A) → Closes m → Closes n → Closes (if b then m else n)
  Closes-if true m n km kn = km
  Closes-if false m n km kn = kn

pub ruleset connection_rules = (
  Keeps-pure, Keeps-lift, Keeps-query, Keeps-update, Keeps-update_or_fault, Keeps-now,
  Keeps-schedule, Keeps-transmit, Keeps-bind, Keeps-if, Keeps-connect, Closes-close, Closes-bind,
  Closes-then, Closes-if,
)
