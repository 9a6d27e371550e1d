-- ===== src/World/Stable.antt =====
-- Rules for actions that keep a property of the database.
use short_message.Prelude.{◌≡◌, refl, Bool, true, false, if◌then◌else◌}
use short_message.Machine.{Result, ok, fault, Yields}
use short_message.World.{
  World, M, pure, ◌>>=◌, lift, query, now, schedule, update, update_or_fault, updated, connect,
  close, clear, transmit, After, lifted, Address, AccessMessage,
}
use short_message.World.Frame.{After-bind, After-map, connect_lem}

-- `m` is begun with a database with `P`, and ends with one.
pub record Stable {Db A : Type 0} (P : Db → Type 0) (m : M Db A) : Type 0 where
  pub at : (w : World Db) → P w.db → After (m w) (λ _ w'. P w'.db)

module _ {Db A : Type 0} {P : Db → Type 0} where
  pub Stable-pure : (a : A) → Stable P (pure a)
  unfolding pure
  Stable-pure a = record { at = λ w p. p }

  pub Stable-lift : (r : Result A) → Stable P (lift r)
  unfolding lift
  Stable-lift r = record { at = λ w p. go r w p }
    where
      go : (r : Result A) (w : World Db) → P w.db → After (lifted r w) (λ _ w'. P w'.db)
      go (ok a) w p = p
      go (fault e) w p = tt

  pub Stable-query : (f : Db → A) → Stable P (query f)
  unfolding query
  Stable-query f = record { at = λ w p. p }

  pub Stable-update : (f : Db → A × Db) → ((d : Db) → P d → P (f d).1) → Stable P (update f)
  unfolding update
  Stable-update f k = record { at = λ w p. k w.db p }

  pub Stable-update_or_fault :
      (f : Db → Result (A × Db))
      → ((d : Db) → P d → Yields (f d) (λ r. P r.1))
      → Stable P (update_or_fault f)
  unfolding update_or_fault updated
  Stable-update_or_fault f k = record { at = λ w p. go w (f w.db) (k w.db p) }
    where
      go :
          (w : World Db) (r : Result (A × Db))
          → Yields r (λ x. P x.1)
          → After (updated w r) (λ _ w'. P w'.db)
      go w (ok (a, db')) p = p
      go w (fault e) p = tt

  pub Stable-if :
      (b : Bool) (m n : M Db A) → Stable P m → Stable P n → Stable P (if b then m else n)
  Stable-if true m n km kn = km
  Stable-if false m n km kn = kn

  -- A branch may use the test's result.
  pub Stable-if_eq :
      (b : Bool) (m n : M Db A)
      → (b ≡ true → Stable P m)
      → (b ≡ false → Stable P n)
      → Stable P (if b then m else n)
  Stable-if_eq true m n km kn = km refl
  Stable-if_eq false m n km kn = kn refl

module _ {Db : Type 0} {P : Db → Type 0} where
  pub Stable-now : Stable P now
  unfolding now
  Stable-now = record { at = λ w p. p }

  pub Stable-schedule : Stable P schedule
  unfolding schedule
  Stable-schedule = record { at = λ w p. p }

  pub Stable-transmit : (a : Address) (m : AccessMessage) → Stable P (transmit a m)
  unfolding transmit
  Stable-transmit a m = record { at = λ w p. p }

  pub Stable-close : Stable P close
  unfolding close
  Stable-close = record { at = λ w p. p }

  pub Stable-clear : Stable P clear
  unfolding clear
  Stable-clear = record { at = λ w p. p }

  pub Stable-connect : Stable P connect
  Stable-connect = record {
    at = λ w p.
        After-map (connect w) _ (λ _ w'. P w'.db) (connect_lem w) λ _ w' (c, (pool, e)). rw e p;
  }

module _ {Db A B : Type 0} {P : Db → Type 0} where
  pub Stable-bind :
      (m : M Db A) (f : A → M Db B) → Stable P m → ((a : A) → Stable P (f a)) → Stable P (m >>= f)
  unfolding ◌>>=◌
  Stable-bind m f km kf = record {
    at = λ w p. After-bind (m w) f (λ _ w'. P w'.db) _ (km.at w p) λ a w' p'. (kf a).at w' p';
  }

pub ruleset stable_rules = (
  Stable-pure, Stable-lift, Stable-query, Stable-update, Stable-update_or_fault, Stable-if,
  Stable-now, Stable-schedule, Stable-transmit, Stable-close, Stable-clear, Stable-connect,
  Stable-bind,
)
