-- ===== src/Socket/Flags.antt =====
-- What `SetBlocking` of src/commons/comm_socket.cpp does to a descriptor's flags.
use short_message.Prelude.{
  ◌⊎◌, inl, inr, ℕ, zero, suc, ◌+◌, ◌-◌, ◌*◌, ◌/◌, ◌%◌, ◌^◌, ◌≤◌, ◌<◌, ◌≡◌, refl, sym, ap, ◌∙◌,
  arith, Bool, true, false, not, min, if◌then◌else◌,
}
use Prim.Native.Nat.{bit_and, bit_or, max, bit_and-bitwise, bit_or-bitwise}
use native.Mathlib.Nat.{pow-suc, one-le-pow}
use short_message.Prelude.Digits.{lowest_digit, mul_pow_suc, div_pow_suc, mod_pow_suc}
use short_message.Prelude.Int.{ℤ, pos, negsuc, int_lt}
use short_message.Socket.{Os, CommonSocket, o_nonblock, with_blocking, store_flags, set_blocking}

bit_or_step : (a b : ℕ) → bit_or a b ≡ bit_or (a / 2) (b / 2) * 2 + max (a % 2) (b % 2)
bit_or_step zero b = omega (arith, bit_or-bitwise 0 b, bit_or-bitwise 0 (b / 2))
bit_or_step (suc a) b = omega (
  arith,
  bit_or-bitwise (suc a) b,
  bit_or-bitwise (suc a / 2) (b / 2),
  lowest_digit (λ y. y) max a b,
)

bit_and_step : (a b : ℕ) → bit_and a b ≡ bit_and (a / 2) (b / 2) * 2 + min (a % 2) (b % 2)
bit_and_step zero b = omega (arith, bit_and-bitwise 0 b, bit_and-bitwise 0 (b / 2))
bit_and_step (suc a) b = omega (
  arith,
  bit_and-bitwise (suc a) b,
  bit_and-bitwise (suc a / 2) (b / 2),
  lowest_digit (λ y. 0) min a b,
)

or_nothing : (n a : ℕ) → a ≤ n → bit_or a 0 ≡ a
or_nothing n zero h = refl
or_nothing zero (suc a) h = absurd (omega arith)
or_nothing (suc n) (suc a) h =
    omega (arith, bit_or_step (suc a) 0, or_nothing n (suc a / 2) (omega arith))

-- One bit is set, and the others stay.
set_bit : (k n : ℕ) → bit_or n (2 ^ k) ≡ n / 2 ^ suc k * 2 ^ suc k + 2 ^ k + n % 2 ^ k
set_bit zero n = omega (arith, bit_or_step n 1, or_nothing (n / 2) (n / 2) (omega arith))
set_bit (suc k) n =
    let half : (2 ^ suc k / 2 ≡ 2 ^ k) = omega (arith, pow-suc 2 k) in
    omega (
      arith,
      bit_or_step n (2 ^ suc k),
      ap (bit_or (n / 2)) half,
      set_bit k (n / 2),
      pow-suc 2 k,
      mul_pow_suc (suc k) (n / 2 ^ suc (suc k)),
      ap (λ (q : ℕ). q * 2 ^ suc k) (div_pow_suc (suc k) n),
      mod_pow_suc k n,
    )

and_nothing : (n a : ℕ) → a ≤ n → bit_and a 0 ≡ 0
and_nothing n zero h = refl
and_nothing zero (suc a) h = absurd (omega arith)
and_nothing (suc n) (suc a) h =
    omega (arith, bit_and_step (suc a) 0, and_nothing n (suc a / 2) (omega arith))

-- All bits below a width are kept.
and_ones : (m n : ℕ) → bit_and n (2 ^ m - 1) ≡ n % 2 ^ m
and_ones zero n = omega (arith, and_nothing n n (omega arith))
and_ones (suc m) n =
    let half : ((2 ^ suc m - 1) / 2 ≡ 2 ^ m - 1) =
      omega (arith, pow-suc 2 m, one-le-pow m 2 (omega arith)) in
    omega (
      arith,
      bit_and_step n (2 ^ suc m - 1),
      ap (bit_and (n / 2)) half,
      and_ones m (n / 2),
      pow-suc 2 m,
      one-le-pow m 2 (omega arith),
      mod_pow_suc m n,
    )

-- One bit is cleared, and the others below a width stay.
clear_bit :
    (k m n : ℕ)
    → bit_and n ((2 ^ m - 1) * 2 ^ suc k + (2 ^ k - 1))
      ≡ n / 2 ^ suc k % 2 ^ m * 2 ^ suc k + n % 2 ^ k
clear_bit zero m n =
    let half : (((2 ^ m - 1) * 2 ^ 1 + (2 ^ 0 - 1)) / 2 ≡ 2 ^ m - 1) = omega arith in
    omega (
      arith,
      bit_and_step n ((2 ^ m - 1) * 2 ^ 1 + (2 ^ 0 - 1)),
      ap (bit_and (n / 2)) half,
      and_ones m (n / 2),
    )
clear_bit (suc k) m n =
    let ones = 2 ^ m - 1 in
    let mask = ones * 2 ^ suc (suc k) + (2 ^ suc k - 1) in
    let rest = ones * 2 ^ suc k + (2 ^ k - 1) in
    let one = one-le-pow k 2 (omega arith) in
    let half : (mask / 2 ≡ rest) = omega (arith, mul_pow_suc (suc k) ones, pow-suc 2 k, one) in
    let odd : (mask % 2 ≡ 1) = omega (arith, mul_pow_suc (suc k) ones, pow-suc 2 k, one) in
    omega (
      arith,
      bit_and_step n mask,
      ap (bit_and (n / 2)) half,
      odd,
      clear_bit k m (n / 2),
      mul_pow_suc (suc k) (n / 2 ^ suc (suc k) % 2 ^ m),
      ap (λ (q : ℕ). q % 2 ^ m * 2 ^ suc k) (div_pow_suc (suc k) n),
      mod_pow_suc k n,
    )

-- O_NONBLOCK, and the flags below and above it.
pub record Blocks (block : Bool) (old new : ℕ) : Type 0 where
  pub nonblock : new / o_nonblock % 2 ≡ (if block then 0 else 1)
  pub below : new % o_nonblock ≡ old % o_nonblock
  pub above : new / (2 * o_nonblock) ≡ old / (2 * o_nonblock)

with_blocking-Blocks :
    (block : Bool) (opts : ℕ) → opts < 2 ^ 31 → Blocks block opts (with_blocking block opts)
unfolding with_blocking
with_blocking-Blocks true opts h =
    let e : (bit_and opts (0xffffffff - o_nonblock) ≡ opts / 4096 % 2 ^ 20 * 4096 + opts % 2048) =
      clear_bit 11 20 opts in
    record { nonblock = omega (arith, e); below = omega (arith, e); above = omega (arith, e) }
with_blocking-Blocks false opts h =
    let e : (bit_or opts o_nonblock ≡ opts / 4096 * 4096 + 2048 + opts % 2048) = set_bit 11 opts in
    record { nonblock = omega (arith, e); below = omega (arith, e); above = omega (arith, e) }

-- What fcntl documents of the flags of an open file, as laws of a parameter: F_GETFL reads them, and a
-- successful F_SETFL takes over flags that differ from the old ones in O_NONBLOCK at most; a call that
-- fails changes none.
pub record IsFcntl (os : Os) : Type 0 where
  pub flags : os.State → ℤ → ℕ
  pub get_lem :
      (fd : ℤ) (st st' : os.State) (r : ℤ)
      → os.get_flags fd st ≡ (r, st')
      → flags st' fd ≡ flags st fd
  pub read_lem :
      (fd : ℤ) (st st' : os.State) (n : ℕ)
      → os.get_flags fd st ≡ (pos n, st')
      → (n ≡ flags st fd) × (n < 2 ^ 31)
  pub set_lem :
      (fd : ℤ) (block : Bool) (new n : ℕ) (st st' : os.State)
      → os.set_flags fd new st ≡ (pos n, st')
      → Blocks block (flags st fd) new
      → flags st' fd ≡ new
  pub failed_lem :
      (fd : ℤ) (new n : ℕ) (st st' : os.State)
      → os.set_flags fd new st ≡ (negsuc n, st')
      → flags st' fd ≡ flags st fd

module _ (os : Os) (fcntl : IsFcntl os) (block : Bool) (s : CommonSocket) where
  open fcntl use {flags}
  open s use {socket_fd}

  -- `SetBlocking` has changed O_NONBLOCK alone, or it has failed and changed no flag.
  abbrev pub FlagStored : ℕ → Bool → os.State → Type 0
  FlagStored old done st' =
      ((done ≡ true) × Blocks block old (flags st' socket_fd))
      ⊎ ((done ≡ false) × (flags st' socket_fd ≡ old))

  stored_lem :
      (st : os.State) (opts : ℕ)
      → opts ≡ flags st socket_fd
      → opts < 2 ^ 31
      → FlagStored
          (flags st socket_fd)
          (store_flags os (pos opts) block s st).0
          (store_flags os (pos opts) block s st).2
  unfolding store_flags
  stored_lem st opts e lt =
      let new = with_blocking block opts in
      let b : Blocks block (flags st socket_fd) new =
        rw (sym e) (with_blocking-Blocks block opts lt) in
      go (os.set_flags socket_fd new st) refl b
    where
      go :
          (r : ℤ × os.State)
          → os.set_flags socket_fd (with_blocking block opts) st ≡ r
          → Blocks block (flags st socket_fd) (with_blocking block opts)
          → FlagStored (flags st socket_fd) (not (int_lt r.0 (pos 0))) r.1
      go (pos n, st') x b = inl (
        ground arith,
        rw (fcntl.set_lem socket_fd block (with_blocking block opts) n st st' x b) b,
      )
      go (negsuc n, st') x b = inr (refl, fcntl.failed_lem socket_fd _ n st st' x)

  -- `SetBlocking`: the object is as it was; and either the result is true, O_NONBLOCK of the socket's
  -- descriptor is off exactly if blocking is asked for, and every other flag is as it was; or the
  -- result is false, and every flag is as it was.
  pub set_blocking_lem :
      (st : os.State)
      → let (done, s', st') = set_blocking os block s st in
        (s' ≡ s) × FlagStored (flags st socket_fd) done st'
  unfolding set_blocking store_flags
  set_blocking_lem st = go (os.get_flags socket_fd st) refl
    where
      go :
          (r : ℤ × os.State)
          → os.get_flags socket_fd st ≡ r
          → let (done, s', st') = store_flags os r.0 block s r.1 in
            (s' ≡ s) × FlagStored (flags st socket_fd) done st'
      go (pos opts, st₁) x =
          let same = fcntl.get_lem socket_fd st st₁ (pos opts) x in
          let (read, small) = fcntl.read_lem socket_fd st st₁ opts x in
          (refl, rw same at (stored_lem st₁ opts (read ∙ sym same) small))
      go (negsuc n, st₁) x = (refl, inr (refl, fcntl.get_lem socket_fd st st₁ (negsuc n) x))
