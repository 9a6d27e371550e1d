-- ===== src/Database/Pool.antt =====
-- `Database::GetConnection` of src/tools/database.cpp. What the connection pool of libzdb answers to
-- each call is an event of the environment: a list of answers, `true` for a connection.
use short_message.Prelude.{
  ℕ, suc, ◌≡◌, refl, ◌≢◌, Bool, true, false, List, [], ◌∷◌, ltb, if◌then◌else◌, replicate, ◌++◌,
  arith,
}
use short_message.Machine.{Result, ok, fault, spinning}

-- `while (count > 0)`: the flag tells whether the pointer that is returned is not NULL.
loop : ℕ → List Bool → Result (Bool × List Bool)
loop count [] = if ltb 0 count then fault spinning else ok (false, [])
loop count (answer ∷ answers) =
    let rest = loop count answers in
    if ltb 0 count
    then if answer then ok (true, answers) else rest
    else ok (false, answer ∷ answers)

unfoldable pub get_connection : List Bool → Result (Bool × List Bool)
unfolding loop
get_connection = loop 3

loop-ne-null : (count : ℕ) (answers rest : List Bool) → loop (suc count) answers ≢ ok (false, rest)
unfolding loop
loop-ne-null count [] rest = ground arith
loop-ne-null count (true ∷ answers) rest = ground arith
loop-ne-null count (false ∷ answers) rest = ground (arith, loop-ne-null count answers rest)

-- The pointer that is returned is never NULL.
pub get_connection-ne-null : (answers rest : List Bool) → get_connection answers ≢ ok (false, rest)
unfolding get_connection
get_connection-ne-null answers rest = loop-ne-null 2 answers rest

-- However often the pool refuses, the loop goes on to the first connection; while the pool refuses,
-- it does not end.
pub get_connection_retries :
    (n : ℕ) (answers : List Bool)
    → (get_connection (replicate n false ++ true ∷ answers) ≡ ok (true, answers))
      × (get_connection (replicate n false) ≡ fault spinning)
unfolding get_connection
get_connection_retries ℕ.zero answers = (refl, refl)
get_connection_retries (suc n) answers = get_connection_retries n answers
