-- ===== src/Logger.antt =====
-- src/tools/logger.cpp: the logger that the server's parts write to. The library log4cplus is a parameter,
-- and so is what a format makes of its arguments: `printed` is that text without a limit.
use short_message.Prelude.{
  ℕ, zero, suc, ◌-◌, ◌≡◌, ◌≤◌, refl, Bool, true, false, Option, none, some, [], ◌∷◌, ◌++◌, Bytes,
  length, take, replicate, if◌then◌else◌, arith, length-take, length-append, length-replicate,
}
use short_message.Memory.{text, c_string, c_string-append, IsText}

-- The levels of log4cplus that the class uses.
pub data LogLevel : Type 0 where
  trace_level : LogLevel
  debug_level : LogLevel
  info_level : LogLevel
  warn_level : LogLevel
  error_level : LogLevel
  fatal_level : LogLevel

-- log4cplus, with the logger "global", on its own state.
pub record Log4cplus : Type 1 where
  pub State : Type 0
  pub initialize : State → State
  pub do_configure : Bytes → State → State
  pub is_enabled_for : LogLevel → State → Bool
  pub forced_log : LogLevel → Bytes → State → State
  pub shutdown : State → State

-- What `vsnprintf` leaves in a zeroed buffer of that size: as much of the text as leaves room for a NUL.
unfoldable pub vsnprintf : ℕ → Bytes → Bytes
vsnprintf size printed =
    take (size - 1) printed ++ 0 ∷ replicate (size - 1 - length (take (size - 1) printed)) 0

module _ (lib : Log4cplus) where
  open lib use {State, initialize, do_configure, is_enabled_for, forced_log, shutdown}

  -- A `const char*` as a string: up to its first NUL.
  abbrev pub forced : LogLevel → Option Bytes → State → State
  forced level none s = s
  forced level (some message) s = forced_log level message s

  -- DO_LOGGER
  unfoldable pub do_logger : LogLevel → ℕ → Bytes → State → State
  do_logger level size printed s =
      if is_enabled_for level s then forced level (c_string (vsnprintf size printed)) s else s

  -- LOG4CPLUS_INFO
  unfoldable pub log4cplus_info : Bytes → State → State
  log4cplus_info message s =
      if is_enabled_for info_level s then forced_log info_level message s else s

  -- Slog::Init; `none` is NULL.
  abbrev pub init : Option Bytes → State → Bool × State
  init none s = (false, s)
  init (some properties_filename) s = (
    true,
    log4cplus_info (text "Logger System start finish")
        (do_configure properties_filename (initialize s)),
  )

  -- Slog::Stop, which the destructor calls.
  abbrev pub stop : State → State
  stop s = shutdown (log4cplus_info (text "Logger System Stop Finish...") s)

  abbrev pub destroy : State → State
  destroy s = stop s

  abbrev pub debug : Bytes → State → State
  debug = do_logger debug_level 1024

  abbrev pub error : Bytes → State → State
  error = do_logger error_level 256

  abbrev pub fatal : Bytes → State → State
  fatal = do_logger fatal_level 256

  abbrev pub info : Bytes → State → State
  info = do_logger info_level 512

  abbrev pub warn : Bytes → State → State
  warn = do_logger warn_level 256

  abbrev pub trace : Bytes → State → State
  trace = do_logger trace_level 1024

IsText-take : (n : ℕ) (printed : Bytes) → IsText printed → IsText (take n printed)
IsText-take zero printed h = tt
IsText-take (suc n) [] h = tt
IsText-take (suc n) (c ∷ cs) (h, t) = (h, IsText-take n cs t)

-- The buffer is filled to its end, and no further.
length-vsnprintf : (size : ℕ) (printed : Bytes) → 1 ≤ size → length (vsnprintf size printed) ≡ size
unfolding vsnprintf
length-vsnprintf size printed h =
    let k = length (take (size - 1) printed) in
    omega (
      arith,
      length-append (take (size - 1) printed) (0 ∷ replicate (size - 1 - k) 0),
      length-replicate {A = ℕ} (size - 1 - k) 0,
      length-take (size - 1) printed,
    )

-- What is logged of a text is its beginning, one byte shorter than the buffer at most.
do_logger_lem :
    (lib : Log4cplus) (level : LogLevel) (size : ℕ) (printed : Bytes) (s : lib.State)
    → IsText printed
    → do_logger lib level size printed s
      ≡ (if lib.is_enabled_for level s then lib.forced_log level (take (size - 1) printed) s else s)
unfolding do_logger vsnprintf
do_logger_lem lib level size printed s h =
    rw (c_string-append (take (size - 1) printed) _ (IsText-take (size - 1) printed h)) refl
