-- ===== src/Logging.antt =====
-- logger/logger.hpp and logger/logger.cpp: loggers collect lines, and one writer appends them to files.
-- A logger is an object of `objects`, by its pointer. Logging and a round of the writer hold the lock of
-- the logger, so that they run one after the other; the destructor takes no lock, and is modelled where
-- nothing else runs. `stamp_text` is what the C library makes of a time.
pub mod Rounds
pub mod Lines
pub mod Tests
use reactor_network_lib.Common.{ℕ, List, if◌then◌else◌, ◌++◌, false, Bool, ◌==◌, ◌∷◌, [], leb}

pub record LogInfo : Type 0 where
  pub context : List ℕ
  pub time_stamp : ℕ

-- `file` is what the file at `log_path_` holds.
pub record Logger : Type 0 where
  pub container : List LogInfo
  pub state : ℕ
  pub file : List ℕ

-- `LogWritter`, with the loggers that exist.
pub record LogWritter : Type 0 where
  pub loggers : List ℕ
  pub running : Bool
  pub objects : ℕ → Logger

abbrev pub object_at : (ℕ → Logger) → ℕ → Logger → ℕ → Logger
object_at objects p l q = if p == q then l else objects q

-- The constructor of a logger: its file is truncated.
pub create : ℕ → ℕ → LogWritter → LogWritter
create p level w = record w {
  loggers = w.loggers ++ p ∷ [];
  objects = object_at w.objects p (record { container = []; state = level; file = [] });
}

-- `operator<<`
pub log : ℕ → LogInfo → LogWritter → LogWritter
log p line w =
    let l = w.objects p in
    record w { objects = object_at w.objects p (record l { container = l.container ++ line ∷ [] }) }

-- `output` swaps the container with an empty one.
pub output : Logger → List LogInfo × Logger
output l = (l.container, record l { container = [] })

pub stop_run : LogWritter → LogWritter
stop_run w = record w { running = false }

-- How a round ends: the writer goes on, or the program aborts.
pub data Round : Type 0 where
  goes_on : LogWritter → Round
  aborts : LogWritter → Round

module _ (stamp_text : ℕ → List ℕ) where
  pub text : List LogInfo → List ℕ
  text [] = []
  text (line ∷ lines) = (stamp_text line.time_stamp ++ (line.context ++ 10 ∷ [])) ++ text lines

  pub write : ℕ → LogWritter → LogWritter
  unfolding output text
  write p w =
      let (trash, l) = output (w.objects p) in
      record w { objects = object_at w.objects p (record l { file = l.file ++ text trash }) }

  -- The body of `run` for the loggers from here on.
  pub round_from : List ℕ → LogWritter → Round
  unfolding write
  round_from [] w = goes_on w
  round_from (p ∷ ps) w =
      let w' = write p w in
      let rest = round_from ps w in
      let rest' = round_from ps w' in
      elim (w.objects p).container [
        | [] ↦ rest
        | line ∷ lines ↦ if leb 6 (w.objects p).state then aborts w' else rest'
      ]

  -- One turn of the `while` of `run`, after its sleep.
  pub round : LogWritter → Round
  unfolding round_from
  round w = if w.running then round_from w.loggers w else goes_on w

  -- The destructor of a logger.
  pub destroy : ℕ → LogWritter → LogWritter
  unfolding stop_run write
  destroy p w = write p (stop_run w)
