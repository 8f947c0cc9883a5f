-- ===== src/Log.antt =====
-- base/AsyncLog.h and base/AsyncLog.cpp: the log. Any thread puts lines into a queue, and one thread
-- writes them to files.
-- The message is the text that `vsnprintf` makes of the format and its arguments; the time is what
-- `localtime_r` and `ftime` give; the levels are those of the enumeration, as in the macros. Sizes
-- stay below 2 ^ 31.
pub mod Dump
pub mod File
pub mod Writer
pub mod Journal
pub mod Lines
pub mod Endings
pub mod Crash
mod Tests
use yedis.Prelude.{
  ℕ, ◌+◌, ◌-◌, ◌*◌, Bool, true, false, Option, none, some, List, [], ◌∷◌, ◌++◌, Bytes, codes, lf,
  take, ltb, ◌==◌, if◌then◌else◌, ◌&&◌, ◌||◌, not,
}
use yedis.Decimal.{print_nat}
use yedis.Log.Dump.{padded}

pub data LogLevel : Type 0 where
  trace debug info warning error syserror fatal critical : LogLevel

abbrev pub number : LogLevel → ℕ
number trace = 0
number debug = 1
number info = 2
number warning = 3
number error = 4
number syserror = 5
number fatal = 6
number critical = 7

-- Where `writeThreadProc` is: not begun, at the top of its loop, at the queue, at the write of a line,
-- or behind one of its `return`s, that of the exit flag or one of a call that failed.
pub data Phase : Type 0 where
  unstarted top waiting exited failed : Phase
  writing : Bytes → Phase

-- `disk` has the log files with their bytes, the newest first; the open one is known by its name, and
-- a null `m_hLogFile` is `none`.
pub record Log : Type 0 where
  pub truncate_long_log : Bool
  pub log_file : Option Bytes
  pub file_name : Bytes
  pub file_name_pid : Bytes
  pub current_level : LogLevel
  pub file_roll_size : ℕ
  pub current_written_size : ℕ
  pub lines_to_write : List Bytes
  pub exit : Bool
  pub running : Bool
  pub phase : Phase
  pub disk : List (Bytes × Bytes)

abbrev pub is_empty : Bytes → Bool
is_empty [] = true
is_empty (c ∷ s) = false

abbrev pub default_log : Log
default_log = record {
  truncate_long_log = false;
  log_file = none;
  file_name = codes "default";
  file_name_pid = [];
  current_level = info;
  file_roll_size = 10 * 1024 * 1024;
  current_written_size = 0;
  lines_to_write = [];
  exit = false;
  running = false;
  phase = unstarted;
  disk = [];
}

abbrev given_name : Option Bytes → Bytes
given_name none = []
given_name (some name) = name

-- The thread is there, and has not begun.
unfoldable pub init : Option Bytes → Bool → ℕ → ℕ → Log → Log
init name truncate roll_size pid l = record l {
  truncate_long_log = truncate;
  file_roll_size = roll_size;
  file_name = given_name name;
  file_name_pid = take 7 (padded 5 pid);
}

unfoldable pub set_level : LogLevel → Log → Log
set_level level l =
    if ltb (number level) (number trace) || ltb (number fatal) (number level)
    then l
    else record l { current_level = level }

unfoldable pub is_running : Log → Bool
is_running l = l.running

-- `tm`, with the year since 1900 and the month from 0, and `millitm`.
pub record Time : Type 0 where
  pub year : ℕ
  pub mon : ℕ
  pub mday : ℕ
  pub hour : ℕ
  pub min : ℕ
  pub sec : ℕ
  pub millitm : ℕ

abbrev pub get_time : Time → Bytes
get_time t = take 63 (
    codes "["
    ++ padded 4 (t.year + 1900)
    ++ codes "-"
    ++ padded 2 (t.mon + 1)
    ++ codes "-"
    ++ padded 2 t.mday
    ++ codes " "
    ++ padded 2 t.hour
    ++ codes ":"
    ++ padded 2 t.min
    ++ codes ":"
    ++ padded 2 t.sec
    ++ codes ":"
    ++ padded 3 t.millitm
    ++ codes "]")

-- `"%Y%m%d%H%M%S"`
abbrev pub stamp : Time → Bytes
stamp t =
    padded 4 (t.year + 1900)
    ++ padded 2 (t.mon + 1)
    ++ padded 2 t.mday
    ++ padded 2 t.hour
    ++ padded 2 t.min
    ++ padded 2 t.sec

abbrev pub level_prefix : LogLevel → Bytes
level_prefix trace = codes "[TRACE]"
level_prefix debug = codes "[DEBUG]"
level_prefix info = codes "[INFO]"
level_prefix warning = codes "[WARN]"
level_prefix error = codes "[ERROR]"
level_prefix syserror = codes "[SYSE]"
level_prefix fatal = codes "[FATAL]"
level_prefix critical = codes "[CRITICAL]"

-- `thread` is the print of the thread's number.
unfoldable pub make_line_prefix : LogLevel → Time → Bytes → Bytes
make_line_prefix level now thread =
    level_prefix level
    ++ codes "["
    ++ get_time now
    ++ codes "]"
    ++ take 31 (codes "[" ++ thread ++ codes "]")

-- A call of `output`: `place` is the file and the line of the macros, if they are given.
pub record Call : Type 0 where
  pub level : LogLevel
  pub place : Option (Bytes × ℕ)
  pub now : Time
  pub thread : Bytes
  pub message : Bytes

abbrev place_text : Option (Bytes × ℕ) → Bytes
place_text none = []
place_text (some (file, line)) =
    take 511 (codes "[" ++ file ++ codes ":" ++ print_nat line ++ codes "]")

abbrev pub max_line_length : ℕ
max_line_length = 256

unfoldable pub passes : LogLevel → Log → Bool
passes level l =
    number level == number critical || not (ltb (number level) (number l.current_level))

-- `strLine`
unfoldable pub line_of : Call → Log → Bytes
unfolding make_line_prefix
line_of c l =
    make_line_prefix c.level c.now c.thread
    ++ place_text c.place
    ++ (if l.truncate_long_log then take max_line_length c.message else c.message)
    ++ (if is_empty l.file_name then [] else lf ∷ [])

abbrev pub push_line : Bytes → Log → Log
push_line line l = record l { lines_to_write = l.lines_to_write ++ line ∷ [] }
