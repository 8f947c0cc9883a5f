-- ===== src/Log/Writer.antt =====
-- base/AsyncLog.cpp: `writeThreadProc`, the thread that takes lines from the queue and writes them to
-- files, `uninit`, and the turns that this thread and the threads that put lines out take.
-- A stretch of the thread between two places where others can come in is one step.
use yedis.Prelude.{
  ℕ, ◌+◌, ◌≡◌, Bool, true, false, Option, none, some, List, [], ◌∷◌, ◌++◌, Bytes, length, leb,
  if◌then◌else◌, ◌||◌, ◌&&◌, not, ◌==◌,
}
use yedis.Prelude.Int.{ℤ}
use yedis.Outcome.{Outcome, done, ◌>>=◌}
use yedis.Log.{
  Log, LogLevel, Phase, unstarted, top, waiting, writing, exited, failed, Call, fatal, is_empty,
  passes, line_of, push_line, set_level, number,
}
use yedis.Log.Dump.{binary_line}
use yedis.Log.File.{System, Ending, Fwrite, create_new_file, new_file_name, write_to_file, output}

-- `m_bRunning = true`, in the thread.
unfoldable pub begin_thread : Log → Log
begin_thread l = record l { running = true; phase = top }

abbrev pub is_none : Option Bytes → Bool
is_none none = true
is_none (some name) = false

-- Whether a new file is due.
abbrev pub rolls_over : Log → Bool
rolls_over l = is_none l.log_file || leb l.file_roll_size l.current_written_size

abbrev pub opened_file : Bool × Log → Log
opened_file (true, l) = record l { phase = waiting }
opened_file (false, l) = record l { phase = failed }

-- The loop from its top to the queue.
unfoldable pub roll : Bool → Bytes → Log → Log
unfolding create_new_file
roll opened now l =
    if is_empty l.file_name
    then record l { phase = waiting }
    else if rolls_over l
    then opened_file
        (create_new_file opened (new_file_name now l) (record l { current_written_size = 0 }))
    else record l { phase = waiting }

abbrev pub take_from : List Bytes → Log → Log
take_from [] l = if l.exit then record l { phase = exited } else l
take_from (line ∷ rest) l = record l { lines_to_write = rest; phase = writing line }

-- The thread looks at the queue. If that is empty, it waits or ends.
unfoldable pub take_line : Log → Log
take_line l = take_from l.lines_to_write l

abbrev pub line_written : Bytes → Bool × Log → Log
line_written line (true, l) = record l {
  current_written_size = l.current_written_size + length line;
  phase = top;
}
line_written line (false, l) = record l { phase = failed }

-- The line goes to the console, which is left out, and to the file.
unfoldable pub write_line : Fwrite → Bytes → Log → Outcome Log
unfolding write_to_file
write_line fwrite line l =
    if is_empty l.file_name
    then done (record l { phase = top })
    else (write_to_file fwrite line l >>= λ r. done (line_written line r))

-- `uninit`: the flag, and, when the thread has ended, the file.
unfoldable pub ask_exit : Log → Log
ask_exit l = record l { exit = true }

unfoldable pub close_file : Log → Log
close_file l = record l { log_file = none }

-- `outputBinary`
unfoldable pub output_binary : ℤ → Bytes → Log → Outcome (Bool × Log)
unfolding binary_line
output_binary address buffer l =
    binary_line address buffer >>= λ line. done (true, push_line line l)

-- What a call of `output` puts into the queue, and the file that a turn of the thread makes.
unfoldable pub lines_of : Call → Log → List Bytes
unfolding passes line_of
lines_of c l = if passes c.level l then line_of c l ∷ [] else []

unfoldable pub file_of : Bool → Bytes → Log → List Bytes
file_of opened now l =
    if opened && not (is_empty l.file_name) && rolls_over l then new_file_name now l ∷ [] else []

abbrev pub has_ended : Phase → Bool
has_ended exited = true
has_ended failed = true
has_ended unstarted = false
has_ended top = false
has_ended waiting = false
has_ended (writing line) = false

module _ (fwrite : ℕ → Fwrite) where
  -- Any threads put lines out; none of them is fatal. The lists are the names of the files that were
  -- made, the newest first, and the lines that were put out. A write has its own `fwrite`.
  pub data Steps : List Bytes → List Bytes → Log → Log → Type 0 where
    stays : (l : Log) → Steps [] [] l l
    outputs :
        (names out : List Bytes) (s : System) (now : Bytes) (c : Call) (e : Ending) (k l m : Log)
        → Steps names out k l
        → (number c.level == number fatal) ≡ false
        → output s now c l ≡ done (e, m)
        → Steps names (out ++ lines_of c l) k m
    dumps :
        (names out : List Bytes) (address : ℤ) (buffer line : Bytes) (r : Bool) (k l m : Log)
        → Steps names out k l
        → binary_line address buffer ≡ done line
        → output_binary address buffer l ≡ done (r, m)
        → Steps names (out ++ line ∷ []) k m
    levels :
        (names out : List Bytes) (level : LogLevel) (k l : Log)
        → Steps names out k l
        → Steps names out k (set_level level l)
    begins :
        (names out : List Bytes) (k l : Log)
        → Steps names out k l
        → l.phase ≡ unstarted
        → Steps names out k (begin_thread l)
    rolls :
        (names out : List Bytes) (opened : Bool) (now : Bytes) (k l : Log)
        → Steps names out k l
        → l.phase ≡ top
        → Steps (file_of opened now l ++ names) out k (roll opened now l)
    takes :
        (names out : List Bytes) (k l : Log)
        → Steps names out k l
        → l.phase ≡ waiting
        → Steps names out k (take_line l)
    writes :
        (names out : List Bytes) (turn : ℕ) (line : Bytes) (k l m : Log)
        → Steps names out k l
        → l.phase ≡ writing line
        → write_line (fwrite turn) line l ≡ done m
        → Steps names out k m
    asks :
        (names out : List Bytes) (k l : Log) → Steps names out k l → Steps names out k (ask_exit l)
    closes :
        (names out : List Bytes) (k l : Log)
        → Steps names out k l
        → has_ended l.phase ≡ true
        → Steps names out k (close_file l)
