-- ===== src/Log/Tests.antt =====
-- Runs of a log to a file.
use yedis.Prelude.{
  ℕ, ◌+◌, ◌≡◌, ◌≤◌, ◌<◌, refl, true, false, none, some, List, [], ◌∷◌, ◌++◌, Bytes, Bool, codes,
  length, arith, All,
}
use yedis.Prelude.Int.{pos}
use yedis.Outcome.{done}
use yedis.Decimal.{print_nat, print_int}
use yedis.Log.{
  Log, Call, Time, info, fatal, init, default_log, line_of, make_line_prefix, passes, is_running,
}
use yedis.Log.Dump.{binary_line}
use yedis.Log.Dump.Rows.{dump}
use yedis.Log.Dump.Binary.{binary_line-dump}
use yedis.Log.File.{System, Fwrite, returned, create_new_file, write_to_file, output}
use yedis.Log.File.Whole.{Wrote, write_to_file_lem}
use yedis.Log.Writer.{begin_thread, roll, take_line, lines_of, file_of, ask_exit, Steps, has_ended}
use yedis.Log.Journal.{text_of, joined, in_hand}
use yedis.Log.Journal.Runs.{Steps-init}
use yedis.Log.Endings.{Steps-is_running}

abbrev two_bytes : Bytes
two_bytes = 1 ∷ 171 ∷ []

binary_line-dump_example :
    binary_line (pos 7) two_bytes
    ≡ done (
        (codes "address["
          ++ print_int (pos 7)
          ++ codes "] size["
          ++ print_nat (length two_bytes)
          ++ codes "] \n")
        ++ dump 0 two_bytes)
binary_line-dump_example = binary_line-dump (pos 7) two_bytes

abbrev writes_all : Fwrite
writes_all call n = n

writes_all-bounded : (call n : ℕ) → writes_all call n ≤ n
writes_all-bounded call n = omega arith

abbrev opened_log : Log
opened_log = record default_log {
  log_file = some (codes "a.log");
  disk = (codes "a.log", codes "x") ∷ [];
}

write_to_file_lem_example :
    (r : Bool × Bytes) × (write_to_file writes_all (codes "abc") opened_log
      ≡ done (r.0, record opened_log { disk = (codes "a.log", codes "x" ++ r.1) ∷ [] }))
    × Wrote writes_all (codes "abc") r
write_to_file_lem_example =
    write_to_file_lem writes_all writes_all-bounded (codes "abc") (codes "a.log") (codes "x") []
      opened_log (omega arith) refl refl

abbrev noon : Time
noon = record { year = 126; mon = 0; mday = 2; hour = 12; min = 0; sec = 0; millitm = 5 }

abbrev says : Call
says = record {
  level = info;
  place = none;
  now = noon;
  thread = codes "1";
  message = codes "hello";
}

abbrev dies : Call
dies = record says { level = fatal }

abbrev started : Log
started = init (some (codes "y")) false 100 77 default_log

abbrev system : System
system = record { opened = true; fwrite = writes_all }

abbrev said : Log
said = record started { lines_to_write = [] ++ lines_of says started }

output-said : output system [] says started ≡ done (returned true, said)
unfolding output init passes lines_of
output-said = refl

abbrev names : List Bytes
names = file_of true (codes "20260102120000") (begin_thread said) ++ []

abbrev rolled : Log
rolled = roll true (codes "20260102120000") (begin_thread said)

steps_rolled : Steps (λ turn. writes_all) names ([] ++ lines_of says started) started rolled
unfolding begin_thread init
steps_rolled =
    Steps.rolls [] ([] ++ lines_of says started) true (codes "20260102120000") started
      (begin_thread said)
      (Steps.begins [] ([] ++ lines_of says started) started said
        (Steps.outputs [] [] system [] says (returned true) started started said
          (Steps.stays started) refl output-said)
        refl)
      refl

says-short : All (λ line. length line ≤ 100) ([] ++ lines_of says started)
unfolding lines_of passes line_of make_line_prefix init print_nat
says-short = (omega arith, tt)

-- A file is made, and the line is in the queue.
Steps-init_example :
    (cut : Bytes) × (text_of rolled.disk
        ++ (in_hand rolled.phase cut ++ joined rolled.lines_to_write)
      ≡ joined ([] ++ lines_of says started))
    × All (λ f. length f.1 < 100 + 100) rolled.disk
unfolding file_of begin_thread init
Steps-init_example =
    Steps-init (λ turn. writes_all) (λ turn. writes_all-bounded) 100 (codes "y") false 100 77 names
      ([] ++ lines_of says started) rolled steps_rolled refl (omega arith) (tt, tt) says-short

-- The thread is asked to end, and finds nothing in the queue.
abbrev ended_log : Log
ended_log = take_line (ask_exit (roll true [] (begin_thread started)))

steps_ended :
    Steps (λ turn. writes_all) (file_of true [] (begin_thread started) ++ []) [] started ended_log
unfolding begin_thread roll ask_exit init create_new_file
steps_ended =
    let begun : Log = begin_thread started in
    let files : List Bytes = file_of true [] begun ++ [] in
    Steps.takes files [] started (ask_exit (roll true [] begun))
      (Steps.asks files [] started (roll true [] begun) (
        Steps.rolls [] [] true [] started begun
          (Steps.begins [] [] started started (Steps.stays started) refl) refl))
      refl

ended_log-has_ended : has_ended ended_log.phase ≡ true
unfolding take_line begin_thread roll ask_exit init create_new_file
ended_log-has_ended = refl

Steps-is_running_example : is_running ended_log ≡ true
Steps-is_running_example =
    Steps-is_running (λ turn. writes_all) (some (codes "y")) false 100 77
      (file_of true [] (begin_thread started) ++ []) [] ended_log steps_ended ended_log-has_ended
