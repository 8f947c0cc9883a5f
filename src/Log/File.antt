-- ===== src/Log/File.antt =====
-- base/AsyncLog.cpp: `createNewFile`, `writeToFile`, and `output` with its path for fatal lines, which
-- are written at once.
-- `fopen` with "w+" makes a file of that name empty. `fwrite` writes the first of the bytes, at the end
-- of the file; how many is given by the number of the call and by how many it is asked to write.
pub mod Whole
use yedis.Prelude.{
  ℕ, zero, suc, ◌+◌, ◌≤◌, ◌<◌, ◌≡◌, refl, sym, ap, ◌∙◌, Bool, true, false, Option, none, some, List,
  [], ◌∷◌, ◌++◌, append-nil, append_assoc, inl, inr, Bytes, codes, length, take, drop, length-drop,
  length-append, leb, ltb, ◌==◌, if◌then◌else◌, bytes_eq, arith, le→leb, Bool-cases,
}
use yedis.Prelude.Memory.{take-drop}
use yedis.Outcome.{Outcome, done, fault, out_of_fuel, ◌>>=◌}
use yedis.Log.{Log, Call, fatal, number, is_empty, passes, line_of, push_line, stamp}

abbrev pub Fwrite : Type 0
Fwrite = ℕ → ℕ → ℕ

-- The bytes that are there are given up.
abbrev pub erase : Bytes → List (Bytes × Bytes) → List (Bytes × Bytes)
erase name [] = []
erase name (f ∷ fs) = if bytes_eq name f.0 then fs else f ∷ erase name fs

abbrev pub append_to : Bytes → Bytes → List (Bytes × Bytes) → List (Bytes × Bytes)
append_to name d [] = []
append_to name d (f ∷ fs) =
    if bytes_eq name f.0 then (f.0, f.1 ++ d) ∷ fs else f ∷ append_to name d fs

-- `opened` is whether `fopen` succeeds.
unfoldable pub create_new_file : Bool → Bytes → Log → Bool × Log
create_new_file opened name l =
    if opened
    then (true, record l { log_file = some name; disk = (name, []) ∷ erase name l.disk })
    else (false, record l { log_file = none })

-- The name of a new file.
abbrev pub new_file_name : Bytes → Log → Bytes
new_file_name now l =
    l.file_name ++ codes "." ++ now ++ codes "." ++ l.file_name_pid ++ codes ".log"

-- `strLocal` behind a call of `fwrite` that returned `ret`.
abbrev pub erased : ℕ → Bytes → Bytes
erased ret s = if leb ret (length s) then drop ret s else s

-- The loop: what it returns, and what it has written. `call` is the number of the next `fwrite`.
unfoldable pub write_loop : Fwrite → ℕ → ℕ → Bytes → Bytes → Outcome (Bool × Bytes)
write_loop fwrite zero call str_local out = out_of_fuel
write_loop fwrite (suc fuel) call str_local out =
    let ret = fwrite call (length str_local) in
    elim (ret == 0) [
      | true ↦ done (false, out)
      | false ↦ elim (is_empty (erased ret str_local)) [
        | true ↦ done (true, out ++ take ret str_local)
        | false ↦
            write_loop fwrite fuel (call + 1) (erased ret str_local) (out ++ take ret str_local)
      ]
    ]

abbrev pub put_written : Option Bytes → Bool × Bytes → Log → Outcome (Bool × Log)
put_written none r l = fault
put_written (some name) r l = done (r.0, record l { disk = append_to name r.1 l.disk })

unfoldable pub write_to_file : Fwrite → Bytes → Log → Outcome (Bool × Log)
unfolding write_loop
write_to_file fwrite d l = do
  r ← write_loop fwrite (suc (length d)) 0 d []
  put_written l.log_file r l

-- What happens outside: whether `fopen` succeeds, and what `fwrite` does.
pub record System : Type 0 where
  pub opened : Bool
  pub fwrite : Fwrite

-- What `output` comes to: what it returns, or the crash.
pub data Ending : Type 0 where
  returned : Bool → Ending
  crashed : Ending

abbrev pub write_fatal : System → Bytes → Log → Outcome (Ending × Log)
write_fatal s line l = do r ← write_to_file s.fwrite line l; done (crashed, r.1)

-- A fatal line: a file is made if none is open.
abbrev pub fatal_file : System → Bytes → Bytes → Option Bytes → Log → Outcome (Ending × Log)
fatal_file s now line (some name) l = write_fatal s line l
fatal_file s now line none l =
    let (there, l') = create_new_file s.opened (new_file_name now l) l in
    if there then write_fatal s line l' else done (returned false, l')

abbrev pub output_fatal : System → Bytes → Bytes → Log → Outcome (Ending × Log)
output_fatal s now line l =
    if is_empty l.file_name then done (crashed, l) else fatal_file s now line l.log_file l

-- `file_time` is when the file of a fatal line is made.
unfoldable pub output : System → Bytes → Call → Log → Outcome (Ending × Log)
unfolding create_new_file write_to_file passes line_of
output s file_time c l =
    if passes c.level l
    then (if number c.level == number fatal
        then output_fatal s file_time (line_of c l) l
        else done (returned true, push_line (line_of c l) l))
    else done (returned false, l)
