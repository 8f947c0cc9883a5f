-- ===== src/Log/Endings.antt =====
-- base/AsyncLog.cpp: how calls and the thread end: a fatal line, and the flag `m_bRunning`.
use yedis.Prelude.{
  ℕ, suc, ◌≡◌, refl, sym, ap, subst, ◌∙◌, Bool, true, false, Option, none, some, List, [], ◌∷◌,
  ◌++◌, inl, inr, Bytes, length, if◌then◌else◌, ◌||◌, ltb, ◌==◌, Bool-cases,
}
use yedis.Prelude.Maps.{if-cases}
use yedis.Outcome.{Outcome, done, fault, out_of_fuel, ◌>>=◌, done-injective}
use yedis.Log.{
  Log, Phase, trace, fatal, unstarted, top, waiting, writing, exited, failed, Call, number,
  is_empty, passes, line_of, push_line, init, default_log, set_level, is_running,
}
use yedis.Log.File.{
  System, Ending, returned, crashed, Fwrite, create_new_file, new_file_name, put_written,
  write_loop, write_to_file, output, fatal_file,
}
use yedis.Log.File.Whole.{IsFwrite, Wrote, write_to_file_lem}
use yedis.Log.Lines.{line_of-pos, output-plain, output_binary-plain}
use yedis.Log.Writer.{
  begin_thread, rolls_over, roll, opened_file, take_from, take_line, write_line, line_written,
  ask_exit, close_file, has_ended, output_binary, Steps,
}

-- The flag of a thread that has begun.
abbrev begun : Phase → Bool
begun unstarted = false
begun top = true
begun waiting = true
begun exited = true
begun failed = true
begun (writing line) = true

abbrev Flagged : Log → Type 0
Flagged l = begun l.phase ≡ true → l.running ≡ true

roll-Flagged :
    (opened : Bool) (now : Bytes) (l : Log) → l.running ≡ true → Flagged (roll opened now l)
unfolding roll create_new_file
roll-Flagged opened now l h = λ b.
    let after : Bool → Bool → Bool → Log = λ o e r.
      if e
      then record l { phase = waiting }
      else if r
      then opened_file
          (create_new_file o (new_file_name now l) (record l { current_written_size = 0 }))
      else record l { phase = waiting } in
    elim opened as (λ o. (after o (is_empty l.file_name) (rolls_over l)).running ≡ true) [
      | true ↦ elim (is_empty l.file_name) as (λ e. (after true e (rolls_over l)).running ≡ true) [
        | true ↦ h
        | false ↦ elim (rolls_over l) as (λ r. (after true false r).running ≡ true) [
          | true ↦ h
          | false ↦ h
        ]
      ]
      | false ↦
          elim (is_empty l.file_name) as (λ e. (after false e (rolls_over l)).running ≡ true) [
            | true ↦ h
            | false ↦ elim (rolls_over l) as (λ r. (after false false r).running ≡ true) [
              | true ↦ h
              | false ↦ h
            ]
          ]
    ]

taken-running : (lines : List Bytes) (l : Log) → (take_from lines l).running ≡ l.running
taken-running [] l = if-cases (λ (m : Log). m.running ≡ l.running) l.exit (λ h. refl) (λ h. refl)
taken-running (line ∷ rest) l = refl

written-running :
    (line : Bytes) (o : Outcome (Bool × Bytes)) (file : Option Bytes) (l m : Log)
    → (o >>= λ r. put_written file r l >>= λ q. done (line_written line q)) ≡ done m
    → m.running ≡ l.running
written-running line fault file l m e = absurd (cc e)
written-running line out_of_fuel file l m e = absurd (cc e)
written-running line (done r) none l m e = absurd (cc e)
written-running line (done (true, d)) (some name) l m e =
    ap (λ (m : Log). m.running) (sym (done-injective e))
written-running line (done (false, d)) (some name) l m e =
    ap (λ (m : Log). m.running) (sym (done-injective e))

bind_assoc {ℓ κ μ} :
    {A : Type ℓ} {B : Type κ} {C : Type μ} (o : Outcome A) (f : A → Outcome B) (g : B → Outcome C)
    → (o >>= f >>= g) ≡ (o >>= λ a. f a >>= g)
bind_assoc (done a) f g = refl
bind_assoc fault f g = refl
bind_assoc out_of_fuel f g = refl

write_line-running :
    (fwrite : Fwrite) (line : Bytes) (l m : Log)
    → write_line fwrite line l ≡ done m
    → m.running ≡ l.running
unfolding write_line write_to_file
write_line-running fwrite line l m run =
    let way : Bool → Outcome Log = λ b.
      if b
      then done (record l { phase = top })
      else (write_to_file fwrite line l >>= λ r. done (line_written line r)) in
    elim (Bool-cases (is_empty l.file_name)) [
      | inl e ↦ ap (λ (k : Log). k.running) (done-injective (sym run ∙ ap way e))
      | inr e ↦
          written-running line (write_loop fwrite (suc (length line)) 0 line []) l.log_file l m (
            sym (
              bind_assoc (write_loop fwrite (suc (length line)) 0 line [])
                (λ r. put_written l.log_file r l) (λ r. done (line_written line r)))
            ∙ sym (ap way e)
            ∙ run)
    ]

module _ (fwrite : ℕ → Fwrite) where
  Steps-Flagged :
      (names out : List Bytes) (k l : Log) → Steps fwrite names out k l → Flagged k → Flagged l
  unfolding begin_thread set_level take_line ask_exit close_file output_binary
  Steps-Flagged _ _ k l (Steps.stays _) h = h
  Steps-Flagged _ _ k l (Steps.outputs names out s now c e _ j _ steps plain run) h =
      subst Flagged (sym (output-plain s now c e j l plain run))
        (Steps-Flagged names out k j steps h)
  Steps-Flagged _ _ k l (Steps.dumps names out address buffer line r _ j _ steps text run) h =
      subst Flagged (sym (output_binary-plain address buffer line r j l text run))
        (Steps-Flagged names out k j steps h)
  Steps-Flagged _ _ k _ (Steps.levels names out level _ j steps) h =
      let v = Steps-Flagged names out k j steps h in
      if-cases Flagged (ltb (number level) (number trace) || ltb (number fatal) (number level))
        {w = record j { current_level = level }} (λ e. v) (λ e. v)
  Steps-Flagged _ _ k _ (Steps.begins names out _ j steps e) h = λ b. refl
  Steps-Flagged _ _ k _ (Steps.rolls names out opened now _ j steps e) h =
      roll-Flagged opened now j (Steps-Flagged names out k j steps h (ap begun e))
  Steps-Flagged _ _ k _ (Steps.takes names out _ j steps e) h =
      λ b. taken-running j.lines_to_write j ∙ Steps-Flagged names out k j steps h (ap begun e)
  Steps-Flagged _ _ k l (Steps.writes names out turn line _ j _ steps e run) h = λ b.
      write_line-running (fwrite turn) line j l run
      ∙ Steps-Flagged names out k j steps h (ap begun e)
  Steps-Flagged _ _ k _ (Steps.asks names out _ j steps) h = Steps-Flagged names out k j steps h
  Steps-Flagged _ _ k _ (Steps.closes names out _ j steps e) h = Steps-Flagged names out k j steps h

  ended-begun : (ph : Phase) → has_ended ph ≡ true → begun ph ≡ true
  ended-begun unstarted h = absurd (cc h)
  ended-begun top h = refl
  ended-begun waiting h = refl
  ended-begun exited h = refl
  ended-begun failed h = refl
  ended-begun (writing line) h = refl

  -- `isRunning` says true for ever once the thread has ended, whether by the exit flag or because a file
  -- could not be made or written, whatever the turns of the threads from `init` on.
  pub Steps-is_running :
      (name : Option Bytes) (truncate : Bool) (roll_size pid : ℕ) (names out : List Bytes) (l : Log)
      → Steps fwrite names out (init name truncate roll_size pid default_log) l
      → has_ended l.phase ≡ true
      → is_running l ≡ true
  unfolding init is_running
  Steps-is_running name truncate roll_size pid names out l steps h =
      Steps-Flagged names out (init name truncate roll_size pid default_log) l steps
        (λ b. absurd (cc b)) (ended-begun l.phase h)

module _ (s : System) (now : Bytes) (c : Call) (l : Log) where
  -- A fatal line goes to the file at once.
  output-fatal_file :
      c.level ≡ fatal
      → passes fatal l ≡ true
      → is_empty l.file_name ≡ false
      → output s now c l ≡ fatal_file s now (line_of c l) l.log_file l
  unfolding output
  output-fatal_file e p named =
      let line = line_of c l in
      let out : Bool → Bool → Bool → Outcome (Ending × Log) = λ pass is_fatal blank.
        if pass
        then (if is_fatal
            then (if blank then done (crashed, l) else fatal_file s now line l.log_file l)
            else done (returned true, push_line line l))
        else done (returned false, l) in
      ap (λ b. out b (number c.level == number fatal) (is_empty l.file_name))
        (ap (λ lv. passes lv l) e ∙ p)
      ∙ ap (λ b. out true b (is_empty l.file_name)) (ap (λ lv. number lv == number fatal) e)
      ∙ ap (out true true) named

  -- A fatal line that passes the filter, in a log whose newest file is open, for an `fwrite` that writes
  -- no more than it is given: the line, or its first bytes when a call of `fwrite` writes nothing, comes
  -- to the end of that file behind what it held, and the program crashes. The older files stay as they
  -- are, and so does the queue: nothing takes a line that waits in it to a file before the crash.
  pub output-fatal_open :
      (name content : Bytes) (older : List (Bytes × Bytes))
      → c.level ≡ fatal
      → passes fatal l ≡ true
      → is_empty l.file_name ≡ false
      → l.log_file ≡ some name
      → l.disk ≡ (name, content) ∷ older
      → IsFwrite s.fwrite
      → (r : Bool × Bytes) × (output s now c l
          ≡ done (crashed, record l { disk = (name, content ++ r.1) ∷ older }))
        × Wrote s.fwrite (line_of c l) r
  output-fatal_open name content older e p named opened disk bounded =
      let line = line_of c l in
      let run =
        write_to_file_lem s.fwrite bounded line name content older l (line_of-pos c l) opened
          disk in
      (
        run.0,
        output-fatal_file e p named
            ∙ ap (λ f. fatal_file s now line f l) opened
            ∙ ap (λ (o : Outcome (Bool × Log)). o >>= λ r. done (crashed, r.1)) run.1,
        run.2,
      )
