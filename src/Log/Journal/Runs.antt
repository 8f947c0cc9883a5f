-- ===== src/Log/Journal/Runs.antt =====
-- The files and the queue of a log, from its start on.
use yedis.Prelude.{
  ℕ, ◌+◌, ◌≤◌, ◌<◌, ◌≡◌, refl, sym, ap, subst, Bool, false, some, List, [], ◌∷◌, ◌++◌, inl, inr,
  Bytes, All, length, if◌then◌else◌, Bool-cases,
}
use yedis.Log.{Log, Call, is_empty, passes, line_of, init, default_log}
use yedis.Log.File.{Fwrite}
use yedis.Log.File.Whole.{IsFwrite}
use yedis.Log.Lines.{line_of-pos, binary_line-pos, output-plain, output_binary-plain}
use yedis.Log.Writer.{lines_of, file_of, Steps}
use yedis.Log.Journal.{Good, text_of, joined, in_hand, IsDistinct, Journal, All-split, push-Journal}
use yedis.Log.Journal.Writes.{write_line-Journal}
use yedis.Log.Journal.Rolls.{roll-Journal}
use yedis.Log.Journal.Turns.{
  begin_thread-Journal, set_level-Journal, ask_exit-Journal, close_file-Journal, take_line-Journal,
}

module _ (longest : ℕ) where
  lines_of-Good :
      (c : Call) (l : Log)
      → All (λ line. length line ≤ longest) (lines_of c l)
      → All (Good longest) (lines_of c l)
  unfolding lines_of
  lines_of-Good c l short =
      let lines : Bool → List Bytes = λ p. if p then line_of c l ∷ [] else [] in
      elim (Bool-cases (passes c.level l)) [
        | inl p ↦
            let short' = subst (All (λ line. length line ≤ longest)) (ap lines p) short in
            subst (All (Good longest)) (sym (ap lines p)) ((line_of-pos c l, short'.0), tt)
        | inr p ↦ subst (All (Good longest)) (sym (ap lines p)) tt
      ]

IsDistinct-split : (xs ys : List Bytes) → IsDistinct (xs ++ ys) → IsDistinct ys
IsDistinct-split [] ys h = h
IsDistinct-split (x ∷ xs) ys h = IsDistinct-split xs ys h.1

module _ (fwrite : ℕ → Fwrite) (bounded : (turn : ℕ) → IsFwrite (fwrite turn)) (longest : ℕ) where
  Steps-Journal :
      {roll_size : ℕ} (names out : List Bytes) (k l : Log)
      → Steps fwrite names out k l
      → IsDistinct names
      → All (λ line. length line ≤ longest) out
      → Journal longest roll_size [] [] k
      → Journal longest roll_size names out l
  Steps-Journal _ _ k l (Steps.stays _) d s v = v
  Steps-Journal {roll_size} _ _ k l (Steps.outputs names out sys now c e _ j _ steps plain run) d s
        v =
      let short = All-split (λ (line : Bytes). length line ≤ longest) out (lines_of c j) s in
      subst (Journal longest roll_size names (out ++ lines_of c j))
        (sym (output-plain sys now c e j l plain run))
        (push-Journal (lines_of c j) (lines_of-Good longest c j short.1)
          (Steps-Journal names out k j steps d short.0 v))
  Steps-Journal {roll_size} _ _ k l
        (Steps.dumps names out address buffer line r _ j _ steps text run) d s v =
      let short = All-split (λ (line : Bytes). length line ≤ longest) out (line ∷ []) s in
      subst (Journal longest roll_size names (out ++ line ∷ []))
        (sym (output_binary-plain address buffer line r j l text run))
        (push-Journal (line ∷ []) ((binary_line-pos address buffer line text, short.1.0), tt)
          (Steps-Journal names out k j steps d short.0 v))
  Steps-Journal _ _ k _ (Steps.levels names out level _ j steps) d s v =
      set_level-Journal level (Steps-Journal names out k j steps d s v)
  Steps-Journal _ _ k _ (Steps.begins names out _ j steps e) d s v =
      begin_thread-Journal e (Steps-Journal names out k j steps d s v)
  Steps-Journal _ _ k _ (Steps.rolls names out opened now _ j steps e) d s v =
      roll-Journal opened now e d
        (Steps-Journal names out k j steps (IsDistinct-split (file_of opened now j) names d) s v)
  Steps-Journal _ _ k _ (Steps.takes names out _ j steps e) d s v =
      take_line-Journal e (Steps-Journal names out k j steps d s v)
  Steps-Journal _ _ k l (Steps.writes names out turn line _ j _ steps e run) d s v =
      write_line-Journal (fwrite turn) line (bounded turn) e run
        (Steps-Journal names out k j steps d s v)
  Steps-Journal _ _ k _ (Steps.asks names out _ j steps) d s v =
      ask_exit-Journal (Steps-Journal names out k j steps d s v)
  Steps-Journal _ _ k _ (Steps.closes names out _ j steps e) d s v =
      close_file-Journal e (Steps-Journal names out k j steps d s v)

  -- Whatever the turns of the threads from `init` on, none of the lines fatal or longer than `longest`,
  -- with a name for the file, a roll size above 0 and an `fwrite` that writes no more than it is given,
  -- and no two files made under one name (in one second): the bytes of the files in the order in which
  -- they were made, then the rest of the line that the thread has in hand, then the lines in the queue,
  -- are the lines that were put out, in their order; the rest is empty unless the thread writes a line
  -- or has ended because a call failed; and each file has less than the roll size and `longest` bytes.
  pub Steps-init :
      (name : Bytes) (truncate : Bool) (roll_size pid : ℕ) (names out : List Bytes) (l : Log)
      → Steps fwrite names out (init (some name) truncate roll_size pid default_log) l
      → is_empty name ≡ false
      → 0 < roll_size
      → IsDistinct names
      → All (λ line. length line ≤ longest) out
      → (cut : Bytes) × (text_of l.disk ++ (in_hand l.phase cut ++ joined l.lines_to_write)
          ≡ joined out)
        × All (λ f. length f.1 < roll_size + longest) l.disk
  unfolding init
  Steps-init name truncate roll_size pid names out l steps named p d s =
      let start : Log = init (some name) truncate roll_size pid default_log in
      let v = Steps-Journal names out start l steps d s (record {
        named = named;
        rolling = p;
        same_roll = refl;
        cut = [];
        told = refl;
        keys = refl;
        sized = tt;
        good = tt;
        ready = refl;
      }) in
      (v.cut, v.told, subst (λ n. All (λ f. length f.1 < n + longest) l.disk) v.same_roll v.sized)
