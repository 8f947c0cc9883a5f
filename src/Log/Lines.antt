-- ===== src/Log/Lines.antt =====
-- What calls of `output` and of `outputBinary` put into the queue.
use yedis.Prelude.{
  ◌<◌, ◌≡◌, sym, ap, subst, ◌∙◌, Bool, true, false, [], ◌∷◌, ◌++◌, append-nil, inl, inr, Bytes,
  codes, length, length-append, if◌then◌else◌, ◌==◌, arith, Bool-cases,
}
use yedis.Prelude.Int.{ℤ}
use yedis.Outcome.{Outcome, done, ◌>>=◌, done-injective}
use yedis.Decimal.{print_nat, print_int}
use yedis.Log.{
  Log, LogLevel, trace, debug, info, warning, error, syserror, fatal, critical, Call, number,
  level_prefix, make_line_prefix, passes, line_of, push_line,
}
use yedis.Log.Dump.{binary_line}
use yedis.Log.Dump.Rows.{dump}
use yedis.Log.Dump.Binary.{binary_line-dump}
use yedis.Log.File.{System, Ending, returned, output, output_fatal}
use yedis.Log.Writer.{lines_of, output_binary}

append-pos : (s t : Bytes) → 0 < length s → 0 < length (s ++ t)
append-pos s t h = omega (arith, h, length-append s t)

level_prefix-pos : (level : LogLevel) → 0 < length (level_prefix level)
level_prefix-pos trace = omega arith
level_prefix-pos debug = omega arith
level_prefix-pos info = omega arith
level_prefix-pos warning = omega arith
level_prefix-pos error = omega arith
level_prefix-pos syserror = omega arith
level_prefix-pos fatal = omega arith
level_prefix-pos critical = omega arith

pub line_of-pos : (c : Call) (l : Log) → 0 < length (line_of c l)
unfolding line_of make_line_prefix
line_of-pos c l = append-pos _ _ (
    append-pos _ _ (
      append-pos _ _ (
        append-pos _ _
          (append-pos _ _ (append-pos _ _ (append-pos _ _ (level_prefix-pos c.level)))))))

pub binary_line-pos :
    (address : ℤ) (buffer line : Bytes) → binary_line address buffer ≡ done line → 0 < length line
binary_line-pos address buffer line run =
    let start : Bytes =
      codes "address["
      ++ print_int address
      ++ codes "] size["
      ++ print_nat (length buffer)
      ++ codes "] \n" in
    subst (λ s. 0 < length s) (done-injective (sym (binary_line-dump address buffer) ∙ run))
      (append-pos start (dump 0 buffer) (omega arith))

-- A call that is not fatal only puts lines into the queue.
pub output-plain :
    (s : System) (now : Bytes) (c : Call) (e : Ending) (l m : Log)
    → (number c.level == number fatal) ≡ false
    → output s now c l ≡ done (e, m)
    → m ≡ record l { lines_to_write = l.lines_to_write ++ lines_of c l }
unfolding output lines_of
output-plain s now c e l m plain run =
    let pushed = push_line (line_of c l) l in
    let fatal_way = output_fatal s now (line_of c l) l in
    let queued : Bool → Outcome (Ending × Log) =
      λ f. if f then fatal_way else done (returned true, pushed) in
    let ending : Bool → Outcome (Ending × Log) =
      λ p. if p then queued (number c.level == number fatal) else done (returned false, l) in
    let lines : Bool → Log =
      λ p. record l { lines_to_write = l.lines_to_write ++ (if p then line_of c l ∷ [] else []) } in
    elim (Bool-cases (passes c.level l)) [
      | inl p ↦
          ap (λ q. q.1) (done-injective (sym run ∙ ap ending p ∙ ap queued plain))
          ∙ sym (ap lines p)
      | inr p ↦
          ap (λ q. q.1) (done-injective (sym run ∙ ap ending p))
          ∙ ap (λ q. record l { lines_to_write = q }) (sym (append-nil l.lines_to_write))
          ∙ sym (ap lines p)
    ]

-- The same of the bytes that are put out.
pub output_binary-plain :
    (address : ℤ) (buffer line : Bytes) (r : Bool) (l m : Log)
    → binary_line address buffer ≡ done line
    → output_binary address buffer l ≡ done (r, m)
    → m ≡ push_line line l
unfolding output_binary
output_binary-plain address buffer line r l m text run =
    let put : Bytes → Outcome (Bool × Log) = λ s. done (true, push_line s l) in
    ap (λ q. q.1) (done-injective (sym run ∙ ap (λ (o : Outcome Bytes). o >>= put) text))
