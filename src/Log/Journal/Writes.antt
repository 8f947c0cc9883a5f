-- ===== src/Log/Journal/Writes.antt =====
-- A line that the thread writes goes from its hand to the file.
use yedis.Prelude.{
  ℕ, ◌+◌, ◌<◌, ◌≡◌, refl, sym, ap, subst, ◌∙◌, Bool, List, [], ◌∷◌, ◌++◌, map, append-nil,
  append_assoc, inl, inr, Bytes, All, length, take, drop, length-append, length-take, if◌then◌else◌,
  arith,
}
use yedis.Prelude.Memory.{take-drop}
use yedis.Outcome.{Outcome, done, ◌>>=◌, done-injective}
use yedis.Log.{Log, top, writing}
use yedis.Log.File.{Fwrite, write_to_file}
use yedis.Log.File.Whole.{IsFwrite, Wrote, write_to_file_lem}
use yedis.Log.Writer.{write_line, line_written}
use yedis.Log.Journal.{text_of, joined, in_hand, Open, Good, Ready, Journal}

regroup : (a b c d e q : Bytes) → c ≡ d ++ e → (a ++ (b ++ d)) ++ (e ++ q) ≡ (a ++ b) ++ (c ++ q)
regroup a b c d e q h =
    append_assoc a (b ++ d) (e ++ q)
    ∙ ap (λ t. a ++ t) (append_assoc b d (e ++ q))
    ∙ ap (λ t. a ++ (b ++ t)) (sym (append_assoc d e q))
    ∙ ap (λ t. a ++ (b ++ (t ++ q))) (sym h)
    ∙ sym (append_assoc a b (c ++ q))

module _ {longest roll_size : ℕ} {names out : List Bytes} where
  -- The line was written, or a part of it.
  line_written-Journal :
      (fwrite : Fwrite) (line : Bytes) (l : Log) (r : Bool × Bytes)
      → Wrote fwrite line r
      → (o : Open l.log_file l.current_written_size l.disk)
      → l.current_written_size < l.file_roll_size
      → Good longest line
      → text_of l.disk ++ (line ++ joined l.lines_to_write) ≡ joined out
      → Journal longest roll_size names out l
      → Journal longest roll_size names out
          (line_written line (r.0, record l { disk = (o.0, o.1 ++ r.1) ∷ o.2 }))
  line_written-Journal fwrite line l r w o room good told v =
      let name = o.0 in
      let content = o.1 in
      let older = o.2 in
      let is_open = o.3 in
      let disk : l.disk ≡ (name, content) ∷ older = o.4 in
      let size : length content ≡ l.current_written_size = o.5 in
      let keys : name ∷ map (λ f. f.0) older ≡ names = sym (ap (map (λ f. f.0)) disk) ∙ v.keys in
      let old_sized : All (λ f. length f.1 < l.file_roll_size + longest) ((name, content) ∷ older) =
        subst (All (λ f. length f.1 < l.file_roll_size + longest)) disk v.sized in
      let told' : (text_of older ++ content) ++ (line ++ joined l.lines_to_write) ≡ joined out =
        sym (ap (λ d. text_of d ++ (line ++ joined l.lines_to_write)) disk) ∙ told in
      elim w [
        | inl e ↦
            subst
              (λ q.
                Journal longest roll_size names out
                  (line_written line (q.0, record l { disk = (name, content ++ q.1) ∷ older })))
              (sym e)
              (record {
                named = v.named;
                rolling = v.rolling;
                same_roll = v.same_roll;
                cut = [];
                told =
                    regroup (text_of older) content line line [] (joined l.lines_to_write)
                      (sym (append-nil line))
                    ∙ told';
                keys = keys;
                sized =
                    (omega (arith, size, room, good.1, length-append content line), old_sized.1);
                good = v.good;
                ready = inr (
                  name,
                  content ++ line,
                  older,
                  is_open,
                  refl,
                  length-append content line ∙ ap (λ k. k + length line) size,
                );
              })
        | inr e ↦
            subst
              (λ q.
                Journal longest roll_size names out
                  (line_written line (q.0, record l { disk = (name, content ++ q.1) ∷ older })))
              (sym e.4)
              (record {
                named = v.named;
                rolling = v.rolling;
                same_roll = v.same_roll;
                cut = drop e.0 line;
                told =
                    regroup (text_of older) content line (take e.0 line) (drop e.0 line)
                      (joined l.lines_to_write) (sym (take-drop e.0 line))
                    ∙ told';
                keys = keys;
                sized = (
                  omega (
                    arith,
                    size,
                    room,
                    good.1,
                    length-append content (take e.0 line),
                    length-take e.0 line,
                  ),
                  old_sized.1,
                );
                good = v.good;
                ready = tt;
              })
      ]

  pub write_line-Journal :
      (fwrite : Fwrite) (line : Bytes) {l m : Log}
      → IsFwrite fwrite
      → l.phase ≡ writing line
      → write_line fwrite line l ≡ done m
      → Journal longest roll_size names out l
      → Journal longest roll_size names out m
  unfolding write_line
  write_line-Journal fwrite line {l} {m} bounded e run v =
      let at : Ready longest (writing line) l.log_file l.current_written_size l.file_roll_size
          l.disk =
        subst (λ ph. Ready longest ph l.log_file l.current_written_size l.file_roll_size l.disk) e
          v.ready in
      let o : Open l.log_file l.current_written_size l.disk = at.0 in
      let there = write_to_file_lem fwrite bounded line o.0 o.1 o.2 l at.2.0 o.3 o.4 in
      let r = there.0 in
      let l' = line_written line (r.0, record l { disk = (o.0, o.1 ++ r.1) ∷ o.2 }) in
      let same : m ≡ l' = done-injective (
        sym run
        ∙ ap
            (λ b.
              if b
              then done (record l { phase = top })
              else (write_to_file fwrite line l >>= λ q. done (line_written line q)))
            v.named
        ∙ ap (λ (q : Outcome (Bool × Log)). q >>= λ q'. done (line_written line q')) there.1) in
      let told =
        sym (ap (λ ph. text_of l.disk ++ (in_hand ph v.cut ++ joined l.lines_to_write)) e)
        ∙ v.told in
      subst (Journal longest roll_size names out) (sym same)
        (line_written-Journal fwrite line l r there.2 o at.1 at.2 told v)
