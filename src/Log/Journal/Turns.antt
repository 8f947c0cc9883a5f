-- ===== src/Log/Journal/Turns.antt =====
-- What each turn of the threads leaves as it is.
use yedis.Prelude.{
  ℕ, ◌≡◌, refl, sym, ap, subst, ◌∙◌, true, Option, none, List, [], ◌∷◌, ◌++◌, inl, Bytes, All, ltb,
  ◌||◌,
}
use yedis.Prelude.Maps.{if-cases}
use yedis.Log.{
  Log, LogLevel, Phase, trace, unstarted, top, waiting, writing, exited, failed, fatal, number,
  set_level,
}
use yedis.Log.Writer.{begin_thread, take_from, take_line, ask_exit, close_file, has_ended}
use yedis.Log.Journal.{text_of, joined, in_hand, Good, Ready, Journal}

Ready-ended :
    (longest : ℕ) (ph : Phase) (file : Option Bytes) (written rolls : ℕ)
    (disk : List (Bytes × Bytes))
    → has_ended ph ≡ true
    → Ready longest ph file written rolls disk
Ready-ended k unstarted file w r d h = absurd (cc h)
Ready-ended k top file w r d h = absurd (cc h)
Ready-ended k waiting file w r d h = absurd (cc h)
Ready-ended k exited file w r d h = tt
Ready-ended k failed file w r d h = tt
Ready-ended k (writing line) file w r d h = absurd (cc h)

module _ {longest roll_size : ℕ} {names out : List Bytes} where
  pub begin_thread-Journal :
      {l : Log}
      → l.phase ≡ unstarted
      → Journal longest roll_size names out l
      → Journal longest roll_size names out (begin_thread l)
  unfolding begin_thread
  begin_thread-Journal {l} e v = record {
    named = v.named;
    rolling = v.rolling;
    same_roll = v.same_roll;
    cut = [];
    told =
        sym (ap (λ ph. text_of l.disk ++ (in_hand ph v.cut ++ joined l.lines_to_write)) e) ∙ v.told;
    keys = v.keys;
    sized = v.sized;
    good = v.good;
    ready = inl (
        subst (λ ph. Ready longest ph l.log_file l.current_written_size l.file_roll_size l.disk) e
          v.ready);
  }

  pub set_level-Journal :
      {l : Log} (level : LogLevel)
      → Journal longest roll_size names out l
      → Journal longest roll_size names out (set_level level l)
  unfolding set_level
  set_level-Journal {l} level v =
      if-cases (Journal longest roll_size names out)
        (ltb (number level) (number trace) || ltb (number fatal) (number level))
        {w = record l { current_level = level }} (λ h. v)
        (λ h. record {
          named = v.named;
          rolling = v.rolling;
          same_roll = v.same_roll;
          cut = v.cut;
          told = v.told;
          keys = v.keys;
          sized = v.sized;
          good = v.good;
          ready = v.ready;
        })

  pub ask_exit-Journal :
      {l : Log}
      → Journal longest roll_size names out l
      → Journal longest roll_size names out (ask_exit l)
  unfolding ask_exit
  ask_exit-Journal {l} v = record {
    named = v.named;
    rolling = v.rolling;
    same_roll = v.same_roll;
    cut = v.cut;
    told = v.told;
    keys = v.keys;
    sized = v.sized;
    good = v.good;
    ready = v.ready;
  }

  pub close_file-Journal :
      {l : Log}
      → has_ended l.phase ≡ true
      → Journal longest roll_size names out l
      → Journal longest roll_size names out (close_file l)
  unfolding close_file
  close_file-Journal {l} e v = record {
    named = v.named;
    rolling = v.rolling;
    same_roll = v.same_roll;
    cut = v.cut;
    told = v.told;
    keys = v.keys;
    sized = v.sized;
    good = v.good;
    ready = Ready-ended longest l.phase none l.current_written_size l.file_roll_size l.disk e;
  }

  -- The thread takes the front of the queue.
  taken-Journal :
      (lines : List Bytes) {l : Log}
      → l.phase ≡ waiting
      → l.lines_to_write ≡ lines
      → Journal longest roll_size names out l
      → Journal longest roll_size names out (take_from lines l)
  taken-Journal [] {l} e q v =
      let told : text_of l.disk ++ joined l.lines_to_write ≡ joined out =
        sym (ap (λ ph. text_of l.disk ++ (in_hand ph v.cut ++ joined l.lines_to_write)) e)
        ∙ v.told in
      if-cases (Journal longest roll_size names out) l.exit
        (λ h. record {
          named = v.named;
          rolling = v.rolling;
          same_roll = v.same_roll;
          cut = [];
          told = told;
          keys = v.keys;
          sized = v.sized;
          good = v.good;
          ready = tt;
        })
        (λ h. v)
  taken-Journal (line ∷ rest) {l} e q v =
      let at : Ready longest waiting l.log_file l.current_written_size l.file_roll_size l.disk =
        subst (λ ph. Ready longest ph l.log_file l.current_written_size l.file_roll_size l.disk) e
          v.ready in
      let good : All (Good longest) (line ∷ rest) = subst (All (Good longest)) q v.good in
      record {
        named = v.named;
        rolling = v.rolling;
        same_roll = v.same_roll;
        cut = [];
        told =
            sym (ap (λ t. text_of l.disk ++ joined t) q)
            ∙ sym (ap (λ ph. text_of l.disk ++ (in_hand ph v.cut ++ joined l.lines_to_write)) e)
            ∙ v.told;
        keys = v.keys;
        sized = v.sized;
        good = good.1;
        ready = (at.0, at.1, good.0);
      }

  pub take_line-Journal :
      {l : Log}
      → l.phase ≡ waiting
      → Journal longest roll_size names out l
      → Journal longest roll_size names out (take_line l)
  unfolding take_line
  take_line-Journal {l} e v = taken-Journal l.lines_to_write e refl v
