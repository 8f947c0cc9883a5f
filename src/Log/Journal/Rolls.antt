-- ===== src/Log/Journal/Rolls.antt =====
-- A new file is made, or the old one goes on.
use yedis.Prelude.{
  ℕ, ◌+◌, ◌<◌, ◌≡◌, ◌≢◌, refl, sym, ap, subst, ◌∙◌, Bool, true, false, Option, none, some, List, [],
  ◌∷◌, ◌++◌, map, append-nil, inl, inr, Bytes, All, length, leb, if◌then◌else◌, ◌||◌, ◌&&◌, not,
  arith, Bool-cases,
}
use yedis.Log.{Log, top, waiting, failed}
use yedis.Log.File.{erase, create_new_file, new_file_name}
use yedis.Log.Writer.{rolls_over, roll, opened_file, is_none, file_of}
use yedis.Log.Journal.{text_of, joined, in_hand, IsDistinct, Ready, Journal, erase-fresh}

module _ {longest roll_size : ℕ} {names out : List Bytes} where
  refused-Journal :
      {l : Log}
      → l.phase ≡ top
      → Journal longest roll_size names out l
      → Journal longest roll_size names out
          (record l { current_written_size = 0; log_file = none; phase = failed })
  refused-Journal {l} e v = record {
    named = v.named;
    rolling = v.rolling;
    same_roll = v.same_roll;
    cut = [];
    told =
        sym (ap (λ ph. text_of l.disk ++ (in_hand ph v.cut ++ joined l.lines_to_write)) e) ∙ v.told;
    keys = v.keys;
    sized = v.sized;
    good = v.good;
    ready = tt;
  }

  made-Journal :
      (name : Bytes) {l : Log}
      → l.phase ≡ top
      → IsDistinct (name ∷ names)
      → Journal longest roll_size names out l
      → Journal longest roll_size (name ∷ names) out (record l {
        current_written_size = 0;
        log_file = some name;
        disk = (name, []) ∷ erase name l.disk;
        phase = waiting;
      })
  made-Journal name {l} e d v =
      let kept : erase name l.disk ≡ l.disk =
        erase-fresh name l.disk (subst (All (λ m. name ≢ m)) (sym v.keys) d.0) in
      record {
        named = v.named;
        rolling = v.rolling;
        same_roll = v.same_roll;
        cut = [];
        told =
            ap (λ t. t ++ joined l.lines_to_write)
              (append-nil (text_of (erase name l.disk)) ∙ ap text_of kept)
            ∙ sym (ap (λ ph. text_of l.disk ++ (in_hand ph v.cut ++ joined l.lines_to_write)) e)
            ∙ v.told;
        keys = ap (λ t. name ∷ map (λ f. f.0) t) kept ∙ ap (λ t. name ∷ t) v.keys;
        sized = (
          omega (arith, v.rolling),
          subst (All (λ f. length f.1 < l.file_roll_size + longest)) (sym kept) v.sized,
        );
        good = v.good;
        ready = ((name, [], erase name l.disk, refl, refl, refl), v.rolling);
      }

  kept-Journal :
      {l : Log}
      → l.phase ≡ top
      → rolls_over l ≡ false
      → Journal longest roll_size names out l
      → Journal longest roll_size names out (record l { phase = waiting })
  kept-Journal {l} e off v =
      let at : Ready longest top l.log_file l.current_written_size l.file_roll_size l.disk =
        subst (λ ph. Ready longest ph l.log_file l.current_written_size l.file_roll_size l.disk) e
          v.ready in
      let due : Option Bytes → Bool =
        λ f. is_none f || leb l.file_roll_size l.current_written_size in
      record {
        named = v.named;
        rolling = v.rolling;
        same_roll = v.same_roll;
        cut = [];
        told =
            sym (ap (λ ph. text_of l.disk ++ (in_hand ph v.cut ++ joined l.lines_to_write)) e)
            ∙ v.told;
        keys = v.keys;
        sized = v.sized;
        good = v.good;
        ready = elim at [
          | inl none_open ↦ absurd (cc (sym (ap due none_open) ∙ off))
          | inr o ↦
              let room : leb l.file_roll_size l.current_written_size ≡ false =
                sym (ap due o.3) ∙ off in
              (o, ground arith)
        ];
      }

  pub roll-Journal :
      (opened : Bool) (now : Bytes) {l : Log}
      → l.phase ≡ top
      → IsDistinct (file_of opened now l ++ names)
      → Journal longest roll_size names out l
      → Journal longest roll_size (file_of opened now l ++ names) out (roll opened now l)
  unfolding roll file_of create_new_file
  roll-Journal opened now {l} e dist v =
      let name = new_file_name now l in
      let made : Bool → Bool → Bool → List Bytes =
        λ o b r. if o && not b && r then name ∷ [] else [] in
      let after : Bool → Bool → Bool → Log = λ o b r.
        if b
        then record l { phase = waiting }
        else if r
        then opened_file (create_new_file o name (record l { current_written_size = 0 }))
        else record l { phase = waiting } in
      let Kept : Bool → Bool → Bool → Type 0 = λ o b r.
        IsDistinct (made o b r ++ names)
        → Journal longest roll_size (made o b r ++ names) out (after o b r) in
      let whether : (o : Bool) → Kept o false (rolls_over l) = λ o.
        elim (Bool-cases (rolls_over l)) [
          | inl d ↦ subst (Kept o false) (sym d) (elim o as (λ x. Kept x false true) [
            | true ↦ λ dd. made-Journal name e dd v
            | false ↦ λ dd. refused-Journal e v
          ])
          | inr d ↦ subst (Kept o false) (sym d) (elim o as (λ x. Kept x false false) [
            | true ↦ λ dd. kept-Journal e d v
            | false ↦ λ dd. kept-Journal e d v
          ])
        ] in
      subst (λ b. Kept opened b (rolls_over l)) (sym v.named) (whether opened) dist
