-- ===== src/Log/Journal.antt =====
-- What the files, the line in hand and the queue hold together, whatever the turns of the threads.
pub mod Turns
pub mod Writes
pub mod Rolls
pub mod Runs
use yedis.Prelude.{
  ℕ, zero, suc, ◌+◌, ◌-◌, ◌≤◌, ◌<◌, ◌≡◌, ◌≢◌, refl, sym, ap, subst, ◌∙◌, Bool, true, false, Option,
  none, some, List, [], ◌∷◌, ◌++◌, map, append-nil, append_assoc, inl, inr, ◌⊎◌, Bytes, All, length,
  length-append, bytes_eq, bytes_eq_iff, leb, if◌then◌else◌, ◌||◌, arith, Bool-cases,
}
use yedis.Log.{Log, LogLevel, Phase, unstarted, top, waiting, writing, exited, failed, is_empty}
use yedis.Log.File.{erase}
use yedis.Log.Dump.Block.{All-append}

-- The bytes of all files, in the order in which the files were made.
abbrev pub text_of : List (Bytes × Bytes) → Bytes
text_of [] = []
text_of (f ∷ fs) = text_of fs ++ f.1

abbrev pub joined : List Bytes → Bytes
joined [] = []
joined (line ∷ lines) = line ++ joined lines

-- What is neither in a file nor in the queue; `cut` is what was left of a line when a write failed.
abbrev pub in_hand : Phase → Bytes → Bytes
in_hand unstarted cut = []
in_hand top cut = []
in_hand waiting cut = []
in_hand exited cut = []
in_hand failed cut = cut
in_hand (writing line) cut = line

abbrev pub IsDistinct : List Bytes → Type 0
IsDistinct [] = Unit
IsDistinct (n ∷ ns) = All (λ m. n ≢ m) ns × IsDistinct ns

-- The newest file is open, and so long.
abbrev pub Open : Option Bytes → ℕ → List (Bytes × Bytes) → Type 0
Open file written disk =
    (name : Bytes) × (content : Bytes) × (older : List (Bytes × Bytes)) × (file ≡ some name)
    × (disk ≡ (name, content) ∷ older)
    × (length content ≡ written)

abbrev pub Good : ℕ → Bytes → Type 0
Good longest line = (0 < length line) × (length line ≤ longest)

-- What holds where the thread is.
abbrev pub Ready : ℕ → Phase → Option Bytes → ℕ → ℕ → List (Bytes × Bytes) → Type 0
Ready longest unstarted file written roll disk = file ≡ none
Ready longest top file written roll disk = (file ≡ none) ⊎ Open file written disk
Ready longest waiting file written roll disk = Open file written disk × (written < roll)
Ready longest (writing line) file written roll disk =
    Open file written disk × (written < roll) × Good longest line
Ready longest exited file written roll disk = Unit
Ready longest failed file written roll disk = Unit

pub record Journal (longest roll_size : ℕ) (names out : List Bytes) (l : Log) : Type 0 where
  pub named : is_empty l.file_name ≡ false
  pub rolling : 0 < l.file_roll_size
  pub same_roll : l.file_roll_size ≡ roll_size
  pub cut : Bytes
  pub told : text_of l.disk ++ (in_hand l.phase cut ++ joined l.lines_to_write) ≡ joined out
  pub keys : map (λ f. f.0) l.disk ≡ names
  pub sized : All (λ f. length f.1 < l.file_roll_size + longest) l.disk
  pub good : All (Good longest) l.lines_to_write
  pub ready : Ready longest l.phase l.log_file l.current_written_size l.file_roll_size l.disk

pub joined-append : (xs ys : List Bytes) → joined (xs ++ ys) ≡ joined xs ++ joined ys
joined-append [] ys = refl
joined-append (x ∷ xs) ys =
    ap (λ t. x ++ t) (joined-append xs ys) ∙ sym (append_assoc x (joined xs) (joined ys))

pub All-split {ℓ κ} :
    {A : Type ℓ} (P : A → Type κ) (xs ys : List A) → All P (xs ++ ys) → All P xs × All P ys
All-split P [] ys h = (tt, h)
All-split P (x ∷ xs) ys h = let ih = All-split P xs ys h.1 in ((h.0, ih.0), ih.1)

ne-bytes_eq : (s t : Bytes) → s ≢ t → bytes_eq s t ≡ false
ne-bytes_eq s t h = elim (Bool-cases (bytes_eq s t)) [
  | inl e ↦ absurd (h ((bytes_eq_iff s t).0 e))
  | inr e ↦ e
]

pub erase-fresh :
    (name : Bytes) (disk : List (Bytes × Bytes))
    → All (λ m. name ≢ m) (map (λ f. f.0) disk)
    → erase name disk ≡ disk
erase-fresh name [] h = refl
erase-fresh name (f ∷ fs) h =
    rw (ne-bytes_eq name f.0 h.0) (ap (λ t. f ∷ t) (erase-fresh name fs h.1))

module _ {longest roll_size : ℕ} {names out : List Bytes} where
  -- Lines that are put into the queue.
  pub push-Journal :
      {l : Log} (lines : List Bytes)
      → All (Good longest) lines
      → Journal longest roll_size names out l
      → Journal longest roll_size names
          (out ++ lines)
          (record l { lines_to_write = l.lines_to_write ++ lines })
  push-Journal {l} lines g v =
      let hand = in_hand l.phase v.cut in
      record {
        named = v.named;
        rolling = v.rolling;
        same_roll = v.same_roll;
        cut = v.cut;
        told =
            ap (λ t. text_of l.disk ++ (hand ++ t)) (joined-append l.lines_to_write lines)
            ∙ ap (λ t. text_of l.disk ++ t)
                (sym (append_assoc hand (joined l.lines_to_write) (joined lines)))
            ∙ sym (append_assoc (text_of l.disk) (hand ++ joined l.lines_to_write) (joined lines))
            ∙ ap (λ t. t ++ joined lines) v.told
            ∙ sym (joined-append out lines);
        keys = v.keys;
        sized = v.sized;
        good = All-append (Good longest) l.lines_to_write lines v.good g;
        ready = v.ready;
      }
