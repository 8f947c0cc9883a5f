-- ===== src/Log/Dump.antt =====
-- base/AsyncLog.cpp: `ullto4Str` and `formLog`, which write bytes in hexadecimal into a block of
-- characters, and the loop of `outputBinary` over chunks of 512 bytes.
-- `index` is what `%06u` prints of it: a number below 2 ^ 32. A write or a read behind the block is a
-- fault.
pub mod Rows
pub mod Block
pub mod Written
pub mod Split
pub mod Binary
use yedis.Prelude.{
  ℕ, zero, suc, ◌+◌, ◌-◌, ◌*◌, ◌/◌, ◌%◌, ◌^◌, ◌≡◌, refl, Bool, true, false, [], ◌∷◌, ◌++◌, Bytes,
  codes, lf, length, take, drop, replicate, leb, ltb, ◌==◌, if◌then◌else◌, ◌&&◌, not,
}
use yedis.Prelude.Int.{ℤ}
use yedis.Prelude.Memory.{overwrite}
use yedis.Outcome.{Outcome, done, fault, out_of_fuel, ◌>>=◌}
use yedis.Buffer.{assert}
use yedis.Decimal.{print_nat, print_int}

-- A number with at least `width` digits.
abbrev pub padded : ℕ → ℕ → Bytes
padded width n = replicate (width - length (print_nat n)) b'0' ++ print_nat n

unfoldable pub ullto4_str : ℕ → Bytes
ullto4_str n = padded 6 (n % 2 ^ 32)

-- `szchar`
abbrev pub nth : ℕ → Bytes → ℕ
nth n [] = 0
nth zero (c ∷ s) = c
nth (suc n) (c ∷ s) = nth n s

abbrev pub hex_digits : Bytes
hex_digits = codes "0123456789abcdef"

-- The two digits of a byte.
abbrev pub hex_byte : ℕ → Bytes
hex_byte c = nth (c / 16 % 16) hex_digits ∷ nth (c % 16) hex_digits ∷ []

abbrev pub strlen : Bytes → Outcome ℕ
strlen [] = fault
strlen (zero ∷ s) = done 0
strlen (suc c ∷ s) = strlen s >>= λ n. done (suc n)

-- The characters before the first null character.
abbrev pub c_str : Bytes → Bytes
c_str [] = []
c_str (zero ∷ s) = []
c_str (suc c ∷ s) = suc c ∷ c_str s

abbrev pub put_at : ℕ → Bytes → Bytes → Outcome Bytes
put_at at d buf = assert (leb (at + length d) (length buf)) (overwrite at d buf)

-- The locals of `formLog`, and the block that it writes.
pub record Form : Type 0 where
  pub index : ℕ
  pub len : ℕ
  pub lsize : ℕ
  pub headlen : ℕ
  pub szbuf : Bytes

-- `szbuf[len++] = c`
abbrev pub put_char : ℕ → Form → Outcome Form
put_char c f = do
  buf ← put_at f.len (c ∷ []) f.szbuf
  done (record f { len = f.len + 1; szbuf = buf })

-- `szhead`, and `strcat(szbuf, szhead)`, which writes behind the characters that are there.
abbrev pub head_of : ℕ → Bytes
head_of index = take 64 (ullto4_str index) ++ b' ' ∷ []

abbrev pub put_header : Form → Outcome Form
put_header f = do
  at ← strlen f.szbuf
  buf ← put_at at (head_of f.index ++ 0 ∷ []) f.szbuf
  done (record f {
    index = f.index + 1;
    headlen = length (head_of f.index);
    len = f.len + length (head_of f.index);
    szbuf = buf;
  })

abbrev pub put_head : Form → Outcome Form
put_head f =
    if f.lsize % 32 == 0
    then ((if not (f.headlen == 0) then put_char lf f else done f) >>= put_header)
    else done f

abbrev pub put_gap : Form → Outcome Form
put_gap f = if f.lsize % 16 == 0 && not (f.headlen == 0) then put_char b' ' f else done f

-- One round of the loop.
abbrev pub put_byte : ℕ → Form → Outcome Form
put_byte c f = do
  g ← put_head f
  h ← put_gap g
  k ← put_char (nth (c / 16 % 16) hex_digits) h
  l ← put_char (nth (c % 16) hex_digits) k
  done (record l { lsize = l.lsize + 1 })

unfoldable pub form_loop : ℕ → Bytes → Form → Outcome Form
form_loop size_buf [] f = done f
form_loop size_buf (c ∷ s) f = elim (ltb (f.len + 10) size_buf) [
  | false ↦ done f
  | true ↦ put_byte c f >>= form_loop size_buf s
]

-- The index behind, and the block.
unfoldable pub form_log : ℕ → Bytes → ℕ → Bytes → Outcome (ℕ × Bytes)
unfolding form_loop
form_log index szbuf size_buf buffer = do
  f ←
      form_loop size_buf buffer
        (record { index = index; len = 0; lsize = 0; headlen = 0; szbuf = szbuf })
  g ← put_char lf f
  h ← put_char 0 g
  done (h.index, h.szbuf)

abbrev pub print_size : ℕ
print_size = 512

abbrev pub block_size : ℕ
block_size = print_size * 3 + 8

-- The loop of `outputBinary`: what is left of the bytes, and the stream.
unfoldable pub dump_chunks : ℕ → ℕ → Bytes → Bytes → Outcome Bytes
unfolding form_log
dump_chunks zero index buffer os = out_of_fuel
dump_chunks (suc fuel) index [] os = done os
dump_chunks (suc fuel) index (c ∷ s) os =
    form_log index (replicate block_size 0) block_size (take print_size (c ∷ s)) >>= λ r.
    dump_chunks fuel r.0 (drop print_size (c ∷ s)) (os ++ c_str r.1)

-- What `outputBinary` puts into the queue.
unfoldable pub binary_line : ℤ → Bytes → Outcome Bytes
unfolding dump_chunks
binary_line address buffer = dump_chunks (suc (length buffer)) 0 buffer (
    codes "address["
    ++ print_int address
    ++ codes "] size["
    ++ print_nat (length buffer)
    ++ codes "] \n")

binary_line-test :
    binary_line (ℤ.pos 7) (1 ∷ 171 ∷ []) ≡ done (codes "address[7] size[2] \n000000  01ab\n")
unfolding binary_line dump_chunks form_log form_loop overwrite ullto4_str print_nat print_int
binary_line-test = refl
