-- ===== src/ReplyBuffer/Grow.antt =====
-- The loop of `assureSpace`.
use yedis.Prelude.{
  ℕ, zero, suc, ◌+◌, ◌-◌, ◌/◌, ◌≤◌, ◌<◌, ◌≡◌, refl, ap, ◌∙◌, true, false, ◌++◌, Bytes, length, take,
  replicate, length-append, leb, ltb, Bool-cases, inl, inr, arith, le→leb,
}
use yedis.Prelude.Memory.{bytes_at, bytes_at-append, take-all, length-replicate}
use yedis.Outcome.{Outcome, done}
use yedis.ReplyBuffer.{
  ReplyBuffer, max_buffer_size, readable_size, writable_size, held, resize, grow,
}

pub record IsReply (rb : ReplyBuffer) : Type 0 where
  pub ordered : rb.read_pos ≤ rb.write_pos
  pub within : rb.write_pos ≤ length rb.vec_buffer

-- The same bytes are held.
pub record Same (rb rb' : ReplyBuffer) : Type 0 where
  pub is_reply : IsReply rb'
  pub holds : held rb' ≡ held rb
  pub many : readable_size rb' ≡ readable_size rb

resize_lem :
    (n : ℕ) {rb : ReplyBuffer}
    → IsReply rb
    → length rb.vec_buffer ≤ n
    → Same rb (resize n rb) × (length (resize n rb).vec_buffer ≡ n)
resize_lem n {rb} v h =
    let old = rb.vec_buffer in
    let more : Bytes = replicate (n - length old) 0 in
    let grown : take n old ++ more ≡ old ++ more = ap (λ s. s ++ more) (take-all n old h) in
    let l : length (resize n rb).vec_buffer ≡ n =
      omega (arith, ap length grown, length-append old more, length-replicate (n - length old) 0) in
    (
      record {
        is_reply = record { ordered = v.ordered; within = omega (arith, v, l) };
        holds =
            ap (bytes_at rb.read_pos (readable_size rb)) grown
            ∙ bytes_at-append rb.read_pos (readable_size rb) old more (omega (arith, v));
        many = refl;
      },
      l,
    )

pub record Grown (size : ℕ) (rb rb' : ReplyBuffer) : Type 0 where
  pub same : Same rb rb'
  pub room : size ≤ writable_size rb' + rb'.read_pos

grow-enough :
    (fuel size max_size : ℕ) (rb : ReplyBuffer)
    → ltb (writable_size rb + rb.read_pos) size ≡ false
    → grow (suc fuel) size max_size rb ≡ done rb
unfolding grow
grow-enough fuel size max_size rb q = rw (q, grow) refl

grow-first :
    (fuel size max_size : ℕ) (rb : ReplyBuffer)
    → ltb (writable_size rb + rb.read_pos) size ≡ true
    → ltb max_size 64 ≡ true
    → grow (suc fuel) size max_size rb ≡ grow fuel size 64 (resize 64 rb)
unfolding grow
grow-first fuel size max_size rb q p = rw (q, p, grow) refl

grow-half :
    (fuel size max_size : ℕ) (rb : ReplyBuffer)
    → ltb (writable_size rb + rb.read_pos) size ≡ true
    → ltb max_size 64 ≡ false
    → leb max_size max_buffer_size ≡ true
    → grow (suc fuel) size max_size rb
      ≡ grow fuel size (max_size + max_size / 2) (resize (max_size + max_size / 2) rb)
unfolding grow
grow-half fuel size max_size rb q p r = rw (q, p, r, grow) refl

abbrev Ends : Outcome ReplyBuffer → ℕ → ReplyBuffer → Type 0
Ends o size rb = (rb' : ReplyBuffer) × (o ≡ done rb') × Grown size rb rb'

resized-Ends :
    (n size : ℕ) {rb : ReplyBuffer} {o o' : Outcome ReplyBuffer}
    → Same rb (resize n rb)
    → o ≡ o'
    → Ends o' size (resize n rb)
    → Ends o size rb
resized-Ends n size {rb} {o} {o'} s e (rb', run, g) = (
  rb',
  e ∙ run,
  record {
    same = record {
      is_reply = g.same.is_reply;
      holds = g.same.holds ∙ s.holds;
      many = g.same.many;
    };
    room = g.room;
  },
)

pub grow_lem :
    (fuel size max_size : ℕ) {rb : ReplyBuffer}
    → IsReply rb
    → length rb.vec_buffer ≡ max_size
    → size + readable_size rb ≤ max_buffer_size
    → size + readable_size rb - max_size < fuel
    → Ends (grow fuel size max_size rb) size rb
grow_lem zero size max_size {rb} v l small enough = absurd (omega arith)
grow_lem (suc fuel) size max_size {rb} v l small enough =
    elim (Bool-cases (ltb (writable_size rb + rb.read_pos) size)) [
      | inr q ↦ (
        rb,
        grow-enough fuel size max_size rb q,
        record { same = record { is_reply = v; holds = refl; many = refl }; room = ground arith },
      )
      | inl q ↦
          let short : max_size < size + readable_size rb = ground (arith, v) in
          elim (Bool-cases (ltb max_size 64)) [
            | inl p ↦
                let (s, l') = resize_lem 64 v (ground arith) in
                resized-Ends 64 size s (grow-first fuel size max_size rb q p)
                  (grow_lem fuel size 64 s.is_reply l' small (ground arith))
            | inr p ↦
                let n = max_size + max_size / 2 in
                let (s, l') = resize_lem n v (omega arith) in
                resized-Ends n size s
                  (grow-half fuel size max_size rb q p
                    (le→leb max_size max_buffer_size (omega arith)))
                  (grow_lem fuel size n s.is_reply l' small (ground arith))
          ]
    ]
