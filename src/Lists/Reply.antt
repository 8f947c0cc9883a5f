-- ===== src/Lists/Reply.antt =====
-- The reply of LRANGE is the selected slice of the list.
use yedis.Prelude.{
  ℕ, zero, suc, ◌-◌, ◌≤◌, ◌≡◌, refl, sym, ap, ◌∙◌, Bool, true, false, some, List, [], ◌∷◌, ◌++◌,
  append-nil, append_assoc, arith, Bytes, length, take, drop, length-take, length-drop, take-nil,
  ◌==◌, if◌then◌else◌,
}
use yedis.Prelude.Int.{ℤ}
use yedis.Strtol.{string_to_long}
use yedis.Outcome.{done}
use yedis.Format.{
  bulk, bulks, array, array_header, format_bulk, format_bulk_lem, pre_format_multi_bulk_lem,
}
use yedis.Object.{YType, YError, Value, YObject}
use yedis.Store.{Lookup, check_type}
use yedis.Store.Laws.{IsReady, view, get_value_by_type-IsReady}
use yedis.Exec.{Env, format}
use yedis.Lists.Range.{ListRange, get_range, adjust_index}
use yedis.Lists.Range.Slice.{lower, upper, upper-le, selection, no_range, get_range-adjust_index}
use yedis.Lists.{send_range, send_from, send_slice, lrange}

-- `e` with more bytes in its reply.
abbrev pub replying : Bytes → Env → Env
replying s e = record e { reply = e.reply ++ s }

format_bulk-run : (s : Bytes) (e : Env) → format (format_bulk s) e ≡ done (tt, replying (bulk s) e)
format_bulk-run s e = rw (format_bulk_lem s e.reply)

send_range_lem :
    (n : ℕ) (l : List Bytes) (e : Env)
    → n ≤ length l
    → send_range n l e ≡ done (tt, replying (bulks (take n l)) e)
unfolding send_range
send_range_lem zero l e h = ap (λ r. done (tt, record e { reply = r })) (sym (append-nil e.reply))
send_range_lem (suc n) [] e h = absurd (omega arith)
send_range_lem (suc n) (s ∷ l) e h = rw (
  format_bulk_lem s e.reply,
  send_range_lem n l (replying (bulk s) e) (omega arith),
  append_assoc e.reply (bulk s) (bulks (take n l)),
)

-- The elements between two indices.
abbrev pub slice : ℤ → ℤ → List Bytes → List Bytes
slice start end l =
    take (upper end (length l) - lower start (length l)) (drop (lower start (length l)) l)

send_from_lem :
    (r : ListRange) (l : List Bytes) (e : Env)
    → r.range_len ≤ length l
    → send_from r l e ≡ done (tt, replying (bulks (take r.range_len l)) e)
send_from_lem r [] e h = rw (take-nil Bytes r.range_len, append-nil e.reply)
send_from_lem r (s ∷ l) e h = send_range_lem r.range_len (s ∷ l) e h

length-slice :
    (start end : ℤ) (l : List Bytes)
    → length (slice start end l) ≡ upper end (length l) - lower start (length l)
length-slice start end l = omega (
  arith,
  upper-le end (length l),
  length-drop (lower start (length l)) l,
  length-take (upper end (length l) - lower start (length l)) (drop (lower start (length l)) l),
)

-- What is sent for a range.
abbrev range_reply : ListRange → List Bytes → Bytes
range_reply r l = array_header r.range_len ++ bulks (take r.range_len (drop r.begin_it l))

send_slice-range :
    (start end : ℤ) (l : List Bytes) (e : Env) (r : ListRange)
    → get_range (adjust_index start end (length l)) l ≡ done r
    → r.range_len ≤ length (drop r.begin_it l)
    → send_slice start end l e ≡ done (some YError.ok, replying (range_reply r l) e)
send_slice-range start end l e r q h = rw (
  q,
  pre_format_multi_bulk_lem r.range_len e.reply,
  send_from_lem r (drop r.begin_it l) (replying (array_header r.range_len) e) h,
  append_assoc e.reply (array_header r.range_len) (bulks (take r.range_len (drop r.begin_it l))),
)

selection-fits :
    (start end : ℤ) (l : List Bytes)
    → let r = selection start end (length l) in r.range_len ≤ length (drop r.begin_it l)
selection-fits start end l =
    ground (arith, upper-le end (length l), length-drop (lower start (length l)) l)

range_reply-if :
    (b : Bool) (k i : ℕ) (l : List Bytes)
    → (b ≡ true → k ≡ 0)
    → range_reply (if b then no_range (length l) else record { range_len = k; begin_it = i }) l
      ≡ array_header k ++ bulks (take k (drop i l))
range_reply-if true k i l h = rw (h refl)
range_reply-if false k i l h = refl

range_reply-selection :
    (start end : ℤ) (l : List Bytes)
    → range_reply (selection start end (length l)) l ≡ array (slice start end l)
range_reply-selection start end l =
    let k = upper end (length l) - lower start (length l) in
    range_reply-if (k == 0) k (lower start (length l)) l (λ h. ground arith)
    ∙ ap (λ n. array_header n ++ bulks (slice start end l)) (sym (length-slice start end l))

-- Whatever the indices, the elements between them are sent, in order, behind their number.
send_slice_lem :
    (start end : ℤ) (l : List Bytes) (e : Env)
    → send_slice start end l e ≡ done (some YError.ok, replying (array (slice start end l)) e)
send_slice_lem start end l e =
    send_slice-range start end l e (selection start end (length l))
      (get_range-adjust_index start end l) (selection-fits start end l)
    ∙ ap (λ s. done (some YError.ok, replying s e)) (range_reply-selection start end l)

-- The object at a key is the list `l`.
pub record IsList (o : YObject) (l : List Bytes) : Type 0 where
  pub of_type : o.type ≡ YType.list
  pub holds : o.value ≡ Value.list l

pub check_type-IsList :
    (o : YObject) (l : List Bytes) → IsList o l → check_type YType.list (some o) ≡ Lookup.ok o
check_type-IsList o l h = rw (check_type, h.of_type)

-- LRANGE of a list, with two indices that are numbers, answers with exactly the elements between
-- the indices, in order, and leaves the store as it is.
-- The selected key space is there (`IsReady`).
pub lrange_lem :
    (e : Env) (c k a b : Bytes) (rest : List Bytes) (o : YObject) (l : List Bytes) (start end : ℤ)
    → IsReady e.store
    → view e.store k ≡ some o
    → IsList o l
    → string_to_long a ≡ some start
    → string_to_long b ≡ some end
    → lrange (c ∷ k ∷ a ∷ b ∷ rest) e
      ≡ done (some YError.ok, replying (array (slice start end l)) e)
unfolding lrange
lrange_lem e c k a b rest o l start end h v t p q =
    rw
      (
        get_value_by_type-IsReady e.store h k YType.list true,
        v,
        check_type-IsList o l t,
        p,
        q,
        t.holds,
      )
      (send_slice_lem start end l e)
