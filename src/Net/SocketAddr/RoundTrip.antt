-- ===== src/Net/SocketAddr/RoundTrip.antt =====
-- The text of an address is read and printed.
use yedis.Prelude.{
  one_on, find_first_of, ℕ, ◌+◌, ◌%◌, ◌^◌, ◌<◌, ◌≡◌, refl, sym, ap, ◌∙◌, Bool, true, Option, none,
  some, [], ◌∷◌, ◌++◌, append_assoc, inl, inr, Bytes, codes, length, take, drop, ◌==◌,
  if◌then◌else◌, arith, take-length-append, drop-length-append, Bool-cases, length-append, ==_refl,
}
use yedis.Prelude.Int.{pos}
use yedis.Decimal.{print_nat}
use yedis.Net.SocketAddr.{
  Inet, SocketAddr, split, with_port, init_host, parse_addr, get_port, to_string, same_addr,
}

one_on-none : (o : Option ℕ) → one_on o ≡ none → o ≡ none
one_on-none none h = refl
one_on-none (some p) h = absurd (cc h)

find_first_of-append :
    (ip more : Bytes)
    → find_first_of b':' ip ≡ none
    → find_first_of b':' (ip ++ b':' ∷ more) ≡ some (length ip)
find_first_of-append [] more h = refl
find_first_of-append (c ∷ ip) more h =
    let found : Bool → Option ℕ → Option ℕ = λ b o. if b then some 0 else one_on o in
    elim (Bool-cases (c == b':')) [
      | inl e ↦ absurd (cc (sym (ap (λ b. found b (find_first_of b':' ip)) e) ∙ h))
      | inr e ↦
          let none_there =
            one_on-none (find_first_of b':' ip)
              (sym (ap (λ b. found b (find_first_of b':' ip)) e) ∙ h) in
          ap (λ b. found b (find_first_of b':' (ip ++ b':' ∷ more))) e
          ∙ ap one_on (find_first_of-append ip more none_there)
    ]

same_addr_refl : (a : SocketAddr) → same_addr a a ≡ true
unfolding same_addr
same_addr_refl a = rw (==_refl a.sin_family, ==_refl a.s_addr, ==_refl a.sin_port) refl

-- The text `ip:port` is read as an address that prints the same text and has that port, and that is the
-- one that `Init` makes of the two parts. For a port below 2 ^ 16 and an `ip` without a colon; where
-- `inet_ntop` prints for `inet_addr` of `ip` the same `ip`, `ntohs` undoes `htons` on the port, and
-- `stoi` reads the digits of the port.
pub parse_addr-to_string :
    (inet : Inet) (ip : Bytes) (port : ℕ)
    → port < 2 ^ 16
    → find_first_of b':' ip ≡ none
    → inet.inet_ntop (inet.inet_addr ip) ≡ ip
    → inet.ntohs (inet.htons port) ≡ port
    → inet.stoi (print_nat port) ≡ some (pos port)
    → (a : SocketAddr) × (parse_addr inet (ip ++ codes ":" ++ print_nat port) ≡ some a)
      × (to_string inet a ≡ ip ++ codes ":" ++ print_nat port)
      × (get_port inet a ≡ port)
      × (same_addr a (init_host inet ip port) ≡ true)
unfolding parse_addr to_string get_port same_addr init_host
parse_addr-to_string inet ip port small plain printed swapped read =
    let digits = print_nat port in
    let text : Bytes = ip ++ codes ":" ++ digits in
    let joined : text ≡ ip ++ b':' ∷ digits = append_assoc ip (codes ":") digits in
    let at : find_first_of b':' text ≡ some (length ip) =
      ap (find_first_of b':') joined ∙ find_first_of-append ip digits plain in
    let front : take (length ip) text ≡ ip =
      ap (take (length ip)) joined ∙ take-length-append ip (b':' ∷ digits) in
    let behind : drop (length ip + 1) text ≡ digits =
      ap (λ n. drop n text) (sym (length-append ip (codes ":")))
      ∙ drop-length-append (ip ++ codes ":") digits in
    let read_at : Option ℕ → Option SocketAddr =
      λ o. with_port inet (split o text).0 (inet.stoi (split o text).1) in
    let same_port : port % 2 ^ 16 ≡ port = omega arith in
    (
      init_host inet ip port,
      ap read_at at
          ∙ ap (λ s. with_port inet s (inet.stoi (drop (length ip + 1) text))) front
          ∙ ap (λ s. with_port inet ip (inet.stoi s)) behind
          ∙ ap (with_port inet ip) read
          ∙ ap (λ n. some (init_host inet ip n)) same_port,
      ap (λ s. s ++ codes ":" ++ print_nat (inet.ntohs (inet.htons port))) printed
          ∙ ap (λ n. ip ++ codes ":" ++ print_nat n) swapped,
      swapped,
      same_addr_refl (init_host inet ip port),
    )
