-- ===== src/Net/AcceptNew/Accepted.antt =====
-- What becomes of the connections that the kernel gives.
use yedis.Prelude.{
  ℕ, zero, suc, ◌≡◌, refl, sym, ap, ◌∙◌, Bool, true, false, none, some, List, [], ◌∷◌, ◌++◌, map,
  append-nil, append_assoc, if◌then◌else◌,
}
use yedis.Prelude.Int.{ℤ, pos, negsuc}
use yedis.Outcome.{Outcome, done, ◌>>=◌}
use yedis.Net.SocketAddr.{Inet, to_string}
use yedis.Net.Sockets.{Kernel, accept4, accept_socket, close_socket}
use yedis.Net.Server.{Handle, Server, new_handle}
use yedis.Net.Server.Table.{IsServer, connected, new_connection-connected}
use yedis.Net.AcceptNew.{
  AcceptNew, Given, drop_waiting, accepted_as, accept_ready, give_connection, accept_times,
}

map-append {ℓ κ} :
    {A : Type ℓ} {B : Type κ} (f : A → B) (xs ys : List A) → map f (xs ++ ys) ≡ map f xs ++ map f ys
map-append f [] ys = refl
map-append f (x ∷ xs) ys = ap (λ l. f x ∷ l) (map-append f xs ys)

-- A descriptor, unless the result is an error.
abbrev pub descriptor : ℤ → List ℕ
descriptor (pos n) = n ∷ []
descriptor (negsuc n) = []

abbrev pub sockfds : Server → List ℕ
sockfds s = map (λ (h : Handle). h.sockfd) s.established

module _ {K : Type 0} (kernel : Kernel K) (inet : Inet) where
  -- The descriptors that `accept4` gives, in order.
  abbrev pub accepted : ℕ → AcceptNew → K → List ℕ
  accepted zero a k = []
  accepted (suc n) a k =
      let (_, a', k') = accept_ready kernel a k in
      descriptor (kernel.call (accept4 a.accept_fd) k).0 ++ accepted n a' k'

  -- One call: with the result of `accept4`, and the state of the kernel behind it.
  given-Server :
      (connfd : ℤ) (a : AcceptNew) (k : K) (s : Server)
      → a.has_callback ≡ true
      → IsServer s
      → (s' : Server) × (give_connection inet (accepted_as kernel connfd a k).0 s ≡ done s')
        × IsServer s'
        × (sockfds s' ≡ sockfds s ++ descriptor connfd)
        × ((accepted_as kernel connfd a k).1.has_callback ≡ true)
  given-Server (pos n) a k s e v =
      let peer = to_string inet (kernel.peer k) in
      let (loop, pool, run, v') = new_connection-connected n peer s v in
      let way : Bool → Given × AcceptNew × K = λ b.
        if b
        then (some (pos n, kernel.peer k), a, k)
        else (none, a, close_socket kernel (pos n) k) in
      (
        connected loop pool n peer s,
        ap (λ b. give_connection inet (way b).0 s) e ∙ run,
        v',
        map-append (λ (h : Handle). h.sockfd) s.established (new_handle loop n ∷ []),
        ap (λ b. (way b).1.has_callback) e ∙ e,
      )
  given-Server (negsuc n) a k s e v =
      let way : Bool → Given × AcceptNew × K = λ b.
        if b
        then (none, (drop_waiting kernel a k).0, (drop_waiting kernel a k).1)
        else (none, a, k) in
      let none_given : (b : Bool) → give_connection inet (way b).0 s ≡ done s = λ b.
        elim b as (λ b. give_connection inet (way b).0 s ≡ done s) [ true ↦ refl | false ↦ refl ] in
      let kept : (b : Bool) → (way b).1.has_callback ≡ true =
        λ b. elim b as (λ b. (way b).1.has_callback ≡ true) [ true ↦ e | false ↦ e ] in
      (
        s,
        none_given (kernel.is_emfile k),
        v,
        sym (append-nil (sockfds s)),
        kept (kernel.is_emfile k),
      )

  ready-Server :
      (a : AcceptNew) (k : K) (s : Server)
      → a.has_callback ≡ true
      → IsServer s
      → (s' : Server) × (give_connection inet (accept_ready kernel a k).0 s ≡ done s')
        × IsServer s'
        × (sockfds s' ≡ sockfds s ++ descriptor (kernel.call (accept4 a.accept_fd) k).0)
        × ((accept_ready kernel a k).1.has_callback ≡ true)
  unfolding accept_ready accept_socket
  ready-Server a k s e v =
      let r = kernel.call (accept4 a.accept_fd) k in given-Server r.0 a r.1 s e v

  -- However often the loop calls the acceptor of a server that is started with loops, and whatever the
  -- kernel answers: the server does not fail, and the connections that are established, behind those
  -- that were, are those of the descriptors that `accept4` gave, each once and in their order.
  pub accept_times-accepted :
      (n : ℕ) (a : AcceptNew) (k : K) (s : Server)
      → a.has_callback ≡ true
      → IsServer s
      → (s' : Server) × (a' : AcceptNew) × (k' : K) × (accept_times kernel inet n a k s
          ≡ done (s', a', k'))
        × IsServer s'
        × (sockfds s' ≡ sockfds s ++ accepted n a k)
  unfolding accept_times
  accept_times-accepted zero a k s e v = (s, a, k, refl, v, sym (append-nil (sockfds s)))
  accept_times-accepted (suc n) a k s e v =
      let r = accept_ready kernel a k in
      let now = ready-Server a k s e v in
      let (s', a', k', run, v', all) = accept_times-accepted n r.1 r.2 now.0 now.4 now.2 in
      (
        s',
        a',
        k',
        ap (λ (o : Outcome Server). o >>= accept_times kernel inet n r.1 r.2) now.1 ∙ run,
        v',
        all
            ∙ ap (λ l. l ++ accepted n r.1 r.2) now.3
            ∙ append_assoc (sockfds s) (descriptor (kernel.call (accept4 a.accept_fd) k).0)
                (accepted n r.1 r.2),
      )
