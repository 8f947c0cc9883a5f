-- ===== src/Net/Server/Leaks.antt =====
-- What leaves the table of the connections, and what does not.
use mathlib.Core.List.{Mem, mem-cons_self, mem-append_left, mem-append_right}
use yedis.Prelude.{
  ℕ, ◌+◌, ◌≡◌, refl, ap, ◌∙◌, ◌⊎◌, inl, inr, none, some, List, [], ◌∷◌, Bytes, length,
  length-append, if◌then◌else◌, arith, bytes_eq, bytes_eq_iff, Bool-cases,
}
use yedis.Prelude.Assoc.{Assoc, find, assign, find-assign}
use yedis.Outcome.{Outcome, done, ◌>>=◌}
use yedis.Net.Server.{
  Handle, new_handle, Server, connection_name, entry_of, new_connection, remove_connection_in_loop,
}
use yedis.Net.Pool.{Pool}
use yedis.Net.Server.Table.{IsServer, connected, new_connection-connected}

-- The numbers are those of a loop and a descriptor.
pub data Op : Type 0 where
  connects : ℕ → Bytes → Op
  removes : ℕ → ℕ → Op

abbrev pub perform : Op → Server → Outcome Server
perform (connects sockfd peer) s = new_connection sockfd peer s
perform (removes loop sockfd) s = done (remove_connection_in_loop (new_handle loop sockfd) s)

abbrev pub perform_all : List Op → Server → Outcome Server
perform_all [] s = done s
perform_all (o ∷ ops) s = perform o s >>= perform_all ops

-- How many connections are made.
abbrev pub made : List Op → ℕ
made [] = 0
made (connects sockfd peer ∷ ops) = made ops + 1
made (removes loop sockfd ∷ ops) = made ops

-- The connection is in the table, or another of the same name took its place.
abbrev pub Placed : Bytes → Handle → Server → Type 0
Placed key h s = (find key s.connections ≡ some h) ⊎ Mem (key, h) s.overwritten

-- How many connections have an entry, or had one that was overwritten.
abbrev pub entries : Server → ℕ
entries s = length s.connections + length s.overwritten

-- `n` entries are new, none is removed, and nothing is destroyed.
pub record Kept (key : Bytes) (h : Handle) (n : ℕ) (s s' : Server) : Type 0 where
  pub is_server : IsServer s'
  pub placed : Placed key h s'
  pub counted : entries s' ≡ entries s + n
  pub none_destroyed : s'.destroyed ≡ s.destroyed

length-assign :
    (k : Bytes) (v : Handle) (m : Assoc Handle)
    → length (assign k v m) + length (entry_of k (find k m)) ≡ length m + 1
unfolding find assign
length-assign k v [] = refl
length-assign k v ((j, w) ∷ m) = elim (Bool-cases (bytes_eq j k)) [
  | inl e ↦ rw (e, if◌then◌else◌) (omega arith)
  | inr e ↦ rw (e, if◌then◌else◌) (omega (arith, length-assign k v m))
]

-- An entry survives an assignment, or is the one that is overwritten.
assigned :
    (name key : Bytes) (conn h : Handle) (m : Assoc Handle)
    → find key m ≡ some h
    → (find key (assign name conn m) ≡ some h) ⊎ Mem (key, h) (entry_of name (find name m))
assigned name key conn h m f = elim (Bool-cases (bytes_eq name key)) [
  | inl e ↦ let same = (bytes_eq_iff name key).0 e in inr (rw (same, f) mem-cons_self)
  | inr e ↦ inl (find-assign name key conn m ∙ ap (λ b. if b then some conn else find key m) e ∙ f)
]

connected-Placed :
    (key : Bytes) (h : Handle) (loop : ℕ) (pool : Pool) (sockfd : ℕ) (peer : Bytes) (s : Server)
    → Placed key h s
    → Placed key h (connected loop pool sockfd peer s)
connected-Placed key h loop pool sockfd peer s (inl f) =
    let name = connection_name s.name peer s.next_conn_id in
    elim (assigned name key (new_handle loop sockfd) h s.connections f) [
      | inl g ↦ inl g
      | inr m ↦ inr (mem-append_right s.overwritten m)
    ]
connected-Placed key h loop pool sockfd peer s (inr m) =
    let name = connection_name s.name peer s.next_conn_id in
    inr (mem-append_left (entry_of name (find name s.connections)) m)

connect-Kept :
    (key : Bytes) (h : Handle) (sockfd : ℕ) (peer : Bytes) (s : Server)
    → IsServer s
    → Placed key h s
    → (s' : Server) × (new_connection sockfd peer s ≡ done s') × Kept key h 1 s s'
connect-Kept key h sockfd peer s v f =
    let (loop, pool, run, v') = new_connection-connected sockfd peer s v in
    let name = connection_name s.name peer s.next_conn_id in
    (
      connected loop pool sockfd peer s,
      run,
      record {
        is_server = v';
        placed = connected-Placed key h loop pool sockfd peer s f;
        counted = omega (
          arith,
          length-assign name (new_handle loop sockfd) s.connections,
          length-append s.overwritten (entry_of name (find name s.connections)),
        );
        none_destroyed = refl;
      },
    )

remove-Kept :
    (key : Bytes) (h : Handle) (conn : Handle) (s : Server)
    → conn.name ≡ []
    → IsServer s
    → Placed key h s
    → Kept key h 0 s (remove_connection_in_loop conn s)
unfolding remove_connection_in_loop
remove-Kept key h conn s e v f =
    let missing : find conn.name s.connections ≡ none =
      ap (λ k. find k s.connections) e ∙ v.named in
    rw missing (record { is_server = v; placed = f; counted = omega arith; none_destroyed = refl })

next-Kept :
    (key : Bytes) (h : Handle) (n m both : ℕ) {s s' s'' : Server}
    → both ≡ n + m
    → Kept key h n s s'
    → Kept key h m s' s''
    → Kept key h both s s''
next-Kept key h n m both e k k' = record {
  is_server = k'.is_server;
  placed = k'.placed;
  counted = omega (arith, e, k.counted, k'.counted);
  none_destroyed = k'.none_destroyed ∙ k.none_destroyed;
}

all-Kept :
    (ops : List Op) (key : Bytes) (h : Handle) (s : Server)
    → IsServer s
    → Placed key h s
    → (s' : Server) × (perform_all ops s ≡ done s') × Kept key h (made ops) s s'
all-Kept [] key h s v f =
    (s, refl, record { is_server = v; placed = f; counted = omega arith; none_destroyed = refl })
all-Kept (connects sockfd peer ∷ ops) key h s v f =
    let (s', run, k) = connect-Kept key h sockfd peer s v f in
    let (s'', run', k') = all-Kept ops key h s' k.is_server k.placed in
    (
      s'',
      ap (λ (o : Outcome Server). o >>= perform_all ops) run ∙ run',
      next-Kept key h 1 (made ops) (made ops + 1) (omega arith) k k',
    )
all-Kept (removes loop sockfd ∷ ops) key h s v f =
    let k = remove-Kept key h (new_handle loop sockfd) s refl v f in
    let s' = remove_connection_in_loop (new_handle loop sockfd) s in
    let (s'', run, k') = all-Kept ops key h s' k.is_server k.placed in
    (s'', run, next-Kept key h 0 (made ops) (made ops) (omega arith) k k')

-- Once the server is started with loops, however many connections come and are removed: the server does
-- not fail; a connection that is in its table stays there under its key, unless a new connection of the
-- same name overwrites the entry; as many entries are added as connections come, those that were
-- overwritten included, and none is removed; and none is destroyed. For the server looks a connection
-- up by a name that every connection has empty, and no key of the table is empty at first (`IsServer`).
pub perform_all-Kept :
    (ops : List Op) (key : Bytes) (h : Handle) (s : Server)
    → IsServer s
    → find key s.connections ≡ some h
    → (s' : Server) × (perform_all ops s ≡ done s') × Kept key h (made ops) s s'
perform_all-Kept ops key h s v f = all-Kept ops key h s v (inl f)
