-- ===== src/Transport/Tcp/Redial.antt =====
-- What `Close` of a `TCPTransport` reaches: the connections in its map, so the last one dialed at
-- each address.
use causalclock.Base.{
  ap, lookup-insert, inr, ==_iff, inl, ◌^◌, ◌==◌, str_eq, ◌%◌, str_eq_refl, lookup, Bool-cases, ℕ,
  zero, suc, ◌+◌, ◌<◌, Str, false, some, List, [], ◌∷◌, ◌++◌, length, length-append, insert, All,
  ◌≡◌, ◌≢◌, refl, ◌∙◌, arith,
}
use causalclock.Base.Slices.{get_elem?-append, get_elem?}
use mathlib.Core.List.{append_assoc}
use causalclock.Transport.Types.{ok}
use causalclock.Transport.Tcp.Conn.{Conn, new_conn, close}
use causalclock.Transport.Tcp.Net.{TcpTransport, dial, close_at, close_conns, close_transport}

-- A closing at one place leaves the others.
get_elem?-close_at_ne :
    (i j : ℕ) (cs : List Conn) → j ≢ i → get_elem? (close_at j cs) i ≡ get_elem? cs i
unfolding close_at
get_elem?-close_at_ne i j [] h = refl
get_elem?-close_at_ne zero zero (c ∷ cs) h = absurd (h refl)
get_elem?-close_at_ne zero (suc j) (c ∷ cs) h = refl
get_elem?-close_at_ne (suc i) zero (c ∷ cs) h = refl
get_elem?-close_at_ne (suc i) (suc j) (c ∷ cs) h = get_elem?-close_at_ne i j cs (ground arith)

-- The place is not in the map.
abbrev Misses : ℕ → List (Str × ℕ) → Type 0
Misses i m = All (λ (e : Str × ℕ). e.1 ≢ i) m

get_elem?-close_conns :
    (i : ℕ) (m : List (Str × ℕ)) (cs : List Conn)
    → Misses i m
    → get_elem? (close_conns m cs) i ≡ get_elem? cs i
unfolding close_conns
get_elem?-close_conns i [] cs h = refl
get_elem?-close_conns i ((addr, j) ∷ m) cs (h, r) =
    get_elem?-close_conns i m (close_at j cs) r ∙ get_elem?-close_at_ne i j cs h

Misses_lem : (n : ℕ) (m : List (Str × ℕ)) → All (λ (e : Str × ℕ). e.1 < n) m → Misses n m
Misses_lem n [] h = tt
Misses_lem n (e ∷ m) (h, r) = (λ p. omega arith, Misses_lem n m r)

-- A place past those of the map is gone once its key is written again.
Misses-insert :
    (n : ℕ) (addr : Str) (m : List (Str × ℕ))
    → All (λ (e : Str × ℕ). e.1 < n) m
    → Misses n (insert addr (n + 1) (insert addr n m))
unfolding insert
Misses-insert n addr [] h = rw str_eq_refl (λ e. omega arith, tt)
Misses-insert n addr ((k, v) ∷ m) (h, r) = elim (Bool-cases (str_eq k addr)) [
  | inl same ↦ rw (same, str_eq_refl) (λ e. omega arith, Misses_lem n m r)
  | inr other ↦ rw (other, other) (λ e. omega arith, Misses-insert n addr m r)
]

close_idem : (c : Conn) → close (close c) ≡ close c
unfolding close
close_idem c = ground arith

get_elem?-close_at :
    (i : ℕ) (cs : List Conn) (c : Conn)
    → get_elem? cs i ≡ some c
    → get_elem? (close_at i cs) i ≡ some (close c)
unfolding close_at
get_elem?-close_at i [] c h = ground arith
get_elem?-close_at zero (d ∷ cs) c h = ground (arith, h)
get_elem?-close_at (suc i) (d ∷ cs) c h = get_elem?-close_at i cs c h

-- A closed connection stays what it is.
close_conns_closed :
    (i : ℕ) (m : List (Str × ℕ)) (cs : List Conn) (c : Conn)
    → get_elem? cs i ≡ some (close c)
    → get_elem? (close_conns m cs) i ≡ some (close c)
unfolding close_conns
close_conns_closed i [] cs c h = h
close_conns_closed i ((addr, j) ∷ m) cs c h = elim (Bool-cases (j == i)) [
  | inl p ↦
      let same : j ≡ i = (==_iff j i).0 p in
      close_conns_closed i m (close_at j cs) c
        (rw same (get_elem?-close_at i cs (close c) h ∙ ap some (close_idem c)))
  | inr p ↦
      close_conns_closed i m (close_at j cs) c
        (get_elem?-close_at_ne i j cs (λ e. ground (arith, p, e)) ∙ h)
]

-- The connection that the map holds for an address is closed.
close_conns-lookup :
    (i : ℕ) (addr : Str) (m : List (Str × ℕ)) (cs : List Conn) (c : Conn)
    → lookup addr m ≡ some i
    → get_elem? cs i ≡ some c
    → get_elem? (close_conns m cs) i ≡ some (close c)
unfolding close_conns lookup
close_conns-lookup i addr [] cs c l h = ground arith
close_conns-lookup i addr ((k, j) ∷ m) cs c l h = elim (Bool-cases (j == i)) [
  | inl p ↦
      let same : j ≡ i = (==_iff j i).0 p in
      close_conns_closed i m (close_at j cs) c (rw same (get_elem?-close_at i cs c h))
  | inr p ↦
      close_conns-lookup i addr m (close_at j cs) c (ground (arith, l, p))
        (get_elem?-close_at_ne i j cs (λ e. ground (arith, p, e)) ∙ h)
]

-- Two dials of one address with open connections, and a close of the transport: the second
-- connection is closed, and the first, of which the map has lost sight, is as it was, so open.
pub close-redialed :
    (t : TcpTransport) (addr : Str) (first second : List ℕ)
    → t.closed ≡ false
    → All (λ (e : Str × ℕ). e.1 < length t.opened) t.connections
    → (t' : TcpTransport) × (t'' : TcpTransport) × (i : ℕ) × (j : ℕ) × (dial t addr (some first)
        ≡ ok (t', i))
      × (dial t' addr (some second) ≡ ok (t'', j))
      × (get_elem? (close_transport t'').opened i ≡ some (new_conn t.config first))
      × (get_elem? (close_transport t'').opened j ≡ some (close (new_conn t.config second)))
unfolding dial close_transport
close-redialed t addr first second o h =
    let n = length t.opened in
    let c = new_conn t.config first in
    let d = new_conn t.config second in
    let t' : TcpTransport = record t {
      connections = insert addr n t.connections;
      active_conns = (t.active_conns + 1) % 2 ^ 32;
      opened = t.opened ++ (c ∷ []);
    } in
    let t'' : TcpTransport = record t' {
      connections = insert addr (length t'.opened) t'.connections;
      active_conns = (t'.active_conns + 1) % 2 ^ 32;
      opened = t'.opened ++ (d ∷ []);
    } in
    let behind : length t'.opened ≡ n + 1 = length-append t.opened (c ∷ []) in
    let missed : Misses n t''.connections = rw behind (Misses-insert n addr t.connections h) in
    let before : get_elem? t''.opened n ≡ some c =
      rw append_assoc (get_elem?-append t.opened (d ∷ []) c) in
    (
      t',
      t'',
      n,
      length t'.opened,
      rw o,
      rw o,
      get_elem?-close_conns n t''.connections t''.opened missed ∙ before,
      close_conns-lookup (length t'.opened) addr t''.connections t''.opened d
          (rw (lookup-insert, str_eq_refl)) (get_elem?-append t'.opened [] d),
    )
