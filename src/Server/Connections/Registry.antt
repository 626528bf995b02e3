-- ===== src/Server/Connections/Registry.antt =====
-- The map of connections: what is counted, and that nothing leaves it.
use simple_ntpd.Common.{
  ℕ, ◌+◌, ◌-◌, ◌%◌, ◌^◌, ◌≤◌, ◌≡◌, inl, inr, refl, ap, subst, ◌∙◌, arith, true, Option, none, some,
  List, [], ◌∷◌, length, if◌then◌else◌, Bool-cases, All, if-true,
}
use simple_ntpd.Common.Text.{Bytes, equal}
use simple_ntpd.Common.Result.{ok, bind-eq-ok, ok-value}
use simple_ntpd.Common.Map.{
  lookup, insert, lookup-insert, lookup-insert_self, length-insert, insert-All, lookup-All,
  bytes_eq,
}
use simple_ntpd.Connection.{NtpConnection, new_connection, set_trusted}
use simple_ntpd.Server.{NtpServer}
use simple_ntpd.Server.Security.{is_client_allowed}
use simple_ntpd.Server.Connections.{
  client_key, add_connection, create_connection, found_or_created, get_or_create_connection,
  put_connection, cleanup, cleanup_connections,
}

-- Every connection is active, and the counter is the number of entries.
abbrev IsOpen : NtpConnection → Type 0
IsOpen c = c.active ≡ true

pub record IsRegistry (s : NtpServer) : Type 0 where
  pub all_active : All (λ (e : Bytes × NtpConnection). IsOpen e.1) s.active_connections
  pub counted : s.stats.active_connections ≡ length s.active_connections % 2 ^ 64

-- The table `m` after it was `old`: no client has left, and at most one was added.
pub record Grows (old m : List (Bytes × NtpConnection)) : Type 0 where
  pub stays :
      (key : Bytes) (c : NtpConnection)
      → lookup key old ≡ some c
      → (d : NtpConnection) × (lookup key m ≡ some d)
  pub at_least : length old ≤ length m
  pub at_most : length m ≤ length old + 1

insert-Grows :
    (key : Bytes) (c : NtpConnection) (m : List (Bytes × NtpConnection)) → Grows m (insert key c m)
insert-Grows key c m = record {
  stays = λ k d h. elim (Bool-cases (equal key k)) [
    | inl same ↦ (c, lookup-insert key k c m ∙ if-true (equal key k) (some c) (lookup k m) same)
    | inr other ↦
        (d, lookup-insert key k c m ∙ ap (λ b. if b then some c else lookup k m) other ∙ h)
  ];
  at_least = omega (arith, length-insert key c m);
  at_most = omega (arith, length-insert key c m);
}

-- Writing back an entry that is there keeps the growth.
pub put-Grows :
    (key : Bytes) (c d : NtpConnection) (old m : List (Bytes × NtpConnection))
    → lookup key m ≡ some d
    → Grows old m
    → Grows old (insert key c m)
put-Grows key c d old m there g = record {
  stays = λ k e h. let (f, h') = g.stays k e h in (insert-Grows key c m).stays k f h';
  at_least = omega (arith, g.at_least, (insert-Grows key c m).at_least);
  at_most = elim (length-insert key c m) [
    | inl (absent, longer) ↦ absurd (cc (there, absent))
    | inr (x, e, same) ↦ omega (arith, g.at_most, same)
  ];
}

add_connection-IsRegistry :
    (key : Bytes) (c : NtpConnection) (s : NtpServer)
    → c.active ≡ true
    → lookup key s.active_connections ≡ none
    → IsRegistry s
    → IsRegistry (add_connection key c s)
add_connection-IsRegistry key c s open_ absent r = record {
  all_active =
      insert-All (λ (e : Bytes × NtpConnection). IsOpen e.1) key c s.active_connections (λ k. open_)
        r.all_active;
  counted = elim (length-insert key c s.active_connections) [
    | inl (e, longer) ↦ omega (arith, r.counted, longer)
    | inr (d, e, same) ↦ absurd (cc (absent, e))
  ];
}

-- A connection that stands in the table is written back.
pub put_connection-IsRegistry :
    (key : Bytes) (c d : NtpConnection) (s : NtpServer)
    → c.active ≡ true
    → lookup key s.active_connections ≡ some d
    → IsRegistry s
    → IsRegistry (put_connection key c s)
put_connection-IsRegistry key c d s open_ there r = record {
  all_active =
      insert-All (λ (e : Bytes × NtpConnection). IsOpen e.1) key c s.active_connections (λ k. open_)
        r.all_active;
  counted = elim (length-insert key c s.active_connections) [
    | inl (e, longer) ↦ absurd (cc (there, e))
    | inr (x, e, same) ↦ omega (arith, r.counted, same)
  ];
}

-- What `getOrCreateConnection` returns: a connection that stands in the table under its key.
pub record Entered (key : Bytes) (s : NtpServer) (r : NtpServer × NtpConnection) : Type 0 where
  pub registry : IsRegistry r.0
  pub entered : lookup key r.0.active_connections ≡ some r.1
  pub open_ : IsOpen r.1
  pub grows : Grows s.active_connections r.0.active_connections

found-Entered :
    (inet_pton : Bytes → Option ℕ) (key ip : Bytes) (s : NtpServer) (o : Option NtpConnection)
    (r : NtpServer × NtpConnection)
    → IsRegistry s
    → lookup key s.active_connections ≡ o
    → found_or_created inet_pton key ip s o ≡ ok r
    → Entered key s r
unfolding found_or_created create_connection
found-Entered inet_pton key ip s (some connection) r w there h =
    subst (Entered key s) (ok-value h) (record {
      registry = w;
      entered = there;
      open_ = lookup-All IsOpen key s.active_connections connection w.all_active there;
      grows = record { stays = λ k c e. (c, e); at_least = omega arith; at_most = omega arith };
    })
found-Entered inet_pton key ip s none r w absent h =
    let (allowed, e, made) = bind-eq-ok (is_client_allowed inet_pton s.config ip) _ h in
    let c = set_trusted allowed (new_connection none ip s.config) in
    subst (Entered key s) (ok-value made) (record {
      registry = add_connection-IsRegistry key c s refl absent w;
      entered = lookup-insert_self key c s.active_connections;
      open_ = refl;
      grows = insert-Grows key c s.active_connections;
    })

pub get_or_create_connection-Entered :
    (inet_pton : Bytes → Option ℕ) (ip : Bytes) (port : ℕ) (s : NtpServer)
    (r : NtpServer × NtpConnection)
    → IsRegistry s
    → get_or_create_connection inet_pton ip port s ≡ ok r
    → Entered (client_key ip port) s r
unfolding get_or_create_connection
get_or_create_connection-Entered inet_pton ip port s r w h =
    found-Entered inet_pton (client_key ip port) ip s _ r w refl h

cleanup_idle :
    (m : List (Bytes × NtpConnection)) (count : ℕ)
    → All (λ (e : Bytes × NtpConnection). IsOpen e.1) m
    → cleanup m count ≡ (m, count)
unfolding cleanup
cleanup_idle [] count a = refl
cleanup_idle ((key, c) ∷ rest) count a =
    let open_ = a.0 in
    let ih = cleanup_idle rest count a.1 in
    ap
      (λ b.
        let t = cleanup rest (if b then count else (count + 2 ^ 64 - 1) % 2 ^ 64) in
        ((if b then (key, c) ∷ t.0 else t.0), t.1))
      open_
    ∙ ap (λ (t : List (Bytes × NtpConnection) × ℕ). ((key, c) ∷ t.0, t.1)) ih

-- `cleanupConnections` does nothing to a table of active connections.
pub cleanup_connections_idle : (s : NtpServer) → IsRegistry s → cleanup_connections s ≡ s
unfolding cleanup_connections
cleanup_connections_idle s w =
    ap
      (λ (t : List (Bytes × NtpConnection) × ℕ). record s {
        active_connections = t.0;
        stats = record s.stats { active_connections = t.1 };
      })
      (cleanup_idle s.active_connections s.stats.active_connections w.all_active)
