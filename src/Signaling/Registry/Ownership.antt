-- ===== src/Signaling/Registry/Ownership.antt =====
-- A device belongs to at most one live connection.
use remotetab.Prelude.{
  ℕ, ◌≡◌, String, Option, none, some, arith, eq_iff, ◌≢◌, inl, inr, Option-cases, [],
}
use remotetab.Store.{Store, lookup, lookup-insert, lookup-erase, has-lookup}
use remotetab.Protocol.Messages.{DeviceRole}
use remotetab.Signaling.Registry.{
  RegisteredConnection, ConnectionRegistry, register, bind, touch, release_device, unregister,
}

-- A live connection with a device is the one that the device index names.
pub record IsOwned (r : ConnectionRegistry) : Type 0 where
  pub indexed :
      (c d : String) (conn : RegisteredConnection)
      → lookup c r.conns ≡ some conn
      → conn.device_id ≡ some d
      → lookup d r.by_device ≡ some c

pub register-IsOwned :
    (c : String) (now : ℕ) (r : ConnectionRegistry) → IsOwned r → IsOwned (register c now r)
unfolding register
register-IsOwned c now r h = record {
  indexed = λ c' d conn e f. ground (
    arith,
    lookup-insert c c' (record { conn_id = c; role = none; device_id = none; last_seen_ms = now })
        r.conns,
    h.indexed c' d conn,
  );
}

pub touch-IsOwned :
    (c : String) (now : ℕ) (r : ConnectionRegistry) → IsOwned r → IsOwned (touch c now r)
unfolding touch
touch-IsOwned c now r h = elim (Option-cases (lookup c r.conns)) [
  | inl e ↦ rw (e, touch) h
  | inr (conn, e) ↦
      rw (e, touch)
        (record {
          indexed = λ c' d conn' f g. ground (
            arith,
            eq_iff c c',
            lookup-insert c c' (record conn { last_seen_ms = now }) r.conns,
            h.indexed c' d conn',
            h.indexed c' d conn,
          );
        })
]

-- The entry of another connection stays.
lookup-release_device :
    (c c' d : String) (o : Option String) (m : Store String)
    → c ≢ c'
    → lookup d m ≡ some c'
    → lookup d (release_device c o m) ≡ some c'
unfolding release_device
lookup-release_device c c' d none m n e = e
lookup-release_device c c' d (some x) m n e =
    ground (arith, eq_iff c' c, eq_iff x d, lookup-erase x d m)

pub unregister-IsOwned :
    (c : String) (r : ConnectionRegistry) → IsOwned r → IsOwned (unregister c r).0
unfolding unregister
unregister-IsOwned c r h = elim (Option-cases (lookup c r.conns)) [
  | inl e ↦ rw (e, unregister) h
  | inr (conn, e) ↦
      rw (e, unregister)
        (record {
          indexed = λ c' d conn' f g. ground (
            arith,
            eq_iff c c',
            lookup-erase c c' r.conns,
            h.indexed c' d conn',
            lookup-release_device c c' d conn.device_id r.by_device,
          );
        })
]

pub bind-IsOwned :
    (c : String) (role : DeviceRole) (d : String) (r : ConnectionRegistry)
    → IsOwned r
    → IsOwned (bind c role d r).0
unfolding bind
bind-IsOwned c role d r h = elim (Option-cases (lookup c r.conns)) [
  | inl e ↦ record { indexed = λ c' d' conn' f g. ground (arith, h.indexed c' d' conn') }
  | inr (conn, e) ↦ record {
    indexed = λ c' d' conn' f g. ground (
      arith,
      eq_iff c c',
      eq_iff d d',
      eq_iff c' c,
      lookup-insert c c' (record conn { role = some role; device_id = some d }) r.conns,
      lookup-insert d d' c r.by_device,
      h.indexed c' d' conn',
      has-lookup c' r.conns conn',
    );
  }
]

-- The calls that change a registry.
pub data Change : ConnectionRegistry → ConnectionRegistry → Type 0 where
  registers : (c : String) (now : ℕ) (r : ConnectionRegistry) → Change r (register c now r)
  binds :
      (c : String) (role : DeviceRole) (d : String) (r : ConnectionRegistry)
      → Change r (bind c role d r).0
  touches : (c : String) (now : ℕ) (r : ConnectionRegistry) → Change r (touch c now r)
  unregisters : (c : String) (r : ConnectionRegistry) → Change r (unregister c r).0

pub data History : ConnectionRegistry → Type 0 where
  start : History (record { conns = []; by_device = [] })
  after : {r s : ConnectionRegistry} → History r → Change r s → History s

Change-IsOwned : {r s : ConnectionRegistry} → Change r s → IsOwned r → IsOwned s
Change-IsOwned (registers c now r) h = register-IsOwned c now r h
Change-IsOwned (binds c role d r) h = bind-IsOwned c role d r h
Change-IsOwned (touches c now r) h = touch-IsOwned c now r h
Change-IsOwned (unregisters c r) h = unregister-IsOwned c r h

pub History-IsOwned : {r : ConnectionRegistry} → History r → IsOwned r
unfolding lookup
History-IsOwned start = record { indexed = λ c d conn f g. cc }
History-IsOwned (after p s) = Change-IsOwned s (History-IsOwned p)

-- After any calls whatever, two live connections that are bound to one device are the same
-- connection.
pub one_connection_per_device :
    {r : ConnectionRegistry} (p : History r) (c c' d : String) (x y : RegisteredConnection)
    → lookup c r.conns ≡ some x
    → x.device_id ≡ some d
    → lookup c' r.conns ≡ some y
    → y.device_id ≡ some d
    → c ≡ c'
one_connection_per_device p c c' d x y e f e' f' =
    let h = History-IsOwned p in cc (h.indexed c d x e f, h.indexed c' d y e' f')
