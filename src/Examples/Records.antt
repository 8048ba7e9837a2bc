-- ===== src/Examples/Records.antt =====
-- The theorems about the registries and the limiters of the signaling service.
use remotetab.Prelude.{String, none, some, [], ◌∷◌, ◌≡◌, refl, arith}
use remotetab.Store.{lookup, insert, has}
use remotetab.Protocol.Messages.{desktop}
use remotetab.Signaling.Registry.{RegisteredConnection, ConnectionRegistry, register, bind, taken}
use remotetab.Signaling.Registry.Ownership.{
  History, start, after, registers, binds, one_connection_per_device,
}
use remotetab.Signaling.Devices.{Device}
use remotetab.Signaling.Devices.Continuity.{Continues, run, run-Continues, enrolls, revokes}
use remotetab.Signaling.RateLimit.{DeviceRateLimiter}
use remotetab.Signaling.RateLimit.Frames.{grants, ideal, new_limiter, grants-new_limiter}

abbrev no_connection : ConnectionRegistry
no_connection = record { conns = []; by_device = [] }

abbrev bound : RegisteredConnection
bound = record { conn_id = "c1"; role = some desktop; device_id = some "laptop"; last_seen_ms = 0 }

abbrev at_door : ConnectionRegistry
at_door = (bind "c1" desktop "laptop" (register "c1" 0 no_connection)).0

at_door_live : lookup "c1" at_door.conns ≡ some bound
unfolding register bind taken lookup insert has
at_door_live = refl

at_door_history : History at_door
at_door_history =
    after (after start (registers "c1" 0 no_connection))
      (binds "c1" desktop "laptop" (register "c1" 0 no_connection))

one_connection_per_device_example : ◌≡◌ {A = String} "c1" "c1"
one_connection_per_device_example =
    one_connection_per_device at_door_history "c1" "c1" "laptop" bound bound at_door_live refl
      at_door_live refl

abbrev pixel : Device
pixel = record {
  public_key_spki = "key";
  fingerprint = "print";
  display_name = none;
  revoked_at_ms = none;
}

enrolled_pixel : lookup "phone" (("phone", pixel) ∷ []) ≡ some pixel
unfolding lookup
enrolled_pixel = refl

run-Continues_example :
    (r : Device) × (lookup "phone" (
        run
          (("phone", pixel) ∷ [])
          (revokes "phone" 5 ∷ enrolls "phone" "other" "other" none ∷ revokes "phone" 9 ∷ []))
      ≡ some r)
    × Continues pixel r
run-Continues_example =
    run-Continues (("phone", pixel) ∷ [])
      (revokes "phone" 5 ∷ enrolls "phone" "other" "other" none ∷ revokes "phone" 9 ∷ []) "phone"
      pixel enrolled_pixel

grants-new_limiter_example :
    grants (new_limiter 2 10) (1 ∷ 2 ∷ 3 ∷ 12 ∷ []) ≡ ideal 2 10 [] (1 ∷ 2 ∷ 3 ∷ 12 ∷ [])
grants-new_limiter_example = grants-new_limiter 2 10 (1 ∷ 2 ∷ 3 ∷ 12 ∷ []) (
  (omega arith, (omega arith, (omega arith, tt))),
  ((omega arith, (omega arith, tt)), ((omega arith, tt), (tt, tt))),
)

abbrev two_a_minute : DeviceRateLimiter
two_a_minute = record { windows = []; max_per_window = 2; window_ms = 60; max_keys = 100 }
