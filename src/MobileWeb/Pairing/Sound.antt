-- ===== src/MobileWeb/Pairing/Sound.antt =====
-- The invariant of a pairing session, and what keeps it: waiting, stopping and settling.
use remotetab.Prelude.{
  ◌≡◌, ◌⊎◌, inl, inr, ℕ, String, Bool, true, false, Option, none, some, List, [], ◌∷◌, str_eq, All,
  All-append, Bool-cases, ◌then_call◌,
}
use remotetab.MobileWeb.Pairing.{
  PairedDesktop, PairingResult, succeeded, forget_desktop, store_desktop,
}
use remotetab.MobileWeb.Pairing.Session.{
  Flight, hashing, storing, stored, forgetting, PairAct, settles, PairingSession, PairingContext,
  wait, stop, settle, detach,
}

-- The key and the fingerprint of the QR code, and the key has that fingerprint.
pub record IsAnchored (ctx : PairingContext) (d : PairedDesktop) : Type 0 where
  pub key : d.public_key_spki ≡ ctx.payload.desktop_spki
  pub fingerprint : d.fingerprint ≡ ctx.payload.desktop_fingerprint
  pub hashed : ctx.fingerprint_of ctx.payload.desktop_spki ≡ some ctx.payload.desktop_fingerprint

-- Only such a desktop is reported as paired.
abbrev pub IsHonest : PairingContext → PairAct → Type 0
IsHonest ctx (settles (succeeded d)) = IsAnchored ctx d
IsHonest ctx _ = Unit

module _ (ctx : PairingContext) (Known : PairedDesktop → Type 0) where
  abbrev pub IsFine : PairedDesktop → Type 0
  IsFine d = Known d ⊎ IsAnchored ctx d

  abbrev pub IsFineFlight : Option Flight → Type 0
  IsFineFlight (some (hashing a)) = a.public_key_fingerprint ≡ ctx.payload.desktop_fingerprint
  IsFineFlight (some (storing d listed)) = IsAnchored ctx d × All IsFine listed
  IsFineFlight (some (stored d)) = IsAnchored ctx d
  IsFineFlight (some (forgetting id listed)) = All IsFine listed
  IsFineFlight _ = Unit

  pub record IsSound (s : PairingSession) : Type 0 where
    pub stored_ones : All IsFine s.desktops
    pub waiting_ones : All IsFineFlight s.waiting

  pub record Keeps (r : PairingSession × List PairAct) : Type 0 where
    pub sound : IsSound r.0
    pub honest : All (IsHonest ctx) r.1

  pub Keeps-then_call :
      (r : PairingSession × List PairAct) (f : PairingSession → PairingSession × List PairAct)
      → Keeps r
      → ((s : PairingSession) → IsSound s → Keeps (f s))
      → Keeps (r then_call f)
  Keeps-then_call (s, acts) f k h =
      let l = h s k.sound in
      record { sound = l.sound; honest = All-append (IsHonest ctx) acts (f s).1 k.honest l.honest }

  pub quiet : (s : PairingSession) → IsSound s → Keeps (s, [])
  quiet s h = record { sound = h; honest = tt }

  pub forget_desktop-IsFine :
      (id : String) (ds : List PairedDesktop) → All IsFine ds → All IsFine (forget_desktop id ds)
  unfolding forget_desktop
  forget_desktop-IsFine id [] h = tt
  forget_desktop-IsFine id (d ∷ ds) (k, h) = elim (Bool-cases (str_eq d.device_id id)) [
    | inl e ↦ rw e (forget_desktop-IsFine id ds h)
    | inr e ↦ rw e (k, forget_desktop-IsFine id ds h)
  ]

  pub store_desktop-IsFine :
      (d : PairedDesktop) (ds : List PairedDesktop)
      → IsAnchored ctx d
      → All IsFine ds
      → All IsFine (store_desktop d ds)
  unfolding store_desktop
  store_desktop-IsFine d ds k h =
      All-append IsFine (forget_desktop d.device_id ds) (d ∷ [])
        (forget_desktop-IsFine d.device_id ds h) (inr k, tt)

  pub wait-Keeps :
      (f : Flight) (s : PairingSession) → IsFineFlight (some f) → IsSound s → Keeps (wait f s)
  unfolding wait
  wait-Keeps f s k h = record {
    sound = record {
      stored_ones = h.stored_ones;
      waiting_ones = All-append IsFineFlight s.waiting (some f ∷ []) h.waiting_ones (k, tt);
    };
    honest = tt;
  }

  pub detach-Keeps :
      (closable : Bool) (socket : Option ℕ) (s : PairingSession)
      → IsSound s
      → Keeps (detach closable socket s)
  unfolding detach
  detach-Keeps closable none s h = quiet s h
  detach-Keeps true (some n) s h = record {
    sound = record { stored_ones = h.stored_ones; waiting_ones = h.waiting_ones };
    honest = (tt, tt);
  }
  detach-Keeps false (some n) s h = record {
    sound = record { stored_ones = h.stored_ones; waiting_ones = h.waiting_ones };
    honest = tt;
  }

  pub settle-Keeps :
      (closable : Bool) (result : PairingResult) (s : PairingSession)
      → IsHonest ctx (settles result)
      → IsSound s
      → Keeps (settle closable result s)
  unfolding settle stop
  settle-Keeps closable result s k h = elim (Bool-cases s.settled) [
    | inl e ↦ simp (settle, e) (quiet s h)
    | inr e ↦
        let once : PairingSession = record s { settled = true } in
        let still : IsSound once = record {
          stored_ones = h.stored_ones;
          waiting_ones = h.waiting_ones;
        } in
        simp (settle, e)
          (Keeps-then_call (detach closable s.socket once) (λ t. (t, settles result ∷ []))
            (detach-Keeps closable s.socket once still)
            (λ t l. record { sound = l; honest = (k, tt) }))
  ]
