-- ===== src/Signaling/System/Pairings.antt =====
-- How frames and closed connections act on settled pairings: those that are consumed, expired,
-- rejected or cancelled.
pub mod Settled
use remotetab.Prelude.{
  String, Bool, true, false, not, Option, none, some, ◌≡◌, ◌≢◌, refl, arith, str_eq, eq_iff, List,
  [], ◌∷◌, Bool-cases, inl, inr, Option-cases, All, if◌then◌else◌,
}
use remotetab.Store.{Store, lookup, lookup-insert, find_value, find_value-some}
use remotetab.Store.Maps.{IsMap, insert-IsMap, find_value-lookup, IsHeld, filter_values-IsHeld}
use remotetab.Signaling.Registry.{unregister}
use remotetab.Signaling.Pairings.{
  Pairing, consumed, expired, cancelled, is_open, create, update, find_open_by_desktop_conn,
  list_open,
}
use remotetab.Signaling.Router.{Router, Context}
use remotetab.Signaling.Router.PairingMoves.{
  PairingMove, same, windowed, joins, expires, decides, dispatch-PairingMove,
}
use remotetab.Signaling.Router.Pair.{supersede, with_phone}
use remotetab.Signaling.Router.Close.{
  cancel_all, handle_conn_closed, evict_stale, pairings_of, filter_list, concerns,
}
use remotetab.Signaling.System.{Event, opens, frames, closes, evicts, step, run, empty_router}

-- The repository is a map from the ids of its pairings.
pub record Kept (m : Store Pairing) : Type 0 where
  pub is_map : IsMap m
  pub keyed : (i : String) (p : Pairing) → lookup i m ≡ some p → p.pair_id ≡ i

update-Kept : (p : Pairing) (m : Store Pairing) → Kept m → Kept (update p m)
unfolding update
update-Kept p m h = record {
  is_map = insert-IsMap p.pair_id p m h.is_map;
  keyed = λ i x e. ground (arith, eq_iff p.pair_id i, lookup-insert p.pair_id i p m, h.keyed i x);
}

lookup-update :
    (i : String) (p q : Pairing) (m : Store Pairing)
    → p.pair_id ≢ i
    → lookup i m ≡ some q
    → lookup i (update p m) ≡ some q
unfolding update
lookup-update i p q m n e = ground (arith, eq_iff p.pair_id i, lookup-insert p.pair_id i p m)

supersede-Kept : (c : String) (m : Store Pairing) → Kept m → Kept (supersede c m)
unfolding supersede
supersede-Kept c m h = elim (Option-cases (find_open_by_desktop_conn c m)) [
  | inl e ↦ rw (e, supersede) h
  | inr (q, e) ↦ rw (e, supersede) (update-Kept (record q { state = cancelled }) m h)
]

module _ (i : String) (p : Pairing) (settled : is_open p.state ≡ false) where
  -- An open pairing of the map has another id.
  open-ne :
      (k : String) (q : Pairing) (m : Store Pairing)
      → Kept m
      → lookup i m ≡ some p
      → lookup k m ≡ some q
      → is_open q.state ≡ true
      → q.pair_id ≢ i
  open-ne k q m h e f o = ground (arith, h.keyed k q f)

  lookup-supersede :
      (c : String) (m : Store Pairing)
      → Kept m
      → lookup i m ≡ some p
      → lookup i (supersede c m) ≡ some p
  unfolding supersede find_open_by_desktop_conn
  lookup-supersede c m h e = elim (Option-cases (find_open_by_desktop_conn c m)) [
    | inl f ↦ rw (f, supersede) e
    | inr (q, f) ↦
        let (k, g) = find_value-lookup _ m q h.is_map f in
        rw (f, supersede)
          (lookup-update i (record q { state = cancelled }) p m
            (open-ne k q m h e g (ground (arith, find_value-some _ m q f))) e)
  ]

  pub PairingMove-settled :
      (ctx : Context) (c : String) {m m' : Store Pairing}
      → PairingMove ctx c m m'
      → Kept m
      → ctx.new_pair_id ≢ i
      → lookup i m ≡ some p
      → lookup i m' ≡ some p
  unfolding create with_phone
  PairingMove-settled ctx c {m} (same f) h n e = rw f e
  PairingMove-settled ctx c {m} (windowed q a b s f) h n e = rw f (
      ground (
        arith,
        eq_iff q.pair_id i,
        lookup-insert q.pair_id i q (supersede c m),
        lookup-supersede c m h e,
      ))
  PairingMove-settled ctx c {m} (joins q j a o t f) h n e =
      rw f (lookup-update i (with_phone c j q) p m (open-ne j.pair_id q m h e a o) e)
  PairingMove-settled ctx c {m} (expires k q a o t f) h n e =
      rw f (lookup-update i (record q { state = expired }) p m (open-ne k q m h e a o) e)
  PairingMove-settled ctx c {m} (decides k q s d a o t f) h n e =
      rw f (lookup-update i (record q { state = s }) p m (open-ne k q m h e a (ground arith)) e)

  abbrev pub Unsettled : Pairing → Type 0
  Unsettled q = q.pair_id ≢ i

  pub lookup-cancel_all :
      (qs : List Pairing) (m : Store Pairing)
      → All Unsettled qs
      → lookup i m ≡ some p
      → lookup i (cancel_all qs m) ≡ some p
  unfolding cancel_all
  lookup-cancel_all [] m a e = e
  lookup-cancel_all (q ∷ qs) m (n, a) e = elim (Bool-cases (is_open q.state)) [
    | inl o ↦
        rw o (lookup-cancel_all qs _ a (lookup-update i (record q { state = cancelled }) p m n e))
    | inr o ↦ rw o (lookup-cancel_all qs m a e)
  ]

  pub held-Unsettled :
      (m : Store Pairing) (qs : List Pairing)
      → Kept m
      → lookup i m ≡ some p
      → All (IsHeld (λ q. is_open q.state) m) qs
      → All Unsettled qs
  held-Unsettled m [] h e a = tt
  held-Unsettled m (q ∷ qs) h e (x, a) =
      (open-ne x.key q m h e x.held x.passes, held-Unsettled m qs h e a)

pub All-filter_list {ℓ κ} :
    {A : Type ℓ} (P : A → Type κ) (t : A → Bool) (xs : List A) → All P xs → All P (filter_list t xs)
unfolding filter_list
All-filter_list P t [] h = tt
All-filter_list P t (x ∷ xs) (p, h) = elim (Bool-cases (t x)) [
  | inl e ↦ rw e (p, All-filter_list P t xs h)
  | inr e ↦ rw e (All-filter_list P t xs h)
]

pub PairingMove-Kept :
    (ctx : Context) (c : String) {m m' : Store Pairing} → PairingMove ctx c m m' → Kept m → Kept m'
unfolding create update
PairingMove-Kept ctx c {m} (same f) h = rw f h
PairingMove-Kept ctx c {m} (windowed q a b s f) h = rw f (update-Kept q _ (supersede-Kept c m h))
PairingMove-Kept ctx c {m} (joins q j a o t f) h = rw f (update-Kept _ m h)
PairingMove-Kept ctx c {m} (expires k q a o t f) h = rw f (update-Kept _ m h)
PairingMove-Kept ctx c {m} (decides k q s d a o t f) h = rw f (update-Kept _ m h)

pub cancel_all-Kept : (qs : List Pairing) (m : Store Pairing) → Kept m → Kept (cancel_all qs m)
unfolding cancel_all
cancel_all-Kept [] m h = h
cancel_all-Kept (q ∷ qs) m h = elim (Bool-cases (is_open q.state)) [
  | inl o ↦ rw o (cancel_all-Kept qs _ (update-Kept (record q { state = cancelled }) m h))
  | inr o ↦ rw o (cancel_all-Kept qs m h)
]

-- The pairings after a connection has closed: cancelled as far as they concern it, or left alone.
pub closed_pairings :
    (P : Store Pairing → Type 0) (conn : String) (st : Router)
    → P st.pairings
    → P (cancel_all (pairings_of conn st) st.pairings)
    → P (handle_conn_closed conn st).0.pairings
unfolding handle_conn_closed
closed_pairings P conn st kept cancelled_all = elim (Option-cases (unregister conn st.registry).1) [
  | inl e ↦ rw (e, handle_conn_closed) kept
  | inr (reg, e) ↦ rw (e, handle_conn_closed) cancelled_all
]
