-- ===== src/MobileWeb/Gesture/Taps.antt =====
-- apps/mobile-web/src/lib/gesture.ts: what a whole touch comes to, from down over any samples to up.
use remotetab.Prelude.{
  ℕ, ◌-◌, ◌≡◌, refl, ap, Bool, true, false, not, ◌&&◌, ◌||◌, Option, some, List, [], ◌∷◌, arith,
  leb, Bool-cases, inl, inr, if◌then◌else◌,
}
use remotetab.MobileWeb.Gesture.{
  pointer, TouchPoint, GestureEvent, tap, drag_end, nothing, GestureClassifier, drag_slop_px,
  tap_max_ms, tap_max_slop_px, is_within, is_second, pointer_down, reset, move, move_in, drag_to,
  up, up_in, tap_at,
}

-- The classifier after some samples.
unfoldable pub moves : ℕ → List TouchPoint → GestureClassifier → GestureClassifier
moves unit [] g = g
moves unit (p ∷ ps) g = moves unit ps (move unit p g).0

-- A sample lies beyond the drag threshold.
unfoldable pub strays : ℕ → TouchPoint → List TouchPoint → Bool
strays unit down [] = false
strays unit down (p ∷ ps) = not (is_within unit drag_slop_px down p) || strays unit down ps

-- The classifier in pointer mode while a finger is down.
unfoldable touched : TouchPoint → TouchPoint → Bool → Option TouchPoint → GestureClassifier
touched down from dragged last_tap = record {
  down_point = some down;
  last = some from;
  dragged = dragged;
  last_tap = last_tap;
  mode = pointer;
}

-- A tap if the touch was short and ended nearby.
unfoldable pub tap_of : ℕ → TouchPoint → TouchPoint → Option TouchPoint → GestureEvent
tap_of unit down q last_tap =
    if leb (q.t - down.t) tap_max_ms && is_within unit tap_max_slop_px down q
    then tap q (if is_second unit q last_tap then 2 else 1)
    else nothing

-- What the touch comes to: a drag's end once a sample has strayed, else a tap or nothing.
unfoldable pub outcome :
    ℕ → TouchPoint → TouchPoint → List TouchPoint → Option TouchPoint → GestureEvent
outcome unit down q ps last_tap =
    if strays unit down ps then drag_end q else tap_of unit down q last_tap

-- In pointer mode the samples leave it so, but for the last sample and whether one has strayed.
IsTouched : TouchPoint → Bool → Option TouchPoint → GestureClassifier → Type 0
IsTouched down dragged last_tap g = (from : TouchPoint) × (g ≡ touched down from dragged last_tap)

pointer_down-touched :
    (down : TouchPoint) (g : GestureClassifier)
    → g.mode ≡ pointer
    → pointer_down down g ≡ touched down down false g.last_tap
unfolding pointer_down reset touched
pointer_down-touched down g e =
    ap
      (λ mode. record {
        down_point = some down;
        last = some down;
        dragged = false;
        last_tap = g.last_tap;
        mode = mode;
      })
      e

move-IsTouched :
    (unit : ℕ) (down from p : TouchPoint) (dragged : Bool) (last_tap : Option TouchPoint)
    → IsTouched down
        (dragged || not (is_within unit drag_slop_px down p))
        last_tap
        (move unit p (touched down from dragged last_tap)).0
unfolding move move_in drag_to touched IsTouched
move-IsTouched unit down from p true last_tap = (p, refl)
move-IsTouched unit down from p false last_tap =
    elim (Bool-cases (is_within unit drag_slop_px down p)) [
      | inl e ↦ (p, rw (e))
      | inr e ↦ (from, rw (e))
    ]

or_false : (a : Bool) → (a || false) ≡ a
or_false true = refl
or_false false = refl

assoc : (a b c : Bool) → ((a || b) || c) ≡ (a || (b || c))
assoc true b c = refl
assoc false b c = refl

moves-IsTouched :
    (unit : ℕ) (down from : TouchPoint) (ps : List TouchPoint) (dragged : Bool)
    (last_tap : Option TouchPoint)
    → IsTouched down
        (dragged || strays unit down ps)
        last_tap
        (moves unit ps (touched down from dragged last_tap))
unfolding moves strays IsTouched
moves-IsTouched unit down from [] dragged last_tap = (from, rw (or_false dragged))
moves-IsTouched unit down from (p ∷ ps) dragged last_tap =
    let m = move-IsTouched unit down from p dragged last_tap in
    let k =
      moves-IsTouched unit down m.0 ps (dragged || not (is_within unit drag_slop_px down p))
        last_tap in
    (k.0, rw (m.1, k.1, assoc dragged _ _))

up-touched :
    (unit : ℕ) (down from q : TouchPoint) (dragged : Bool) (last_tap : Option TouchPoint)
    → (up unit q (touched down from dragged last_tap)).1
      ≡ (if dragged then drag_end q else tap_of unit down q last_tap)
unfolding up up_in tap_at touched tap_of
up-touched unit down from q true last_tap = refl
up-touched unit down from q false last_tap = ground arith

-- In pointer mode, over any samples: a touch ends a drag exactly if a sample lay more than 8 pixels
-- from where it began; otherwise it is a tap if it was short and ended within 10 pixels, a double
-- one if it follows the last tap soon and near, and nothing if not.
pub touch-outcome :
    (unit : ℕ) (down q : TouchPoint) (ps : List TouchPoint) (g : GestureClassifier)
    → g.mode ≡ pointer
    → (up unit q (moves unit ps (pointer_down down g))).1 ≡ outcome unit down q ps g.last_tap
unfolding IsTouched outcome
touch-outcome unit down q ps g e =
    let k = moves-IsTouched unit down down ps false g.last_tap in
    rw (
      pointer_down-touched down g e,
      k.1,
      up-touched unit down k.0 q (strays unit down ps) g.last_tap,
    )
