-- ===== src/MobileWeb/Gesture.antt =====
-- apps/mobile-web/src/lib/gesture.ts and touch-bridge.ts. Coordinates are fractions, so they are
-- whole numbers of a small unit, `unit` of them to the pixel of the thresholds; they are not
-- negative. `distance(a, b) <= k` is the comparison of the squares. Times are milliseconds.
pub mod Taps
pub mod Normalized
use remotetab.Prelude.{
  ℕ, ◌+◌, ◌-◌, ◌*◌, leb, ◌==◌, Bool, true, false, not, ◌&&◌, Option, none, some, List, [], ◌∷◌,
  is_none, if◌then◌else◌,
}

pub data Mode : Type 0 where
  pointer scroll : Mode

pub record TouchPoint : Type 0 where
  pub x : ℕ
  pub y : ℕ
  pub t : ℕ

-- `to - from`, as it is.
pub record Difference : Type 0 where
  pub to : ℕ
  pub from : ℕ

pub data GestureEvent : Type 0 where
  tap : TouchPoint → (click_count : ℕ) → GestureEvent
  drag_start drag_move drag_end : TouchPoint → GestureEvent
  wheel : TouchPoint → (delta_x delta_y : Difference) → GestureEvent
  nothing : GestureEvent

pub record GestureClassifier : Type 0 where
  pub down_point : Option TouchPoint
  pub last : Option TouchPoint
  pub dragged : Bool
  pub last_tap : Option TouchPoint
  pub mode : Mode

abbrev pub tap_max_ms : ℕ
tap_max_ms = 300

abbrev pub tap_max_slop_px : ℕ
tap_max_slop_px = 10

abbrev pub double_tap_max_ms : ℕ
double_tap_max_ms = 300

abbrev pub double_tap_max_slop_px : ℕ
double_tap_max_slop_px = 40

abbrev pub drag_slop_px : ℕ
drag_slop_px = 8

abbrev pub gap : ℕ → ℕ → ℕ
gap a b = (a - b) + (b - a)

-- `distance(a, b) <= px`.
unfoldable pub is_within : ℕ → ℕ → TouchPoint → TouchPoint → Bool
is_within unit px a b =
    leb (gap a.x b.x * gap a.x b.x + gap a.y b.y * gap a.y b.y) ((px * unit) * (px * unit))

-- `reset()`.
unfoldable pub reset : GestureClassifier → GestureClassifier
reset g = record g { down_point = none; last = none; dragged = false }

-- `setMode(mode)`.
unfoldable pub set_mode : Mode → GestureClassifier → GestureClassifier
unfolding reset
set_mode mode g = reset (record g { mode = mode })

-- `pointerDown(p)`.
unfoldable pub pointer_down : TouchPoint → GestureClassifier → GestureClassifier
unfolding reset
pointer_down p g = record (reset g) { down_point = some p; last = some p }

-- `move(p)` in scroll mode, from the last sample.
unfoldable pub scroll_to :
    TouchPoint → TouchPoint → GestureClassifier → GestureClassifier × GestureEvent
scroll_to from p g =
    if p.x == from.x && p.y == from.y then (record g { last = some p }, nothing) else (
      record g { last = some p },
      wheel p (record { to = p.x; from = from.x }) (record { to = p.y; from = from.y }),
    )

-- `move(p)` in pointer mode.
unfoldable pub drag_to :
    ℕ → TouchPoint → TouchPoint → GestureClassifier → GestureClassifier × GestureEvent
unfolding is_within
drag_to unit down p g =
    if not g.dragged && not (is_within unit drag_slop_px down p)
    then (record g { dragged = true }, drag_start p)
    else if g.dragged
    then (record g { last = some p }, drag_move p)
    else (record g { last = some p }, nothing)

-- `move(p)` with a down point and a last sample.
unfoldable pub move_in :
    Mode
    → ℕ
    → TouchPoint
    → TouchPoint
    → TouchPoint
    → GestureClassifier
    → GestureClassifier × GestureEvent
unfolding scroll_to drag_to
move_in scroll unit down from p g = scroll_to from p g
move_in pointer unit down from p g = drag_to unit down p g

-- `move(p)`.
unfoldable pub move : ℕ → TouchPoint → GestureClassifier → GestureClassifier × GestureEvent
unfolding move_in
move unit p g = elim g.down_point [
  | none ↦ (g, nothing)
  | some down ↦ elim g.last [ none ↦ (g, nothing) | some from ↦ move_in g.mode unit down from p g ]
]

-- Whether a tap comes soon enough after the last one, and near it.
unfoldable pub is_second : ℕ → TouchPoint → Option TouchPoint → Bool
unfolding is_within
is_second unit p none = false
is_second unit p (some q) =
    leb (p.t - q.t) double_tap_max_ms && is_within unit double_tap_max_slop_px q p

-- `up(p)` where the down point `down` has been cleared and nothing was dragged.
unfoldable pub tap_at :
    ℕ → TouchPoint → TouchPoint → GestureClassifier → GestureClassifier × GestureEvent
unfolding is_second
tap_at unit down p g =
    if leb (p.t - down.t) tap_max_ms && is_within unit tap_max_slop_px down p
    then (if is_second unit p g.last_tap
        then (record g { last_tap = none }, tap p 2)
        else (record g { last_tap = some p }, tap p 1))
    else (g, nothing)

-- `up(p)` by mode, once the down point has been cleared.
unfoldable pub up_in :
    Mode → ℕ → TouchPoint → TouchPoint → GestureClassifier → GestureClassifier × GestureEvent
unfolding tap_at
up_in scroll unit down p g = (record g { last = none }, nothing)
up_in pointer unit down p g =
    if g.dragged then (record g { dragged = false }, drag_end p) else tap_at unit down p g

-- `up(p)`.
unfoldable pub up : ℕ → TouchPoint → GestureClassifier → GestureClassifier × GestureEvent
unfolding up_in
up unit p g = elim g.down_point [
  | none ↦ (g, nothing)
  | some down ↦ up_in g.mode unit down p (record g { down_point = none })
]
