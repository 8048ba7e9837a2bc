-- ===== src/MobileWeb/Gesture/Normalized.antt =====
-- The classifier on the points that touch-bridge.ts hands it: clientToVideoPoint has divided them by
-- the size of the video, so each coordinate is at most 1, the `unit`.
use remotetab.Prelude.{
  ℕ, ◌-◌, ◌*◌, ◌≤◌, ◌≡◌, refl, true, false, List, [], ◌∷◌, arith, leb, All, if◌then◌else◌,
}
use native.Mathlib.Nat.{mul-le-mul_left, mul-le-mul_right}
use remotetab.MobileWeb.Gesture.{
  pointer, TouchPoint, tap, nothing, GestureClassifier, drag_slop_px, tap_max_ms, tap_max_slop_px,
  gap, is_within, is_second, pointer_down, up,
}
use remotetab.MobileWeb.Gesture.Taps.{moves, strays, outcome, tap_of, touch-outcome}

-- A point of the video, in fractions of its size.
abbrev pub IsNormalized : ℕ → TouchPoint → Type 0
IsNormalized unit p = (p.x ≤ unit) × (p.y ≤ unit)

gap_le : (u a b : ℕ) → a ≤ u → b ≤ u → gap a b ≤ u
gap_le u a b h k = omega arith

square_le : (a b : ℕ) → a ≤ b → a * a ≤ b * b
square_le a b h = omega (arith, mul-le-mul_left a h, mul-le-mul_right b h)

-- No two such points are more than two pixels apart.
normalized-is_within :
    (unit px : ℕ) (a b : TouchPoint)
    → 2 ≤ px
    → IsNormalized unit a
    → IsNormalized unit b
    → is_within unit px a b ≡ true
unfolding is_within
normalized-is_within unit px a b h (ax, ay) (bx, by) =
    let x = square_le (gap a.x b.x) unit (gap_le unit a.x b.x ax bx) in
    let y = square_le (gap a.y b.y) unit (gap_le unit a.y b.y ay by) in
    let z = square_le (2 * unit) (px * unit) (mul-le-mul_right unit h) in ground arith

strays-normalized :
    (unit : ℕ) (down : TouchPoint) (ps : List TouchPoint)
    → IsNormalized unit down
    → All (IsNormalized unit) ps
    → strays unit down ps ≡ false
unfolding strays
strays-normalized unit down [] d h = refl
strays-normalized unit down (p ∷ ps) d (k, h) = rw (
  normalized-is_within unit drag_slop_px down p (omega arith) d k,
  strays-normalized unit down ps d h,
)

-- In pointer mode a touch of which every point is a fraction of the video comes to a tap if it is
-- short in time, wherever the finger went, and to nothing otherwise: never to a drag.
pub touch-normalized :
    (unit : ℕ) (down q : TouchPoint) (ps : List TouchPoint) (g : GestureClassifier)
    → g.mode ≡ pointer
    → IsNormalized unit down
    → IsNormalized unit q
    → All (IsNormalized unit) ps
    → (up unit q (moves unit ps (pointer_down down g))).1 ≡ (
        if leb (q.t - down.t) tap_max_ms
        then tap q (if is_second unit q g.last_tap then 2 else 1)
        else nothing)
unfolding outcome tap_of
touch-normalized unit down q ps g e d u h =
    rw
      (
        touch-outcome unit down q ps g e,
        strays-normalized unit down ps d h,
        normalized-is_within unit tap_max_slop_px down q (omega arith) d u,
      )
      (ground arith)
