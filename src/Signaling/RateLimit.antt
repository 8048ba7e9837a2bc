-- ===== src/Signaling/RateLimit.antt =====
-- apps/signaling/src/rate-limit.ts. Times are milliseconds; the tests of the source are on
-- differences, which can be negative there, so they are written as sums.
pub mod Frames
pub mod Requests
use remotetab.Prelude.{
  ℕ, ◌+◌, ◌≡◌, Bool, true, false, List, [], ◌∷◌, ◌++◌, Option, none, some, String, ltb, leb, length,
  if◌then◌else◌,
}
use remotetab.Store.{Store, lookup, insert}

pub record FrameRateLimiter : Type 0 where
  pub timestamps : List ℕ
  pub max_frames : ℕ
  pub window_ms : ℕ

-- The loop that drops the timestamps older than the window: `now - oldest > window`.
unfoldable pub drop_old : ℕ → ℕ → List ℕ → List ℕ
drop_old now window [] = []
drop_old now window (oldest ∷ rest) =
    let dropped = drop_old now window rest in
    if leb now (oldest + window) then oldest ∷ rest else dropped

-- `FrameRateLimiter.allow(nowMs)`.
unfoldable pub allow_frame : ℕ → FrameRateLimiter → FrameRateLimiter × Bool
allow_frame now l =
    let recent = drop_old now l.window_ms l.timestamps in
    if leb l.max_frames (length recent)
    then (record l { timestamps = recent }, false)
    else (record l { timestamps = recent ++ now ∷ [] }, true)

pub record Window : Type 0 where
  pub start : ℕ
  pub count : ℕ

pub record DeviceRateLimiter : Type 0 where
  pub windows : Store Window
  pub max_per_window : ℕ
  pub window_ms : ℕ
  pub max_keys : ℕ

-- A request that opens a window; a full table is cleared first.
unfoldable pub open_window : String → ℕ → DeviceRateLimiter → DeviceRateLimiter × Bool
open_window key now l =
    let kept = if leb l.max_keys (length l.windows) then [] else l.windows in
    (record l { windows = insert key (record { start = now; count = 1 }) kept }, true)

-- A request inside the window of its key.
unfoldable pub count_request : String → Window → DeviceRateLimiter → DeviceRateLimiter × Bool
count_request key w l = (
  record l { windows = insert key (record w { count = w.count + 1 }) l.windows },
  leb (w.count + 1) l.max_per_window,
)

-- `DeviceRateLimiter.allow(key, nowMs)`; a window is over if `now - start >= window`.
unfoldable pub allow_request : String → ℕ → DeviceRateLimiter → DeviceRateLimiter × Bool
unfolding open_window count_request
allow_request key now l = elim (lookup key l.windows) [
  | none ↦ open_window key now l
  | some w ↦
      if leb (w.start + l.window_ms) now then open_window key now l else count_request key w l
]
