-- ===== src/Extension/Backoff.antt =====
-- apps/extension/src/backoff.ts.
use Prim.Native.Nat.{min}
use native.Mathlib.Nat.{pow-suc, add-zero, add-suc}
use remotetab.Prelude.{ℕ, zero, suc, ◌+◌, ◌*◌, ◌^◌, ◌≤◌, ◌≡◌, arith}

pub record BackoffPolicy : Type 0 where
  pub attempt : ℕ
  pub base_ms : ℕ
  pub max_ms : ℕ

-- `next()`: the policy after the call, and the delay.
unfoldable pub next : BackoffPolicy → BackoffPolicy × ℕ
next b = (record b { attempt = b.attempt + 1 }, min (b.base_ms * 2 ^ b.attempt) b.max_ms)

unfoldable pub reset : BackoffPolicy → BackoffPolicy
reset b = record b { attempt = 0 }

-- The policy after `n` failed attempts.
pub after_failures : ℕ → BackoffPolicy → BackoffPolicy
after_failures zero b = b
after_failures (suc n) b = after_failures n (next b).0

after_failures-fields :
    (n : ℕ) (b : BackoffPolicy) → after_failures n b ≡ record b { attempt = b.attempt + n }
unfolding after_failures next
after_failures-fields zero b = rw add-zero
after_failures-fields (suc n) b = rw (after_failures-fields n (next b).0) (ground arith)

-- Delays grow from `base_ms` on and never pass `max_ms`; after `reset` they start over.
pub next-bounds :
    (n : ℕ) (b : BackoffPolicy)
    → let d = (next (after_failures n b)).1 in
      (d ≤ b.max_ms)
      × (d ≤ (next (after_failures (suc n) b)).1)
      × ((next (reset (after_failures n b))).1 ≡ min b.base_ms b.max_ms)
unfolding next reset
next-bounds n b =
    rw (after_failures-fields n b, after_failures-fields (suc n) b)
      (bounded, increasing, omega arith)
  where
    bounded : min (b.base_ms * 2 ^ (b.attempt + n)) b.max_ms ≤ b.max_ms
    bounded = omega arith

    increasing :
        min (b.base_ms * 2 ^ (b.attempt + n)) b.max_ms
        ≤ min (b.base_ms * 2 ^ (b.attempt + suc n)) b.max_ms
    increasing = rw (add-suc, pow-suc) (grind arith)
