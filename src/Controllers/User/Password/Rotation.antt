-- ===== src/Controllers/User/Password/Rotation.antt =====
-- When a password is due for a change.
-- The bound on the interval keeps its product with an hour, in nanoseconds, within an int64.
use postgres_cluster_operato.Api.User.{PasswordRotationPolicy}
use postgres_cluster_operato.Api.Meta.{Time}
use postgres_cluster_operato.Controllers.User.Password.{is_due, hour}
use postgres_cluster_operato.Common.{int64, ◌*ℤ◌, ℕ, ◌≡◌, ◌≤◌, pos, true, ◌↔◌, ◌*◌, arith, ◌+◌}

interval_lem : (n : ℕ) → n ≤ 2562047 → int64 (pos n *ℤ hour) ≡ pos (n * 3600000000000)
unfolding int64 ◌*ℤ◌
interval_lem n h = ground arith

-- With an interval of 2562047 hours at most, a password is due for a change exactly once that many
-- hours have gone by since the last change: the int64 product does not wrap.
pub is_due_iff :
    (at last : Time) (policy : PasswordRotationPolicy) (n : ℕ)
    → policy.interval ≡ pos n
    → n ≤ 2562047
    → (is_due at last policy ≡ true) ↔ (last + n * 3600000000000 ≤ at)
unfolding is_due
is_due_iff at last policy n e h = rw e (rw (interval_lem n h) (ground arith))
