-- ===== src/Tests/Manager.antt =====
-- The theorem on the process, applied.
use postgres_cluster_operato.Kube.Env.{ok}
use postgres_cluster_operato.Manager.{Host, process, default_flags}
use postgres_cluster_operato.Manager.Start.{IsSound, IsPlain, process-IsSound}

-- A host on which nothing fails.
abbrev healthy : Host
healthy = record { parse_flags = λ flags. flags; answer = λ past r. ok tt }

process-IsSound_example :
    IsSound healthy (process healthy) × IsPlain (healthy.parse_flags default_flags)
process-IsSound_example = process-IsSound healthy
