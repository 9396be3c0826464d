-- ===== src/Controllers/Cluster/Defaults/Filled.antt =====
-- Defaults that are filled in.
use postgres_cluster_operato.Api.Cluster.{PostgresCluster}
use postgres_cluster_operato.Controllers.Cluster.Defaults.{or_default, or_number, set_defaults}
use postgres_cluster_operato.Common.{
  ℤ, String, ◌==◌, ◌≡◌, Bool-cases, arith, false, int_beq_iff, inl, inr, pos, string_eq, eq_iff,
  refl,
}

pub or_default-filled :
    (field default : String) → (default == "") ≡ false → (or_default field default == "") ≡ false
or_default-filled field default d = elim (Bool-cases (field == "")) [
  | inl e ↦ simp e d
  | inr e ↦ simp (e, e) refl
]

pub or_default-twice :
    (field default : String)
    → or_default (or_default field default) default ≡ or_default field default
or_default-twice field default = ground (arith, eq_iff field "", eq_iff default "")

pub or_number-twice :
    (field default : ℤ) → or_number (or_number field default) default ≡ or_number field default
or_number-twice field default =
    ground (arith, int_beq_iff field (pos 0), int_beq_iff default (pos 0))

-- setDefaults of a cluster done twice is setDefaults done once, and leaves none of the texts that
-- it looks at empty.
set_defaults-twice :
    (c : PostgresCluster)
    → (set_defaults (set_defaults c) ≡ set_defaults c)
      × (((set_defaults c).spec.postgres_version == "") ≡ false)
      × (((set_defaults c).spec.database.name == "") ≡ false)
      × (((set_defaults c).spec.storage.size == "") ≡ false)
      × (((set_defaults c).spec.resources.cpu == "") ≡ false)
      × (((set_defaults c).spec.resources.memory == "") ≡ false)
unfolding set_defaults
set_defaults-twice c = (
  rw
      (
        or_number-twice c.spec.replicas (pos 1),
        or_default-twice c.spec.postgres_version "15",
        or_default-twice c.spec.database.name "postgres",
        or_default-twice c.spec.storage.size "10Gi",
        or_default-twice c.spec.resources.cpu "500m",
        or_default-twice c.spec.resources.memory "1Gi",
        or_number-twice c.spec.high_availability.failover_timeout (pos 30),
      )
      refl,
  or_default-filled c.spec.postgres_version "15" refl,
  or_default-filled c.spec.database.name "postgres" refl,
  or_default-filled c.spec.storage.size "10Gi" refl,
  or_default-filled c.spec.resources.cpu "500m" refl,
  or_default-filled c.spec.resources.memory "1Gi" refl,
)
