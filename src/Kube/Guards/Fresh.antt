-- ===== src/Kube/Guards/Fresh.antt =====
-- Jobs that are created only where none of their name has been created before.
use postgres_cluster_operato.Kube.Emits.{DeletesNothing}
use postgres_cluster_operato.Kube.Ensures.{IsSuccess}
use postgres_cluster_operato.Common.{◌≡◌, ◌∷◌, arith}
use mathlib.Core.Path.{subst}
use postgres_cluster_operato.Kube.Resources.{key_of}
use postgres_cluster_operato.Kube.Objects.{Job}
use postgres_cluster_operato.Kube.Ensures.Again.{Keeps, IsPresent}
use postgres_cluster_operato.Api.Meta.{NamespacedName}
use postgres_cluster_operato.Kube.Env.{Env, History, Error, Call, a_job, job, err}

module _ (env : Env) where
  -- A job of the name was created with success, and nothing was deleted since.
  pub data WasCreated (key : NamespacedName) : History → Type 0 where
    now :
        {p : History} (j : Job)
        → key_of j.metadata ≡ key
        → IsSuccess (env.on_create p (a_job j))
        → WasCreated key (Call.create (a_job j) ∷ p)
    before : {p : History} (c : Call) → DeletesNothing c → WasCreated key p → WasCreated key (c ∷ p)

  -- A created job is the first of its name; every other call may come at any time.
  abbrev pub IsFresh : History → Call → Type 0
  IsFresh p (Call.create (a_job j)) = ¬ (WasCreated (key_of j.metadata) p)
  IsFresh p _ = Unit

module _ {env : Env} (keeps : Keeps env) where
  renamed :
      (key k : NamespacedName) {p : History}
      → key ≡ k
      → IsPresent env job key p
      → IsPresent env job k p
  renamed key k {p} e = subst (λ n. IsPresent env job n p) e

  created-IsPresent :
      (key : NamespacedName) {p : History} → WasCreated env key p → IsPresent env job key p
  created-IsPresent key (now j e s) = renamed (key_of j.metadata) key e (keeps.found _ job j s)
  created-IsPresent key (before c d w) = keeps.stays _ job key c d (created-IsPresent key w)

  -- A job that the server does not know was not created.
  pub missing-WasCreated :
      (key : NamespacedName) (p : History) (e : Error)
      → env.on_get p job key ≡ err e
      → ¬ (WasCreated env key (Call.get job key ∷ p))
  missing-WasCreated key p e q (before c d w) =
      let f = created-IsPresent key w in absurd (ground arith)

-- A call that creates no job.
abbrev pub CreatesNoJob : Call → Type 0
CreatesNoJob (Call.create (a_job j)) = ⊥
CreatesNoJob _ = Unit

pub CreatesNoJob-IsFresh : (env : Env) (p : History) (c : Call) → CreatesNoJob c → IsFresh env p c
CreatesNoJob-IsFresh env p (Call.create (a_job j)) q = elim q [ ]
CreatesNoJob-IsFresh env p _ q = tt
