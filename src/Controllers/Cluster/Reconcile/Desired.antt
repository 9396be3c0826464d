-- ===== src/Controllers/Cluster/Reconcile/Desired.antt =====
-- That `reconcileCluster` brings about the objects that a cluster asks for.
use postgres_cluster_operato.Controllers.Cluster.Reconcile.Wanted.{
  set_template, parsed, secret_template, desired, instance_objects, config_template,
  quantity_or_empty, monitoring_objects,
}
use postgres_cluster_operato.Utils.Crypto.Faults.{generate_password-Blames}
use postgres_cluster_operato.Kube.Faults.{
  Blames-reference, Blames-pure, Blames-within, Blames-parse, Blames-must_parse, Blames,
  Blames-bind,
}
use postgres_cluster_operato.Utils.Crypto.Draws.{generate_password-Emits}
use postgres_cluster_operato.Controllers.Cluster.Reconcile.{reconcile_instances, reconcile_cluster}
use mathlib.Core.Path.{subst}
use postgres_cluster_operato.Kube.Returns.{
  Returns-weaken, Returns-handle_when, Returns-raise, Returns-pure,
}
use postgres_cluster_operato.Kube.Ensures.Rules.{
  Ensures-bind, Ensures-Reads, Ensures-bind_when, Ensures-within, Ensures-if, Ensures-when,
}
use postgres_cluster_operato.Kube.Ensures.Writes.{
  owned-Ensures, reference-IsOwned, reference-Reads, Ensures-create_or_update, owned_within-Ensures,
  lift-Returns,
}
use postgres_cluster_operato.Controllers.Cluster.Sets.{
  instance_stateful_set, or_cluster, reconcile_instance_stateful_set, reconcile_instance,
}
use postgres_cluster_operato.Api.Meta.{ObjectMeta}
use postgres_cluster_operato.Kube.Ensures.{want, Want, Ensures, Reads, IsOwned}
use postgres_cluster_operato.Kube.Pods.{Quantity}
use postgres_cluster_operato.Controllers.Cluster.Credentials.{reconcile_secret, user_passwords}
use postgres_cluster_operato.Kube.Objects.{Secret}
use postgres_cluster_operato.Utils.Crypto.{generate_password}
use postgres_cluster_operato.Controllers.Cluster.Config.{reconcile_config_map}
use postgres_cluster_operato.Common.{
  List, String, Dict, ◌≡◌, ℤ, ◌∷◌, if◌then◌else◌, [], arith, refl, insert, sym, ap,
}
use postgres_cluster_operato.Controllers.Cluster.Services.{
  reconcile_instance_service, metrics_service, instance_service, reconcile_monitoring,
}
use postgres_cluster_operato.Kube.Emits.{
  emits_rules, Returns, Emits, Emits-handle, Emits-pure, Emits-bind, Emits-raise,
}
use postgres_cluster_operato.Api.Cluster.{PostgresCluster, PostgresInstanceSpec, DatabaseAccess}
use postgres_cluster_operato.Kube.Env.{
  Env, ok, config_map, secret, service, postgres_cluster, panicked, stateful_set, Kind,
}
use postgres_cluster_operato.Kube.Resources.{create_or_update}
use postgres_cluster_operato.Kube.Action

ruleset rules = (emits_rules, tt)

module _ ⦃env : Env⦄ where
  password-Reads :
      (context : String) (n : ℤ) → Emits Reads (Action.within context (generate_password n))
  password-Reads context n =
      Emits-handle _ _ _ (generate_password-Emits (λ k. tt) n) (λ e. Emits-raise _)
        (λ a. Emits-pure _)

  passwords-Reads :
      (users : Dict String) (access : List DatabaseAccess)
      → Emits Reads (user_passwords users access)
  unfolding user_passwords
  passwords-Reads users [] = Emits-pure _
  passwords-Reads users (a ∷ rest) =
      Emits-bind _ _ (password-Reads _ _) (λ p. passwords-Reads (insert a.username p users) rest)

  password-Blames :
      {owner_kind : Kind} {owner : ObjectMeta} (context : String) (n : ℤ)
      → Blames env owner_kind owner (Action.within context (generate_password n))
  password-Blames context n = Blames-within _ _ (generate_password-Blames n)

  passwords-Blames :
      {owner_kind : Kind} {owner : ObjectMeta} (users : Dict String) (access : List DatabaseAccess)
      → Blames env owner_kind owner (user_passwords users access)
  unfolding user_passwords
  passwords-Blames users [] = Blames-pure _
  passwords-Blames users (a ∷ rest) =
      Blames-bind _ _ (password-Blames _ _) (λ p. passwords-Blames (insert a.username p users) rest)

  abbrev Brings : {A : Type 0} → PostgresCluster → List Want → Action.Action A → Type 0
  Brings c = Ensures env postgres_cluster c.metadata

  config_map-Brings :
      (c : PostgresCluster)
      → Brings c (want config_map (config_template c) ∷ []) (reconcile_config_map c)
  unfolding reconcile_config_map
  config_map-Brings c = owned-Ensures _ _ config_map (config_template c)

  credentials-Brings :
      (c : PostgresCluster) (s : Secret)
      → s.metadata ≡ (secret_template c).metadata
      → Brings c (want secret (secret_template c) ∷ []) (
          Action.◌>>=◌
            (Action.set_controller_reference postgres_cluster c.metadata secret s)
            (create_or_update secret))
  credentials-Brings c s e =
      Ensures-bind_when (IsOwned env postgres_cluster c.metadata (want secret (secret_template c)))
        [] (want secret (secret_template c) ∷ []) _ _
        (Returns-weaken _ _
          (λ o i. record {
            referenced =
                subst (λ m. env.controller_reference postgres_cluster c.metadata m ≡ ok o.metadata)
                  e i.referenced;
            filled = tt;
          })
          (reference-IsOwned postgres_cluster c.metadata secret s))
        (Ensures-Reads _ (reference-Reads postgres_cluster c.metadata secret s)
          (Blames-reference secret s))
        (Ensures-create_or_update (want secret (secret_template c)))

  secret-Brings :
      (c : PostgresCluster) → Brings c (want secret (secret_template c) ∷ []) (reconcile_secret c)
  unfolding reconcile_secret
  secret-Brings c =
      Ensures-bind [] _ _ _ (Ensures-Reads _ (password-Reads _ _) (password-Blames _ _)) λ p.
        Ensures-bind [] _ _ _ (Ensures-Reads _ (password-Reads _ _) (password-Blames _ _)) λ q.
          Ensures-bind [] _ _ _
            (Ensures-Reads _ (passwords-Reads [] c.spec.database.access)
              (passwords-Blames [] c.spec.database.access))
            λ users. credentials-Brings c _ refl

  service-Brings :
      (c : PostgresCluster) (i : PostgresInstanceSpec)
      → Brings c (want service (instance_service c i) ∷ []) (reconcile_instance_service c i)
  unfolding reconcile_instance_service
  service-Brings c i = owned-Ensures _ _ service (instance_service c i)

  parse-Returns :
      (context text : String)
      → Returns
          (λ q. q ≡ parsed env text)
          (Action.within context (Action.lift (env.parse_quantity text)))
  parse-Returns context text =
      Returns-handle_when (λ q. env.parse_quantity text ≡ ok q) _ _ _ (lift-Returns _)
        (λ e. Returns-raise _) (λ q e. Returns-pure q (sym (ap quantity_or_empty e)))

  panic-Returns : (Q : Quantity → Type 0) → Returns Q (Action.lift panicked)
  panic-Returns Q = Returns-weaken (λ a. panicked ≡ ok a) _ (λ q e. ground arith) (lift-Returns _)

  must_parse-Returns : (text : String) → Returns (λ q. q ≡ parsed env text) (Action.must_parse text)
  must_parse-Returns text =
      Returns-handle_when (λ q. env.parse_quantity text ≡ ok q) _ _ _ (lift-Returns _)
        (λ e. panic-Returns _) (λ q e. Returns-pure q (sym (ap quantity_or_empty e)))

  -- The quantities of the spec, as they are parsed.
  set_of_parsed :
      (c : PostgresCluster) (i : PostgresInstanceSpec) (cpu memory size : Quantity)
      → cpu ≡ parsed env (or_cluster i.resources c.spec.resources).cpu
      → memory ≡ parsed env (or_cluster i.resources c.spec.resources).memory
      → size ≡ parsed env (or_cluster i.storage c.spec.storage).size
      → instance_stateful_set c i cpu memory size ≡ set_template env c i
  set_of_parsed c i cpu memory size p q r = rw (p, q, r)

  stateful_set-Brings :
      (c : PostgresCluster) (i : PostgresInstanceSpec)
      → Brings c
          (want stateful_set (set_template env c i) ∷ [])
          (reconcile_instance_stateful_set c i)
  unfolding reconcile_instance_stateful_set
  stateful_set-Brings c i =
      Ensures-bind_when _ [] _ _ _ (parse-Returns _ _)
        (Ensures-Reads _ (search rules) (Blames-within _ _ (Blames-parse _)))
        λ cpu p.
          Ensures-bind_when _ [] _ _ _ (parse-Returns _ _)
            (Ensures-Reads _ (search rules) (Blames-within _ _ (Blames-parse _)))
            λ memory q.
              Ensures-bind_when _ [] _ _ _ (must_parse-Returns _)
                (Ensures-Reads _ (search rules) (Blames-must_parse _))
                λ size r.
                  subst
                    (λ t. Brings c (want stateful_set t ∷ []) (
                      Action.◌>>=◌
                        (Action.within "failed to set controller reference" (
                          Action.set_controller_reference postgres_cluster c.metadata stateful_set
                            (instance_stateful_set c i cpu memory size)))
                        (λ o.
                          Action.within "failed to create/update StatefulSet"
                            (create_or_update stateful_set o))))
                    (set_of_parsed c i cpu memory size p q r)
                    (owned_within-Ensures _ _ stateful_set
                      (instance_stateful_set c i cpu memory size) _ _)

  instances-Brings :
      (c : PostgresCluster) (is : List PostgresInstanceSpec)
      → Brings c (instance_objects env c is) (reconcile_instances c is)
  unfolding reconcile_instances reconcile_instance
  instances-Brings c [] = Ensures-Reads _ (Emits-pure tt) (Blames-pure tt)
  instances-Brings c (i ∷ is) =
      Ensures-bind
        (want service (instance_service c i) ∷ want stateful_set (set_template env c i) ∷ [])
        (instance_objects env c is) _ _
        (Ensures-within _ _ _ (
          Ensures-bind (want service (instance_service c i) ∷ []) _ _ _ (service-Brings c i)
            (λ _. stateful_set-Brings c i)))
        (λ _. instances-Brings c is)

  monitoring-Brings :
      (c : PostgresCluster)
      → Brings c
          (if c.spec.monitoring.prometheus.enabled
            then want service (metrics_service c) ∷ []
            else [])
          (reconcile_monitoring c)
  unfolding reconcile_monitoring
  monitoring-Brings c =
      Ensures-if c.spec.monitoring.prometheus.enabled _ [] _ _
        (owned-Ensures _ _ service (metrics_service c))
        (Ensures-Reads _ (Emits-pure tt) (Blames-pure tt))

  -- reconcileCluster implements the list of the objects that a cluster asks for, which are the
  -- config map with the generated settings, the credentials secret, a service and a stateful set
  -- for each instance in order, and the metrics service where monitoring asks for it. Where it
  -- succeeds, each of them has been owned by the cluster and then, with success, in this order and
  -- with no other write, created as it is where it was not found, or updated where it was, at the
  -- version that was found: a service and a stateful set as they are, the config map and the
  -- secret with the contents that are stored and not with the new ones. Where it fails, that holds
  -- of the list up to some place; then either one more write, for the next object, was sent and
  -- refused, or nothing more was written, and the last lookup was answered otherwise than with an
  -- object or that there is none, the last draw of a random number gave none below its bound, an
  -- object cannot be given the owner or a quantity cannot be parsed. Of the secret that is created
  -- it states only the metadata.
  pub reconcile_cluster-Ensures :
      (c : PostgresCluster)
      → Ensures env postgres_cluster c.metadata (desired env c) (reconcile_cluster c)
  unfolding reconcile_cluster
  reconcile_cluster-Ensures c =
      Ensures-bind (want config_map (config_template c) ∷ []) _ _ _
        (Ensures-within _ _ _ (config_map-Brings c))
        λ _.
          Ensures-bind (want secret (secret_template c) ∷ []) _ _ _
            (Ensures-within _ _ _ (secret-Brings c))
            λ _.
              Ensures-bind (instance_objects env c c.spec.instances) (monitoring_objects c) _ _
                (instances-Brings c c.spec.instances)
                λ _.
                  Ensures-when c.spec.monitoring.enabled _ _
                    (Ensures-within _ _ _ (monitoring-Brings c))
