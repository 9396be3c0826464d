-- ===== src/Fixtures/Server.antt =====
-- A server that finds what was created on it: the answer to a get is the newest object of the name
-- in the history. Nothing is deleted on it.
use postgres_cluster_operato.Kube.Resources.{key_of}
use postgres_cluster_operato.Fixtures.World.{world}
use postgres_cluster_operato.Common.{
  Option, ◌≡◌, Bool, ◌==◌, some, true, ◌&&◌, if◌then◌else◌, arith, ◌∷◌, eq_refl, string_eq, [],
  none, false, refl,
}
use postgres_cluster_operato.Kube.Ensures.Again.{Keeps}
use postgres_cluster_operato.Api.Meta.{NamespacedName}
use postgres_cluster_operato.Kube.Env.{
  History, Env, Kind, Object, Call, Obj, Result, ok, as_object, a_cluster, err, postgres_cluster,
  a_user, postgres_user, a_backup, postgres_backup, a_restore, metadata_of, a_config_map,
  postgres_restore, a_secret, config_map, a_service, secret, a_stateful_set, service, a_job,
  stateful_set, job, a_claim, persistent_volume_claim,
}

abbrev pick : (k : Kind) → Object → Option (Obj k)
pick postgres_cluster (a_cluster o) = some o
pick postgres_user (a_user o) = some o
pick postgres_backup (a_backup o) = some o
pick postgres_restore (a_restore o) = some o
pick config_map (a_config_map o) = some o
pick secret (a_secret o) = some o
pick service (a_service o) = some o
pick stateful_set (a_stateful_set o) = some o
pick job (a_job o) = some o
pick persistent_volume_claim (a_claim o) = some o
pick _ _ = none

abbrev pub same_key : NamespacedName → NamespacedName → Bool
same_key a b = a.namespace == b.namespace && a.name == b.name

abbrev newest : (k : Kind) → NamespacedName → Option (Obj k) → Result (Obj k) → Result (Obj k)
newest k key none older = older
newest k key (some o) older = if same_key (key_of (metadata_of k o)) key then ok o else older

abbrev stored : History → (k : Kind) → NamespacedName → Result (Obj k)
stored [] k key = err (record { message = "not found"; not_found = true })
stored (Call.create o ∷ h) k key = let older = stored h k key in newest k key (pick k o) older
stored (c ∷ h) k key = stored h k key

abbrev pub server : Env
server = record world { on_get = stored; on_update = λ h k o. ok o }

pick-as_object : (k : Kind) (o : Obj k) → pick k (as_object k o) ≡ some o
pick-as_object postgres_cluster o = refl
pick-as_object postgres_user o = refl
pick-as_object postgres_backup o = refl
pick-as_object postgres_restore o = refl
pick-as_object config_map o = refl
pick-as_object secret o = refl
pick-as_object service o = refl
pick-as_object stateful_set o = refl
pick-as_object job o = refl
pick-as_object persistent_volume_claim o = refl

pub same_key_self : (key : NamespacedName) → same_key key key ≡ true
same_key_self key = ground (arith, eq_refl key.namespace, eq_refl key.name)

newest-IsFound :
    (k : Kind) (key : NamespacedName) (o : Option (Obj k)) (older : Result (Obj k))
    → ((x : Obj k) × (older ≡ ok x))
    → (x : Obj k) × (newest k key o older ≡ ok x)
newest-IsFound k key none older p = p
newest-IsFound k key (some o) older p = by_test (same_key (key_of (metadata_of k o)) key)
  where
    by_test : (b : Bool) → (x : Obj k) × ((if b then ok o else older) ≡ ok x)
    by_test true = (o, refl)
    by_test false = p

stored-stays :
    (h : History) (k : Kind) (key : NamespacedName) (c : Call)
    → ((x : Obj k) × (stored h k key ≡ ok x))
    → (x : Obj k) × (stored (c ∷ h) k key ≡ ok x)
stored-stays h k key (Call.create o) p = newest-IsFound k key (pick k o) _ p
stored-stays h k key _ p = p

created_is_found :
    (h : History) (k : Kind) (o : Obj k)
    → stored (Call.create (as_object k o) ∷ h) k (key_of (metadata_of k o)) ≡ ok o
created_is_found h k o = rw (pick-as_object k o, same_key_self (key_of (metadata_of k o)))

pub server-Keeps : Keeps server
server-Keeps = record {
  found = λ h k o s. (o, created_is_found h k o);
  stays = λ h k key c d p. stored-stays h k key c p;
}
