-- ===== src/Fixtures/World.antt =====
-- A world that keeps its promises: it stores the objects of the fixtures, no object is marked for
-- deletion, every write succeeds, and the source of randomness answers with 7, or 0 below that.
use postgres_cluster_operato.Kube.Action.{⊤}
use postgres_cluster_operato.Kube.Resources.{key_of}
use postgres_cluster_operato.Kube.Outcome.{Outcome}
use mathlib.Core.Path.{subst}
use postgres_cluster_operato.Kube.Keys.{MarksOnly, KeepsKey}
use postgres_cluster_operato.Kube.Calm.{IsCalm}
use postgres_cluster_operato.Api.Meta.{new_metadata}
use postgres_cluster_operato.Kube.Objects.{Secret}
use postgres_cluster_operato.Fixtures.{demo, reader, nightly, back, finished_job}
use postgres_cluster_operato.Common.{
  true, if◌then◌else◌, length, ◌==◌, none, [], contains, ◌∷◌, remove, ltb, false, pos, ◌<>◌,
  string_eq, nat_eq, ◌≢◌, arith, refl, ◌≡◌,
}
use postgres_cluster_operato.Kube.Env.{
  Error, Kind, Env, Result, Obj, ok, with_metadata, metadata_of, err, postgres_cluster,
  postgres_user, postgres_backup, postgres_restore, config_map, secret, service, stateful_set, job,
  persistent_volume_claim, panicked,
}

abbrev missing : Error
missing = record { message = "not found"; not_found = true }

abbrev credentials : Secret
credentials = record {
  metadata = new_metadata "db-credentials" "prod" [];
  contents = ("postgres-password", "pw") ∷ ("password", "pw") ∷ [];
}

abbrev stored : (k : Kind) → Result (Obj k)
stored postgres_cluster = ok demo
stored postgres_user = ok reader
stored postgres_backup = ok nightly
stored postgres_restore = ok back
stored config_map = err missing
stored secret = ok credentials
stored service = err missing
stored stateful_set = err missing
stored job = ok finished_job
stored persistent_volume_claim = err missing

-- The object as the server has it after a write: not marked for deletion.
abbrev live : (k : Kind) → Obj k → Obj k
live k o = with_metadata k o (record (metadata_of k o) { deletion_timestamp = none })

instance abbrev pub world : Env
world = record {
  on_get = λ h k key. stored k;
  on_create = λ h o. ok tt;
  on_update = λ h k o. ok (live k o);
  on_update_status = λ h k o. ok (live k o);
  on_delete = λ h k key. if length h == 0 then ok tt else err missing;
  on_list_backups = λ h namespace labels. ok [];
  on_create_or_update = λ h s f. ok tt;
  controller_reference = λ k owner m. ok m;
  contains_finalizer = λ m f. contains f m.finalizers;
  add_finalizer = λ m f. record m { finalizers = f ∷ m.finalizers };
  remove_finalizer = λ m f. record m { finalizers = remove f m.finalizers };
  parse_quantity = λ s. ok (record { canonical = s });
  selector_of = λ l. ok (λ labels. true);
  on_now = λ h. 100;
  on_rand_int = λ h bound. if ltb 7 bound then ok 7 else if ltb 0 bound then ok 0 else err missing;
  on_sql_open = λ h c. ok tt;
  on_sql_ping = λ h c. ok tt;
  on_sql_exec = λ h c q args. ok tt;
  on_query_bool = λ h c q args. ok false;
  on_query_int = λ h c q args. ok (pos 1);
  on_query_text = λ h c q args. ok "app";
  quote_identifier = λ s. "\"" <> s <> "\"";
}

stored-panicked : (k : Kind) → stored k ≢ panicked
stored-panicked postgres_cluster e = ground arith
stored-panicked postgres_user e = ground arith
stored-panicked postgres_backup e = ground arith
stored-panicked postgres_restore e = ground arith
stored-panicked config_map e = ground arith
stored-panicked secret e = ground arith
stored-panicked service e = ground arith
stored-panicked stateful_set e = ground arith
stored-panicked job e = ground arith
stored-panicked persistent_volume_claim e = ground arith

-- The world never panics.
pub world-IsCalm : IsCalm world
world-IsCalm = record {
  on_get = λ h k key. stored-panicked k;
  on_create = λ h o e. ground arith;
  controller_reference = λ k owner m e. ground arith;
  on_sql_open = λ h c e. ground arith;
  on_sql_ping = λ h c e. ground arith;
  on_sql_exec = λ h c q args e. ground arith;
  on_query_bool = λ h c q args e. ground arith;
  on_query_text = λ h c q args e. ground arith;
}

-- It keeps the names and namespaces of objects.
pub world-KeepsKey : KeepsKey world
world-KeepsKey = record {
  kept = λ k owner m m' e. subst (Outcome (λ n. key_of n ≡ key_of m) ⊤) e refl;
}

pub world-MarksOnly : MarksOnly world
world-MarksOnly = record { kept = λ m f. refl }
