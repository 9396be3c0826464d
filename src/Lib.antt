-- ===== src/Lib.antt =====
-- A model of the PostgreSQL cluster operator and the theorems on it.
--
-- The operator runs four controllers. Each reconciles one kind of resource: it reads the resource and
-- what it refers to, writes the objects that it owns and the status, and asks to be called again.
--
-- The parts, and the code that each models (paths from the repository's root):
--   Api          api/v1/*_types.go, the resources. A pointer is an Option, a number of type int32 an
--                integer that is wrapped where the code adds, a Go map an association list, whose
--                order is that of a range over the map.
--   Kube         what the operator sees of Kubernetes, and internal/k8s/resources.go in Kube.Resources
--                (CreateOrUpdate, CreateBackupPVC). Kube.Env is the outside world; Kube.Action is a
--                step of the operator; Kube.Emits, Kube.Makes, Kube.Returns, Kube.Outcome, Kube.Calm,
--                Kube.Namespaces, Kube.Keys, Kube.Secrets, Kube.Clearing, Kube.Ensures, Kube.Guards,
--                Kube.Leaves, Kube.Finishes, Kube.Faults and Kube.Steady are the rules by which the theorems
--                on steps are put together.
--   Utils        internal/utils/crypto.go: GeneratePassword.
--   Postgres     internal/postgres/client.go, backup.go and restore.go: the SQL that is sent, the job
--                that takes a backup, the command and the volume of a restore.
--   Controllers  controllers/postgrescluster_controller.go in Controllers.Cluster, and likewise for
--                User, Backup and Restore. The functions keep their names: reconcileSecret is
--                reconcile_secret; Reconcile is reconcile for a cluster, and reconcile_user,
--                reconcile_backup_resource and reconcile_restore_resource for the others.
--   Manager      main.go: the flags, the options of the manager and the order of the setup. The
--                functions SetupWithManager of the controllers are in Controllers.Setup.
--   Common       lists, maps, integers and texts that the parts share.
--   Fixtures     a world and the objects that the Tests apply the theorems to.
--
-- The outside world is a parameter. A record Env holds, as functions of the calls made so far, the
-- answers of the API server, the clock, the source of randomness and the database, and the functions
-- of controller-runtime and apimachinery that the code calls. So a theorem holds for every server and
-- every interleaving with other writers. A step (Action) maps the history of calls to a result and
-- the longer history; a result is a value, an error, or a panic, which is how a nil dereference and
-- resource.MustParse end. Calls that were made stay made. Errors carry their message and whether
-- errors.IsNotFound holds of them.
--
-- Loops are structural recursion on the list that they range over, so none of them needs fuel, save
-- that the decimal text of a number takes 11 rounds, enough for the ten digits of an int32. The deferred
-- Close calls of a loop run after the rest of the function.
--
-- Simplifications: a nil map is an empty map; a text of Kubernetes names is ASCII, so a byte is a
-- character; time.Since does not saturate; the verb %q puts plain quotes; writes through a pointer into
-- a spec that nothing reads again are copies; log lines are left out.
--
-- Not modelled: zz_generated.deepcopy.go, which is generated; groupversion_info.go, which holds no
-- logic; the settings of the connection pool; the logger.
pub mod Postgres
pub mod Utils
pub mod Controllers
pub mod Common
pub mod Api
pub mod Kube
pub mod Manager
pub mod Fixtures
pub mod Tests
