-- ===== src/Controllers/Cluster/Config/Sections.antt =====
-- The generated configuration, written down piece by piece.
-- The loops of the source append to one text; here each instance has a section of its own.
use text.Mathlib.TextLemmas.{nil-append, append-nil, append_assoc}
use postgres_cluster_operato.Common.{true, false, refl}
use postgres_cluster_operato.Api.Cluster.{PostgresInstanceSpec, HaSpec, PostgresCluster}
use postgres_cluster_operato.Common.{
  List, String, ◌<>◌, ◌≡◌, ◌++◌, Bool, if◌then◌else◌, Dict, ◌∷◌, ◌&&◌, is_empty, [], ap, sym, map,
  ◌∙◌,
}
use postgres_cluster_operato.Controllers.Cluster.Config.{
  generate_postgres_config, instance_configs, settings, ha_settings,
}

-- The text of a list of lines.
abbrev pub text_of : List String → String
text_of [] = ""
text_of (line ∷ lines) = line <> text_of lines

-- `synchronous_standby_names` stands only below `synchronous_commit`.
abbrev pub ha_lines : HaSpec → List String
ha_lines ha =
    if ha.enabled && ha.synchronous_replication
    then "synchronous_commit = on\n" ∷ "synchronous_standby_names = '*'\n" ∷ []
    else if ha.enabled
    then "synchronous_commit = on\n" ∷ []
    else []

abbrev pub setting_line : String × String → String
setting_line (k, v) = k <> " = " <> v <> "\n"

-- The section of an instance: nothing for one that sets nothing.
abbrev pub section : PostgresInstanceSpec → List String
section instance =
    if is_empty instance.config
    then []
    else ("\n# Configuration for instance " <> instance.name <> "\n")
      ∷ map setting_line instance.config

abbrev pub sections : List PostgresInstanceSpec → List String
sections [] = []
sections (i ∷ is) = section i ++ sections is

text_of-++ : (xs ys : List String) → text_of (xs ++ ys) ≡ text_of xs <> text_of ys
text_of-++ [] ys = sym (nil-append _)
text_of-++ (x ∷ xs) ys = ap (λ t. x <> t) (text_of-++ xs ys) ∙ sym (append_assoc x _ _)

settings_lem : (d : Dict String) (s : String) → settings s d ≡ s <> text_of (map setting_line d)
unfolding settings
settings_lem [] s = sym (append-nil s)
settings_lem ((k, v) ∷ d) s = settings_lem d (s <> (k <> " = " <> v <> "\n")) ∙ append_assoc s _ _

section_lem :
    (s : String) (i : PostgresInstanceSpec) (b : Bool)
    → (if b
        then s
        else settings (s <> ("\n# Configuration for instance " <> i.name <> "\n")) i.config)
      ≡ s
        <> text_of (
            if b
            then []
            else ("\n# Configuration for instance " <> i.name <> "\n") ∷ map setting_line i.config)
section_lem s i true = sym (append-nil s)
section_lem s i false = settings_lem i.config _ ∙ append_assoc s _ _

configs_lem :
    (is : List PostgresInstanceSpec) (s : String)
    → instance_configs s is ≡ s <> text_of (sections is)
unfolding instance_configs
configs_lem [] s = sym (append-nil s)
configs_lem (i ∷ is) s =
    configs_lem is (
      if is_empty i.config
      then s
      else settings (s <> ("\n# Configuration for instance " <> i.name <> "\n")) i.config)
    ∙ ap (λ t. t <> text_of (sections is)) (section_lem s i (is_empty i.config))
    ∙ append_assoc s _ _
    ∙ ap (λ t. s <> t) (sym (text_of-++ (section i) (sections is)))

ha_lem :
    (ha : HaSpec) (b c : Bool)
    → (if b
        then "synchronous_commit = on\n" <> (if c then "synchronous_standby_names = '*'\n" else "")
        else "")
      ≡ text_of (
          if b && c
          then "synchronous_commit = on\n" ∷ "synchronous_standby_names = '*'\n" ∷ []
          else if b
          then "synchronous_commit = on\n" ∷ []
          else [])
ha_lem ha true true = refl
ha_lem ha true false = refl
ha_lem ha false c = refl

-- The configuration that generatePostgresConfig builds up in its loops is the text of the lines of
-- the high availability, then of one section for each instance with settings of its own, in order,
-- which is a heading with the instance's name and a line for each setting.
pub generate_postgres_config-sections :
    (c : PostgresCluster)
    → generate_postgres_config c
      ≡ text_of (ha_lines c.spec.high_availability ++ sections c.spec.instances)
unfolding generate_postgres_config ha_settings
generate_postgres_config-sections c =
    configs_lem c.spec.instances _
    ∙ ap (λ t. t <> text_of (sections c.spec.instances))
        (ha_lem c.spec.high_availability c.spec.high_availability.enabled
          c.spec.high_availability.synchronous_replication)
    ∙ sym (text_of-++ (ha_lines c.spec.high_availability) (sections c.spec.instances))
