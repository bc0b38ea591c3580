-- ===== src/DataHub/Store.antt =====
-- A graph in memory that meets what DataHub documents: a client for tests.
use sciguard_autopilot.Base.{refl, String, ◌&&◌, Option, none, some, List, if◌then◌else◌, ◌==◌}
use sciguard_autopilot.DataHub.{AspectType, same_aspect, Aspect, TagAssociation, Client}

pub record Memory : Type 0 where
  pub tags : String → Option (List TagAssociation)
  pub aspects : AspectType → String → Option Aspect

abbrev pub memory : Client
memory = record {
  Graph = Memory;
  get_tags = λ g v. g.tags v;
  emit_tags = λ u ts g. record g { tags = λ v. if u == v then some ts else g.tags v };
  get_aspect = λ g k v. g.aspects k v;
  emit_aspect = λ j u a g. record g {
    aspects = λ k v. if same_aspect j k && u == v then some a else g.aspects k v;
  };
  tags-emit_tags = λ u v ts g. refl;
  tags-emit_aspect = λ k u v a g. refl;
  aspect-emit_tags = λ k u v ts g. refl;
  aspect-emit_aspect = λ j k u v a g. refl;
}

abbrev pub empty : Memory
empty = record { tags = λ v. none; aspects = λ k v. none }
