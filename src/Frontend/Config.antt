-- ===== src/Frontend/Config.antt =====
-- internal/frontend/config.go: the platforms of the downloads page.
use system_of_adownload.Prelude.{Bool, List, Text, [], codes, false, true, ◌∷◌}
use system_of_adownload.Prelude.Map.{Map}

-- `ArtifactType`: an empty modern classifier says that modern builds have none.
pub record ArtifactType : Type 0 where
  pub name : Text
  pub classifier_modern : Text
  pub classifier_legacy : Text
  pub primary : Bool
  pub extension : Text

-- `PlatformConfig`
pub record PlatformConfig : Type 0 where
  pub id : Text
  pub group : Text
  pub name : Text
  pub suffix : Text
  pub featured : Bool
  pub description : Text
  pub badge_color : Text
  pub artifact_types : List ArtifactType
  pub query_modifiers : Map (Map Text)
  pub legacy_mc_prefixes : List Text

abbrev sponge_artifact_types : List ArtifactType
sponge_artifact_types =
    record {
      name = codes "Download";
      classifier_modern = codes "universal";
      classifier_legacy = [];
      primary = true;
      extension = codes "jar";
    }
    ∷ record {
      name = codes "Sources";
      classifier_modern = codes "sources-dev";
      classifier_legacy = codes "sources";
      primary = false;
      extension = codes "jar";
    }
    ∷ record {
      name = codes "Dev";
      classifier_modern = [];
      classifier_legacy = codes "dev-shaded";
      primary = false;
      extension = codes "jar";
    }
    ∷ []

abbrev api : Text → Map Text
api v = (codes "api", v) ∷ []

abbrev sponge_query_modifiers : Map (Map Text)
sponge_query_modifiers =
    (codes "1.10", api (codes "5"))
    ∷ (codes "1.10.2", api (codes "5"))
    ∷ (codes "1.11", api (codes "6"))
    ∷ (codes "1.11.2", api (codes "6"))
    ∷ (codes "1.12", api (codes "7"))
    ∷ (codes "1.12.1", api (codes "7"))
    ∷ (codes "1.12.2", api (codes "7"))
    ∷ []

abbrev pub legacy_mc_prefixes : List Text
legacy_mc_prefixes = codes "1.8" ∷ codes "1.9" ∷ codes "1.10" ∷ codes "1.11" ∷ codes "1.12" ∷ []

-- The fields in which the three platforms differ.
abbrev sponge_platform : Text → Text → Text → Text → Text → PlatformConfig
sponge_platform id name suffix description badge_color = record {
  id = id;
  group = codes "org.spongepowered";
  name = name;
  suffix = suffix;
  featured = true;
  description = description;
  badge_color = badge_color;
  artifact_types = sponge_artifact_types;
  query_modifiers = sponge_query_modifiers;
  legacy_mc_prefixes = legacy_mc_prefixes;
}

abbrev pub sponge_vanilla : PlatformConfig
sponge_vanilla =
    sponge_platform (codes "spongevanilla") (codes "SpongeVanilla") (codes "Vanilla")
      (codes "Not using any mods? SpongeVanilla is for you!") (codes "#917300")

-- `defaultPlatforms`
abbrev pub default_platforms : List PlatformConfig
default_platforms =
    sponge_vanilla
    ∷ sponge_platform (codes "spongeforge") (codes "SpongeForge") (codes "Forge")
        (codes "Using Forge mods? Install the SpongeForge mod to use mods and plugins together!")
        (codes "#910020")
    ∷ sponge_platform (codes "spongeneo") (codes "SpongeNeo") (codes "Neo")
        (codes "Using NeoForge mods? Install the SpongeNeo to use mods and plugins together!")
        (codes "#cc6f2f")
    ∷ []
