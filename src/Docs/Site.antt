-- ===== src/Docs/Site.antt =====
-- docs/.vitepress/config.mts: the configuration of the site, as VitePress reads it.
--
-- A text is the list of its code points, which are ASCII but for one in the footer.
mod Links
use rainlogs.Prelude.{◌∷◌, ◌++◌, List, [], Bytes, codes}

pub record Link : Type 0 where
  pub text : Bytes
  pub link : Bytes

pub record Group : Type 0 where
  pub text : Bytes
  pub items : List Link

pub record SocialLink : Type 0 where
  pub icon : Bytes
  pub link : Bytes

pub record Footer : Type 0 where
  pub message : Bytes
  pub copyright : Bytes

pub record Search : Type 0 where
  pub provider : Bytes

pub record ThemeConfig : Type 0 where
  pub logo : Bytes
  pub nav : List Link
  pub sidebar : List Group
  pub social_links : List SocialLink
  pub footer : Footer
  pub search : Search

pub record Config : Type 0 where
  pub title : Bytes
  pub description : Bytes
  pub base : Bytes
  pub theme_config : ThemeConfig

abbrev pub nav : List Link
nav =
    record { text = codes "Home"; link = codes "/" }
    ∷ record { text = codes "Guide"; link = codes "/guide/introduction" }
    ∷ record { text = codes "API"; link = codes "/guide/api-reference" }
    ∷ []

abbrev pub introduction : Group
introduction = record {
  text = codes "Introduction";
  items =
      record { text = codes "What is Rainlogs?"; link = codes "/guide/introduction" }
      ∷ record { text = codes "Getting Started"; link = codes "/guide/getting-started" }
      ∷ record { text = codes "Architecture"; link = codes "/guide/architecture" }
      ∷ [];
}

abbrev pub configuration : Group
configuration = record {
  text = codes "Configuration";
  items =
      record { text = codes "Environment Variables"; link = codes "/guide/configuration" }
      ∷ record { text = codes "Storage (Garage S3)"; link = codes "/guide/storage" }
      ∷ [];
}

abbrev pub reference : Group
reference = record {
  text = codes "Reference";
  items =
      record { text = codes "API Reference"; link = codes "/guide/api-reference" }
      ∷ record { text = codes "Deployment"; link = codes "/guide/deployment" }
      ∷ [];
}

abbrev pub sidebar : List Group
sidebar = introduction ∷ configuration ∷ reference ∷ []

abbrev pub footer : Footer
footer = record {
  message = codes "Released under the Apache 2.0 License.";
  copyright = codes "Copyright " ++ (169 ∷ codes " 2026 Fabrizio Salmi");
}

abbrev pub config : Config
config = record {
  title = codes "Rainlogs";
  description = codes "High-performance, self-hosted log management system";
  base = codes "/rainlogs/";
  theme_config = record {
    logo = codes "/logo.svg";
    nav = nav;
    sidebar = sidebar;
    social_links =
        record { icon = codes "github"; link = codes "https://github.com/fabriziosalmi/rainlogs" }
        ∷ [];
    footer = footer;
    search = record { provider = codes "local" };
  };
}
