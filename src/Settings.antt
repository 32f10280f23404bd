-- ===== src/Settings.antt =====
-- The settings namespace: a document of sections with revisions
-- (rust/crates/vocoderd/src/machines/settings.rs).
pub mod Redact
pub mod Writes
pub mod Secrets
pub mod Revisions
mod Examples
use text.Mathlib.Text.{starts_with}
use dsh_rs.Base.{
  ℕ, String, concat, Option, none, some, List, [], ◌∷◌, Bool, true, false, ◌||◌, str_eq,
  if◌then◌else◌,
}
use dsh_rs.Base.Dict.{Dict}
use dsh_rs.Json.{Value}
use dsh_rs.Router.Effects.{EffectId}

pub record CatalogEntry : Type 0 where
  pub ns : String
  pub schema : String
  pub secrets : List String

abbrev entry : String → List String → CatalogEntry
entry ns secrets = record { ns = ns; schema = ns; secrets = secrets }

-- The namespaces that the host registers.
abbrev pub catalog : List CatalogEntry
catalog =
    entry "agent-default-model" []
    ∷ entry "agent-loop" []
    ∷ entry "agent-presets" []
    ∷ entry "llm-deepseek" []
    ∷ entry "llm-pi-ai" []
    ∷ entry "locale" []
    ∷ entry "permission" []
    ∷ entry "shell" []
    ∷ entry "subagent-model-selection" []
    ∷ entry "ui-chat" []
    ∷ entry "ui-conversation" []
    ∷ entry "ui-onboarding" []
    ∷ entry "ui-theme" []
    ∷ entry "web-search-deepseek" ("apiKey" ∷ [])
    ∷ []

-- `catalog().iter().find(|e| e.ns == ns)`
unfoldable pub find : String → List CatalogEntry → Option CatalogEntry
find ns [] = none
find ns (e ∷ es) = if str_eq e.ns ns then some e else find ns es

abbrev pub is_some {ℓ} : {A : Type ℓ} → Option A → Bool
is_some none = false
is_some (some _) = true

unfoldable pub is_registered : String → Bool
is_registered ns = is_some (find ns catalog)

unfoldable pub secret_match : String → String → Bool
secret_match selector path = str_eq path selector || starts_with path (concat selector ".")

pub record Document : Type 0 where
  pub sections : Dict Value
  pub revisions : Dict ℕ

pub record Settings : Type 0 where
  pub file : String
  pub document : Document
  pub bases : Dict Value
  pub has_document : Bool
  pub effects : ℕ
  pub pending_write : Option (EffectId × String)
