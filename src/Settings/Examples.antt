-- ===== src/Settings/Examples.antt =====
-- A write to the theme, and a stored key (rust/crates/vocoderd/src/machines/settings.rs).
use dsh_rs.Base.{◌≡◌, inl, inr, refl, String, concat, none, some, [], ◌∷◌, true, false}
use dsh_rs.Base.Dict.{lookup}
use dsh_rs.Base.Text.{join}
use dsh_rs.Json.{Value, null, string, json, u64, to_items, Items}
use dsh_rs.Json.Same.{same}
use dsh_rs.Router.Effects.{EffectError, EffectResult, message}
use dsh_rs.Router.Messages.{MachineIn}
use dsh_rs.Rpc.{deep_merge, insert as insert_field}
use dsh_rs.Rpc.Reply
use dsh_rs.Rpc.Paths.{get_path}
use dsh_rs.Settings.{CatalogEntry, Settings, catalog, find, is_registered, secret_match}
use dsh_rs.Settings.Redact.{view_of, redact}
use dsh_rs.Settings.Writes.{section_of, written, persist, apply_write, call, handle}
use dsh_rs.Settings.Secrets.{view_of-Secret}
use dsh_rs.Settings.Revisions.{Commits, IsVersioned, handle-IsVersioned, write_answered}

abbrev pretty : Value → String
pretty v = "{}"

abbrev search_entry : CatalogEntry
search_entry = record {
  ns = "web-search-deepseek";
  schema = "web-search-deepseek";
  secrets = "apiKey" ∷ [];
}

abbrev with_key : Settings
with_key = record {
  file = "/home/settings.json";
  document = record {
    sections = ("web-search-deepseek", json (("apiKey", string "sk-1") ∷ [])) ∷ [];
    revisions = ("web-search-deepseek", 4) ∷ [];
  };
  bases = [];
  has_document = true;
  effects = 2;
  pending_write = none;
}

search-registered : find "web-search-deepseek" catalog ≡ some search_entry
unfolding find
search-registered = refl

key-null : get_path (view_of with_key "web-search-deepseek") ("user" ∷ "apiKey" ∷ []) ≡ some null
unfolding view_of find redact secret_match join deep_merge lookup
key-null = refl

view_of-Secret_example : ◌≡◌ {A = Value} null null
view_of-Secret_example =
    view_of-Secret with_key "web-search-deepseek" "user" "apiKey" [] search_entry null
      search-registered (inl refl) (inr refl) key-null tt

abbrev keys : Items
keys = to_items (string "sk-1" ∷ string "sk-2" ∷ [])

abbrev update_theme : MachineIn
update_theme = MachineIn.event "vocoder/settings/call" (
    json (
      ("method", string "update")
      ∷ (
        "args",
        json (
            ("ns", string "ui-theme")
            ∷ ("patch", json (("theme", string "dark") ∷ []))
            ∷ ("expectedRevision", u64 0)
            ∷ []),
      )
      ∷ []))

handle-IsVersioned_example :
    IsVersioned pretty with_key (handle pretty with_key update_theme).1 "ui-theme"
handle-IsVersioned_example = handle-IsVersioned pretty with_key update_theme "ui-theme"

theme_committed : Commits pretty with_key (handle pretty with_key update_theme)
unfolding handle call apply_write written is_registered find deep_merge lookup same persist
    insert_field
theme_committed = ("ui-theme", json (("theme", string "dark") ∷ []), refl, refl, refl)

write_answered_example :
    let m = (handle pretty with_key update_theme).1 in
    (ns : String) × (same (section_of m ns) (section_of with_key ns) ≡ false)
    × (handle pretty m (MachineIn.effect_result 2 EffectResult.done) ≡ (
      Reply.ok (view_of (record m { pending_write = none; has_document = true }) ns),
      record m { pending_write = none; has_document = true },
    ))
    × ((e : EffectError)
        → handle pretty m (MachineIn.effect_result 2 (EffectResult.failed e)) ≡ (
          Reply.err "gateway/internal" (concat "persisting settings: " (message e)),
          record m { pending_write = none },
        ))
write_answered_example = write_answered pretty with_key update_theme 2 theme_committed
