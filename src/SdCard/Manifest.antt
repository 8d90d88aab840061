-- ===== src/SdCard/Manifest.antt =====
-- `inject_manifest` of prepare_sd.py. The environment is an argument, and so is `str` of a value
-- that is no text.
pub mod Laws
use asbury_solutions_system.Common.{
  ℕ, Bool, true, false, not, ◌&&◌, ◌||◌, Option, none, some, String, List, [], ◌∷◌, if◌then◌else◌,
}
use asbury_solutions_system.Common.Text.{Text, codes, lower, elem}
use asbury_solutions_system.Common.Json.{ℤ, Json, bool, int, str, obj, Dict, empty, get, put}
use asbury_solutions_system.Common.Except.{Except, ok, err, ◌>>=◌, attribute_error, type_error}
use asbury_solutions_system.SdCard.Device.{validate_device_id}

pub record Args : Type 0 where
  pub wifi_ssid : Option Text
  pub wifi_pass : Option Text
  pub llm_enabled : Option Bool
  pub llm_base_url : Option Text
  pub llm_api_key : Option Text
  pub llm_model : Option Text
  pub sync_enabled : Option Bool
  pub sync_base_url : Option Text
  pub sync_api_key : Option Text
  pub sync_device_id : Option Text
  pub sync_interval_s : Option ℤ

abbrev pub Env : Type 0
Env = String → Option Text

-- `option or environment`, the empty text where neither has one.
unfoldable pub setting : Option Text → Option Text → Text
setting (some (c ∷ s)) var = c ∷ s
setting _ (some value) = value
setting _ none = []

abbrev pub is_filled : Text → Bool
is_filled [] = false
is_filled (c ∷ s) = true

abbrev pub is_given : Option Text → Bool
is_given none = false
is_given (some s) = true

-- `section[key] = value` on a value of any type.
unfoldable pub set : String → Json → Json → Except Json
set k v (obj d) = ok (obj (put k v d))
set k v _ = err type_error

abbrev pub set_if : Bool → String → Json → Json → Except Json
set_if b k v section = if b then set k v section else ok section

abbrev pub set_text : String → Text → Json → Except Json
set_text k s section = set_if (is_filled s) k (str s) section

abbrev pub is_on : Text → Bool
is_on s = elem (lower s) (codes "1" ∷ codes "true" ∷ codes "yes" ∷ codes "on" ∷ [])

unfoldable pub set_enabled : Option Bool → Option Text → Json → Except Json
set_enabled (some b) var section = set "enabled" (bool b) section
set_enabled none (some value) section = set "enabled" (bool (is_on value)) section
set_enabled none none section = ok section

-- `data.setdefault(key, {})`.
abbrev pub section_of : String → Dict → Json
section_of k d = elim (get k d) [ none ↦ obj empty | some section ↦ section ]

unfoldable pub with_wifi : Args → Env → Json → Except Json
with_wifi args env wifi = do
  let ssid = setting args.wifi_ssid (env "AOS_WIFI_SSID")
  let password = setting args.wifi_pass (env "AOS_WIFI_PASS")
  named ← set_text "ssid" ssid wifi
  set_if (is_filled password || is_given args.wifi_pass || is_given (env "AOS_WIFI_PASS")) "pass"
      (str password) named

unfoldable pub with_llm : Args → Env → Json → Except Json
with_llm args env llm = do
  switched ← set_enabled args.llm_enabled (env "AOS_LLM_ENABLED") llm
  based ← set_text "base_url" (setting args.llm_base_url (env "AOS_LLM_BASE_URL")) switched
  keyed ← set_text "api_key" (setting args.llm_api_key (env "AOS_LLM_API_KEY")) based
  set_text "model" (setting args.llm_model (env "AOS_LLM_MODEL")) keyed

unfoldable pub set_interval : Option ℤ → Json → Except Json
set_interval none sync = ok sync
set_interval (some n) sync = set "interval_s" (int n) sync

unfoldable pub with_sync : Args → Env → Json → Except Json
with_sync args env sync = do
  switched ← set_enabled args.sync_enabled (env "AOS_SYNC_ENABLED") sync
  based ← set_text "base_url" (setting args.sync_base_url (env "AOS_SYNC_BASE_URL")) switched
  keyed ← set_text "api_key" (setting args.sync_api_key (env "AOS_SYNC_API_KEY")) based
  known ← set_text "device_id" (setting args.sync_device_id (env "AOS_SYNC_DEVICE_ID")) keyed
  set_interval args.sync_interval_s known

-- `str(sync.get("device_id", ""))`.
abbrev pub text_of : (Json → Text) → Option Json → Text
text_of show none = []
text_of show (some (str s)) = s
text_of show (some v) = show v

unfoldable pub check_device : (Json → Text) → Json → Except (Unit {0})
check_device show (obj sync) = validate_device_id (text_of show (get "device_id" sync))
check_device show _ = err attribute_error

unfoldable pub inject_manifest : (Json → Text) → Args → Env → Json → Except Dict
inject_manifest show args env (obj d) = do
  wifi ← with_wifi args env (section_of "wifi" d)
  llm ← with_llm args env (section_of "llm" d)
  sync ← with_sync args env (section_of "sync" d)
  checked ← check_device show sync
  ok (put "sync" sync (put "llm" llm (put "wifi" wifi d)))
inject_manifest show args env _ = err attribute_error
