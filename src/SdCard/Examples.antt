-- ===== src/SdCard/Examples.antt =====
-- Tests of the card tools, and their theorems at concrete settings.
use asbury_solutions_system.Common.{
  if◌then◌else◌, true, false, ◌≡◌, refl, none, some, [], ◌∷◌, ◌++◌,
}
use text.Mathlib.Text.{◌==◌ as str_eq}
use asbury_solutions_system.Common.Text.{Text, codes, eq_text, lower, to_lower, elem}
use asbury_solutions_system.Common.Json.{
  Json, pos, int, bool, str, obj, Dict, empty, entry, get, put,
}
use asbury_solutions_system.Common.Except.{ok, err, system_exit}
use asbury_solutions_system.SdCard.Device.{safe_to_end, matches_device_id, validate_device_id}
use asbury_solutions_system.SdCard.Port
use asbury_solutions_system.SdCard.Port.{
  kind_of, labelled, switched, assigned, port_config, written, apply_profile,
}
use asbury_solutions_system.SdCard.Manifest
use asbury_solutions_system.SdCard.Manifest.{
  Env, setting, set, set_enabled, with_wifi, with_llm, set_interval, with_sync, check_device,
  inject_manifest,
}

card : Unit {0}
unfolding safe_to_end matches_device_id validate_device_id eq_text kind_of labelled switched
    assigned port_config apply_profile get put setting set set_enabled with_wifi with_llm
    set_interval with_sync check_device inject_manifest lower to_lower elem
card = tt

-- A newline behind a device id passes, and a space does not.
device_ids :
    (validate_device_id (codes "mini-01") ≡ ok tt)
    × (validate_device_id (codes "mini-01" ++ 10 ∷ []) ≡ ok tt)
    × (validate_device_id (codes "mini 01") ≡ err system_exit)
    × (validate_device_id (codes "..") ≡ err system_exit)
unfolding card
device_ids = (refl, refl, refl, refl)

passed : validate_device_id (codes "mini-01" ++ 10 ∷ []) ≡ ok tt
unfolding card
passed = refl

abbrev change : Port.Args
change = record {
  port = 3;
  profile = codes "climate";
  label = none;
  disable = true;
  enable = false;
}

abbrev old_port : Dict
old_port =
    entry "port" (int (pos 3)) (entry "label" (str (codes "Lab")) (entry "note" (bool true) empty))

assigns :
    apply_profile change (some (obj empty)) (some (obj old_port))
    ≡ ok (
        written (
          entry "port" (int (pos 3)) (
            entry "label" (str (codes "Lab")) (
              entry "note" (bool true) (
                entry "profile"
                  (str (codes "climate"))
                  (entry "kind" (str (codes "climate")) (entry "enabled" (bool false) empty)))))))
unfolding card
assigns = refl

abbrev settings : Manifest.Args
settings = record {
  wifi_ssid = some (codes "lab");
  wifi_pass = none;
  llm_enabled = none;
  llm_base_url = none;
  llm_api_key = none;
  llm_model = none;
  sync_enabled = some true;
  sync_base_url = none;
  sync_api_key = none;
  sync_device_id = some (codes "mini-01");
  sync_interval_s = none;
}

abbrev env : Env
env name = if str_eq name "AOS_LLM_ENABLED" then some (codes "Yes") else none

abbrev manifest : Dict
manifest = entry "name" (str (codes "mini")) empty

abbrev injected : Dict
injected = entry "name" (str (codes "mini")) (
    entry "wifi" (obj (entry "ssid" (str (codes "lab")) empty)) (
      entry "llm" (obj (entry "enabled" (bool true) empty)) (
        entry "sync"
          (obj (entry "enabled" (bool true) (entry "device_id" (str (codes "mini-01")) empty)))
          empty)))

abbrev show : Json → Text
show v = []

injects : inject_manifest show settings env (obj manifest) ≡ ok injected
unfolding card
injects = refl
