-- ===== src/SdCard/Manifest/Laws.antt =====
-- What a written manifest holds.
use asbury_solutions_system.Common.{◌≡◌, ◌∙◌, refl, sym, ap, some, false, String, arith}
use text.Mathlib.Text.{◌==◌ as str_eq}
use asbury_solutions_system.Common.Text.{Text}
use asbury_solutions_system.Common.Json.{Json, obj, Dict, get, put}
use asbury_solutions_system.Common.Json.Laws.{get-put}
use asbury_solutions_system.Common.Except.{ok, >>=-eq-ok}
use asbury_solutions_system.SdCard.Manifest.{
  Args, Env, section_of, with_wifi, with_llm, with_sync, check_device, inject_manifest,
}

module _ (d : Dict) (wifi llm sync : Json) where
  sections : Dict
  sections = put "sync" sync (put "llm" llm (put "wifi" wifi d))

  get_sync : get "sync" sections ≡ some sync
  unfolding sections
  get_sync = rw get-put refl

  get_other :
      (k : String)
      → str_eq "wifi" k ≡ false
      → str_eq "llm" k ≡ false
      → str_eq "sync" k ≡ false
      → get k sections ≡ get k d
  unfolding sections
  get_other k a b c = rw (get-put, c, get-put, b, get-put, a) refl

-- A manifest that is written has a sync section whose device id passes the check, and every key
-- beside wifi, llm and sync holds what it held before.
inject_manifest-keeps :
    (show : Json → Text) (args : Args) (env : Env) (d m : Dict)
    → inject_manifest show args env (obj d) ≡ ok m
    → ((sync : Json) × (get "sync" m ≡ some sync) × (check_device show sync ≡ ok tt))
      × ((k : String)
          → str_eq "wifi" k ≡ false
          → str_eq "llm" k ≡ false
          → str_eq "sync" k ≡ false
          → get k m ≡ get k d)
unfolding inject_manifest sections
inject_manifest-keeps show args env d m h =
    let (wifi, a, f) = >>=-eq-ok (with_wifi args env (section_of "wifi" d)) _ h in
    let (llm, b, g) = >>=-eq-ok (with_llm args env (section_of "llm" d)) _ f in
    let (sync, c, i) = >>=-eq-ok (with_sync args env (section_of "sync" d)) _ g in
    let (checked, e, j) = >>=-eq-ok (check_device show sync) _ i in
    let same : sections d wifi llm sync ≡ m = ground arith in
    (
      (sync, ap (get "sync") (sym same) ∙ get_sync d wifi llm sync, e),
      λ k n o p. ap (get k) (sym same) ∙ get_other d wifi llm sync k n o p,
    )
