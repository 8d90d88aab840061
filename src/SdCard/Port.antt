-- ===== src/SdCard/Port.antt =====
-- The configuration of a port in apply_profile.py.
use asbury_solutions_system.Common.{
  ℕ, inl, inr, subst, Bool-cases, ap, Bool, true, false, ◌≡◌, refl, Option, none, some, String,
  if◌then◌else◌,
}
use text.Mathlib.Text.{◌==◌ as str_eq}
use text.Mathlib.TextEquality.{eq_iff}
use asbury_solutions_system.Common.Text.{Text}
use asbury_solutions_system.Common.Json.{
  Json, pos, int, bool, str, obj, Dict, empty, entry, get, put,
}
use asbury_solutions_system.Common.Json.Laws.{get-put}
use asbury_solutions_system.Common.Except.{Except, ok, err, ◌>>=◌, attribute_error, type_error}

pub record Args : Type 0 where
  pub port : ℕ
  pub profile : Text
  pub label : Option Text
  pub disable : Bool
  pub enable : Bool

-- `d.setdefault(key, value)`.
abbrev pub default_with : Option Json → String → Json → Dict → Dict
default_with none k v d = put k v d
default_with (some old) k v d = d

abbrev pub set_default : String → Json → Dict → Dict
set_default k v d = default_with (get k d) k v d

-- `profile.get("kind", args.profile)`.
unfoldable pub kind_of : Args → Json → Except Json
kind_of args (obj profile) = elim (get "kind" profile) [
  | none ↦ ok (str args.profile)
  | some k ↦ ok k
]
kind_of args _ = err attribute_error

abbrev pub label_with : Option Text → Text → Dict → Dict
label_with (some label) profile d = put "label" (str label) d
label_with none profile d = set_default "label" (str profile) d

unfoldable pub labelled : Args → Dict → Dict
labelled args = label_with args.label args.profile

unfoldable pub switched : Args → Dict → Dict
switched args d =
    if args.disable
    then put "enabled" (bool false) d
    else if args.enable
    then put "enabled" (bool true) d
    else set_default "enabled" (bool true) d

unfoldable pub assigned : Args → Json → Dict → Dict
assigned args kind d = switched args (
    labelled args
      (put "kind" kind (put "profile" (str args.profile) (put "port" (int (pos args.port)) d))))

-- The port's file: what it holds, or a fresh object where there is none.
unfoldable pub port_config : Args → Option Json → Except Dict
port_config args none = ok (entry "port" (int (pos args.port)) empty)
port_config args (some (obj d)) = ok d
port_config args (some _) = err type_error

-- What is written, or none for a profile that is not found; then the exit code is 1.
pub data End : Type 0 where
  not_found : End
  written : Dict → End

unfoldable pub apply_profile : Args → (profile port : Option Json) → Except End
apply_profile args none port = ok not_found
apply_profile args (some profile) port = do
  kind ← kind_of args profile
  config ← port_config args port
  ok (written (assigned args kind config))

-- What an assigned port says: its port, profile and kind; the label that was asked for, or else
-- its old one, or else the profile; and whether it is enabled, in the same way.
abbrev or_old : Json → Option Json → Option Json
or_old v none = some v
or_old v (some w) = some w

abbrev label_of : Option Text → Text → Option Json → Option Json
label_of (some label) profile old = some (str label)
label_of none profile old = or_old (str profile) old

abbrev label_wanted : Args → Option Json → Option Json
label_wanted args = label_of args.label args.profile

abbrev enabled_wanted : Args → Option Json → Option Json
enabled_wanted args old =
    if args.disable
    then some (bool false)
    else if args.enable
    then some (bool true)
    else or_old (bool true) old

record IsAssigned (args : Args) (value : Json) (old new : Dict) : Type 0 where
  pub port : get "port" new ≡ some (int (pos args.port))
  pub profile : get "profile" new ≡ some (str args.profile)
  pub kind : get "kind" new ≡ some value
  pub label : get "label" new ≡ label_wanted args (get "label" old)
  pub enabled : get "enabled" new ≡ enabled_wanted args (get "enabled" old)

get-default_with :
    (old : Option Json) (k j : String) (v : Json) (d : Dict)
    → get k d ≡ old
    → get j (default_with old k v d) ≡ (if str_eq k j then or_old v old else get j d)
get-default_with none k j v d e = get-put k j v d
get-default_with (some w) k j v d e = elim (Bool-cases (str_eq k j)) [
  | inl same ↦
      let key : k ≡ j = (eq_iff k j).0 same in rw same (subst (λ i. get i d ≡ some w) key e)
  | inr other ↦ rw other refl
]

get-set_default :
    (k j : String) (v : Json) (d : Dict)
    → get j (set_default k v d) ≡ (if str_eq k j then or_old v (get k d) else get j d)
get-set_default k j v d = get-default_with (get k d) k j v d refl

get-label_with :
    (label : Option Text) (profile : Text) (j : String) (d : Dict)
    → get j (label_with label profile d)
      ≡ (if str_eq "label" j then label_of label profile (get "label" d) else get j d)
get-label_with (some label) profile j d = get-put "label" j (str label) d
get-label_with none profile j d = get-set_default "label" j (str profile) d

get-labelled :
    (args : Args) (j : String) (d : Dict)
    → get j (labelled args d)
      ≡ (if str_eq "label" j then label_wanted args (get "label" d) else get j d)
unfolding labelled
get-labelled args j d = get-label_with args.label args.profile j d

get-switched :
    (args : Args) (j : String) (d : Dict)
    → get j (switched args d)
      ≡ (if str_eq "enabled" j then enabled_wanted args (get "enabled" d) else get j d)
unfolding switched
get-switched args j d = elim (Bool-cases args.disable) [
  | inl off ↦ rw off (get-put "enabled" j (bool false) d)
  | inr kept ↦ elim (Bool-cases args.enable) [
    | inl on ↦ rw (kept, on) (get-put "enabled" j (bool true) d)
    | inr idle ↦ rw (kept, idle) (get-set_default "enabled" j (bool true) d)
  ]
]

-- An assigned port says its port, profile and kind, the label that was asked for or else its old
-- one or else the profile, and that it is enabled as was asked for or else as it was or else true;
-- and every other key of it holds what it held.
assigned-IsAssigned :
    (args : Args) (value : Json) (d : Dict)
    → IsAssigned args value d (assigned args value d)
      × ((k : String)
          → str_eq "port" k ≡ false
          → str_eq "profile" k ≡ false
          → str_eq "kind" k ≡ false
          → str_eq "label" k ≡ false
          → str_eq "enabled" k ≡ false
          → get k (assigned args value d) ≡ get k d)
unfolding assigned
assigned-IsAssigned args value d =
    let base =
      put "kind" value (put "profile" (str args.profile) (put "port" (int (pos args.port)) d)) in
    let label_kept : get "label" base ≡ get "label" d = rw (get-put, get-put, get-put) refl in
    let enabled_kept : get "enabled" (labelled args base) ≡ get "enabled" d =
      rw (get-labelled, get-put, get-put, get-put) refl in
    (
      record {
        port = rw (get-switched, get-labelled, get-put, get-put, get-put) refl;
        profile = rw (get-switched, get-labelled, get-put, get-put) refl;
        kind = rw (get-switched, get-labelled, get-put) refl;
        label = rw (get-switched, get-labelled) (ap (label_wanted args) label_kept);
        enabled = rw get-switched (ap (enabled_wanted args) enabled_kept);
      },
      λ k a b c e f. rw (get-switched, f, get-labelled, e, get-put, c, get-put, b, get-put, a) refl,
    )
