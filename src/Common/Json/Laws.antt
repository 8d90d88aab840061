-- ===== src/Common/Json/Laws.antt =====
-- Laws of dictionaries: what a key holds after another is written.
use mathlib.Core.Path.{◌≡◌, refl}
use mathlib.Core.Option.{some}
use native.Mathlib.Omega.{arith}
use Prim.Native.String.{String}
use text.Mathlib.Text.{◌==◌ as str_eq}
use text.Mathlib.TextEquality.{eq_iff}
use asbury_solutions_system.Common.Tests.{if◌then◌else◌}
use asbury_solutions_system.Common.Json.{Json, Dict, empty, entry, get, put}

pub get-put :
    (k j : String) (v : Json) (d : Dict)
    → get j (put k v d) ≡ (if str_eq k j then some v else get j d)
unfolding get put
get-put k j v empty = refl
get-put k j v (entry i w d) = ground (arith, eq_iff k j, eq_iff i k, eq_iff i j, get-put k j v d)
