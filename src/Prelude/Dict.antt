-- ===== src/Prelude/Dict.antt =====
-- A Python dict, in insertion order: an assignment to a key that is there keeps its place.
use mathlib.Core.Path.{◌≡◌, refl}
use mathlib.Core.Option.{Option, none, some}
use mathlib.Core.List.{List, [], ◌∷◌}
use native.Mathlib.Omega.{arith}
use evidence_control_plane.Prelude.Tests.{if◌then◌else◌}
use evidence_control_plane.Prelude.Equality.{Key, ◌==◌}

abbrev pub Dict {ℓ κ} : Type ℓ → Type κ → Type (ℓ ⊔ κ)
Dict K V = List (K × V)

module _ {ℓ κ} {K : Type ℓ} {V : Type κ} ⦃e : Key K⦄ where
  -- `d.get(k)`
  abbrev pub lookup : K → Dict K V → Option V
  lookup k [] = none
  lookup k ((j, v) ∷ d) = if j == k then some v else lookup k d

  -- `d[k] = v`
  abbrev pub insert : K → V → Dict K V → Dict K V
  insert k v [] = (k, v) ∷ []
  insert k v ((j, w) ∷ d) = if j == k then (j, v) ∷ d else (j, w) ∷ insert k v d

-- `defaultdict(list)`, and `defaultdict(set)` with its sets in insertion order
module _ {ℓ κ} {K : Type ℓ} {V : Type κ} ⦃e : Key K⦄ where
  -- `d.get(k, ())`
  abbrev pub get_list : K → Dict K (List V) → List V
  get_list k [] = []
  get_list k ((j, vs) ∷ d) = if j == k then vs else get_list k d

  -- `d[k] = f(d[k])`, the list empty where the key is new
  abbrev pub update_list : K → (List V → List V) → Dict K (List V) → Dict K (List V)
  update_list k f [] = (k, f []) ∷ []
  update_list k f ((j, vs) ∷ d) = if j == k then (j, f vs) ∷ d else (j, vs) ∷ update_list k f d

  pub get_list-update_list :
      (k j : K) (f : List V → List V) (d : Dict K (List V))
      → get_list j (update_list k f d) ≡ (if k == j then f (get_list j d) else get_list j d)
  get_list-update_list k j f [] = refl
  get_list-update_list k j f ((i, vs) ∷ d) = ground (
    arith,
    e.same_key_iff k j,
    e.same_key_iff i k,
    e.same_key_iff i j,
    get_list-update_list k j f d,
  )
