-- ===== src/Transport/Mstsc/Registry.antt =====
-- The global maps of src/transport/mstsc_transport.cpp, from handles to instances. An instance is its
-- address, and 0 is `nullptr`.
use rdp_ext.Common.{ℕ, ◌≡◌, refl, ◌==◌, List, [], ◌∷◌, if◌then◌else◌, arith}

-- `map[key] = value`.
unfoldable pub assign : ℕ → ℕ → List (ℕ × ℕ) → List (ℕ × ℕ)
assign key value [] = (key, value) ∷ []
assign key value ((k, v) ∷ m) = if k == key then (key, value) ∷ m else (k, v) ∷ assign key value m

-- `it != end() ? it->second : nullptr`.
unfoldable pub find : ℕ → List (ℕ × ℕ) → ℕ
find key [] = 0
find key ((k, v) ∷ m) = if k == key then v else find key m

pub find-assign :
    (key other value : ℕ) (m : List (ℕ × ℕ))
    → find other (assign key value m) ≡ (if key == other then value else find other m)
unfolding find assign
find-assign key other value [] = refl
find-assign key other value ((k, v) ∷ m) = ground (arith, find-assign key other value m)

pub record Instances : Type 0 where
  pub init_instances : List (ℕ × ℕ)
  pub open_instances : List (ℕ × ℕ)

abbrev pub no_instances : Instances
no_instances = record { init_instances = []; open_instances = [] }

unfoldable pub register_init : ℕ → ℕ → Instances → Instances
register_init this init_handle i = record i {
  init_instances = assign init_handle this i.init_instances;
}

unfoldable pub register_open : ℕ → ℕ → Instances → Instances
register_open this open_handle i = record i {
  open_instances = assign open_handle this i.open_instances;
}

unfoldable pub find_by_init : ℕ → Instances → ℕ
find_by_init init_handle i = find init_handle i.init_instances

unfoldable pub find_by_open : ℕ → Instances → ℕ
find_by_open open_handle i = find open_handle i.open_instances

-- A registration is found under its handle, hides no other handle's instance, and leaves the other map
-- alone.
pub registered_found :
    (this handle other : ℕ) (i : Instances)
    → (find_by_init other (register_init this handle i)
        ≡ (if handle == other then this else find_by_init other i))
      × (find_by_open other (register_open this handle i)
          ≡ (if handle == other then this else find_by_open other i))
      × (find_by_open other (register_init this handle i) ≡ find_by_open other i)
      × (find_by_init other (register_open this handle i) ≡ find_by_init other i)
unfolding register_init register_open find_by_init find_by_open
registered_found this handle other i = (
  find-assign handle other this i.init_instances,
  find-assign handle other this i.open_instances,
  refl,
  refl,
)
