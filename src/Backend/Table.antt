-- ===== src/Backend/Table.antt =====
-- A JavaScript Map from texts, as the list of its entries in insertion order.
pub mod Laws
use ajar_family.Prelude.{
  ℕ, List, [], ◌∷◌, map, Bool, true, false, not, Option, none, some, if◌then◌else◌,
}
use ajar_family.Text.{Text, same}

abbrev pub Table {ℓ} : Type ℓ → Type ℓ
Table A = List (Text × A)

-- `map.get(key)`
unfoldable pub get {ℓ} : {A : Type ℓ} → Table A → Text → Option A
unfolding same
get [] key = none
get ((k, v) ∷ t) key = if same k key then some v else get t key

-- `map.set(key, value)`: in place where the key is there, at the end where it is not.
unfoldable pub put {ℓ} : {A : Type ℓ} → Table A → Text → A → Table A
unfolding same
put [] key value = (key, value) ∷ []
put ((k, v) ∷ t) key value =
    let rest = put t key value in if same k key then (k, value) ∷ t else (k, v) ∷ rest

-- `map.delete(key)`
unfoldable pub remove {ℓ} : {A : Type ℓ} → Table A → Text → Table A
unfolding same
remove [] key = []
remove ((k, v) ∷ t) key = let rest = remove t key in if same k key then rest else (k, v) ∷ rest

-- `[...map.values()]`
unfoldable pub values {ℓ} : {A : Type ℓ} → Table A → List A
values [] = []
values ((k, v) ∷ t) = v ∷ values t

-- `for (const v of map.values()) if (p(v)) return v; return null`
unfoldable pub find {ℓ} : {A : Type ℓ} → (A → Bool) → Table A → Option A
find p [] = none
find p ((k, v) ∷ t) = if p v then some v else find p t

-- `for (const [k, v] of [...map]) if (p(v)) map.delete(k)`: a key stands once.
unfoldable pub remove_where {ℓ} : {A : Type ℓ} → (A → Bool) → Table A → Table A
remove_where p [] = []
remove_where p ((k, v) ∷ t) = let rest = remove_where p t in if p v then rest else (k, v) ∷ rest

-- `for (const v of map.values()) if (p(v)) map.set(v.id, f(v))`: an entry stands under its id.
unfoldable pub update_where {ℓ} : {A : Type ℓ} → (A → Bool) → (A → A) → Table A → Table A
update_where p f [] = []
update_where p f ((k, v) ∷ t) = (k, if p v then f v else v) ∷ update_where p f t
