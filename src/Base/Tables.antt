-- ===== src/Base/Tables.antt =====
-- Go maps and database tables with a primary key: functions from keys to the row, if there is one.
-- Every law says what a later lookup sees.
use transmogr.Base.{Option, none, some, Bool, if◌then◌else◌, Eq, ◌==◌}

abbrev pub Table {ℓ κ} : Type ℓ → Type κ → Type (ℓ ⊔ κ)
Table K V = K → Option V

abbrev pub no_rows {ℓ κ} : {K : Type ℓ} {V : Type κ} → Table K V
no_rows k = none

module _ {ℓ κ} {K : Type ℓ} {V : Type κ} ⦃e : Eq K⦄ where
  abbrev pub put : K → V → Table K V → Table K V
  put k v m j = if k == j then some v else m j

  abbrev pub remove : K → Table K V → Table K V
  remove k m j = if k == j then none else m j

-- DELETE … WHERE p
abbrev pub keep_row {κ} : {V : Type κ} → (V → Bool) → Option V → Option V
keep_row p none = none
keep_row p (some v) = if p v then none else some v

abbrev pub delete_where {ℓ κ} : {K : Type ℓ} {V : Type κ} → (V → Bool) → Table K V → Table K V
delete_where p m k = keep_row p (m k)
