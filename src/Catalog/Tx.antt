-- ===== src/Catalog/Tx.antt =====
-- A transaction's statements: each reads and writes the database, and may fail. What it drew from
-- a sequence before it failed stays drawn.
use ukiel.Base.{◌≡◌, refl}
use ukiel.Catalog.Error.{CatalogError}
use ukiel.Catalog.Db.{Db}

pub data Result {ℓ} (A : Type ℓ) : Type ℓ where
  ok : A → Result A
  err : CatalogError → Result A

abbrev pub Tx {ℓ} : Type ℓ → Type ℓ
Tx A = Db → Result A × Db

abbrev pub pure {ℓ} : {A : Type ℓ} → A → Tx A
pure a d = (ok a, d)

abbrev pub fail {ℓ} : {A : Type ℓ} → CatalogError → Tx A
fail e d = (err e, d)

abbrev pub lift {ℓ} : {A : Type ℓ} → Result A → Tx A
lift r d = (r, d)

abbrev pub modify : (Db → Db) → Tx (Unit {0})
modify f d = (ok tt, f d)

abbrev pub continue {ℓ κ} :
    {A : Type ℓ} {B : Type κ} → Result A → (A → Db → Result B × Db) → Db → Result B × Db
continue (ok a) f d = f a d
continue (err e) f d = (err e, d)

infixl 5 ◌>>=◌ ◌>>◌
abbrev pub ◌>>=◌ {ℓ κ} :
    {A : Type ℓ} {B : Type κ} → (Db → Result A × Db) → (A → Db → Result B × Db) → Db → Result B × Db
◌>>=◌ m f d = continue (m d).0 f (m d).1

abbrev pub ◌>>◌ {ℓ} : {B : Type ℓ} → Tx (Unit {0}) → Tx B → Tx B
m >> k = m >>= λ _. k

-- Inversion of a chain that succeeded.
pub >>=-ok {ℓ κ} :
    {A : Type ℓ} {B : Type κ} (m : Tx A) (f : A → Tx B) (d : Db) {b : B} {d' : Db}
    → (m >>= f) d ≡ (ok b, d')
    → (a : A) × (d₁ : Db) × (m d ≡ (ok a, d₁)) × (f a d₁ ≡ (ok b, d'))
>>=-ok {A} m f d {b} {d'} h = invert (m d).0 (m d).1 refl h
  where
    invert :
        (r : Result A) (d₁ : Db)
        → m d ≡ (r, d₁)
        → continue r f d₁ ≡ (ok b, d')
        → (a : A) × (d₁ : Db) × (m d ≡ (ok a, d₁)) × (f a d₁ ≡ (ok b, d'))
    invert (ok a) d₁ e h = (a, d₁, e, h)
    invert (err x) d₁ e h = cc
