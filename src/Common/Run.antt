-- ===== src/Common/Run.antt =====
-- What a piece of code comes to: it ends with a value, it panics, or a loop's fuel did not suffice.
pub data Run {ℓ} (A : Type ℓ) : Type ℓ where
  done : A → Run A
  panics : Run A
  out_of_fuel : Run A

module _ {ℓ κ} {A : Type ℓ} {B : Type κ} where
  infixl 5 ◌>>=◌
  abbrev pub ◌>>=◌ : Run A → (A → Run B) → Run B
  panics >>= next = panics
  out_of_fuel >>= next = out_of_fuel
  done value >>= next = next value
