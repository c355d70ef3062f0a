-- ===== src/Common/Keys.antt =====
-- `HashMap`s by what `get` answers, over keys that a program compares but does not look into.
use mathlib.Core.Path.{◌≡◌, refl}
use mathlib.Core.Logic.{◌↔◌}
use mathlib.Core.Bool.{Bool, true}
use mathlib.Core.Option.{Option, none, some}
use godot_network_audio.Common.Tests.{if◌then◌else◌}

-- A type of keys with its `Eq`.
pub record Keys : Type 1 where
  pub Key : Type 0
  pub is_same : Key → Key → Bool
  pub is_same_iff : (a b : Key) → (is_same a b ≡ true) ↔ (a ≡ b)

module _ (k : Keys) where
  open k use {Key, is_same}

  abbrev pub Map : Type 0 → Type 0
  Map V = Key → Option V

  abbrev pub insert : {V : Type 0} → Key → V → Map V → Map V
  insert key v m = λ other. if is_same key other then some v else m other

  abbrev pub remove : {V : Type 0} → Key → Map V → Map V
  remove key m = λ other. if is_same key other then none else m other

  pub is_same_refl : (a : Key) → is_same a a ≡ true
  is_same_refl a = (k.is_same_iff a a).1 refl
