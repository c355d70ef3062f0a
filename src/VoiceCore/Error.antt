-- ===== src/VoiceCore/Error.antt =====
-- voice-core/src/error.rs: the crate's error type, and `Result` with its `?`.
use Prim.Native.String.{String, ◌++◌ as append_text}
use godot_network_audio.Common.{◌≡◌, refl, ◌⊎◌, inl, inr}

-- A `NetEqError` reaches this type through its text (`From<NetEqError>`).
pub data Error : Type 0 where
  unsupported_config : String → Error
  invalid_packet : String → Error
  opus : String → Error
  net_eq : String → Error

pub data Result {ℓ} (A : Type ℓ) : Type ℓ where
  err : Error → Result A
  ok : A → Result A

-- `?`
module _ {ℓ κ} {A : Type ℓ} {B : Type κ} where
  infixl 5 ◌>>=◌
  abbrev pub ◌>>=◌ : Result A → (A → Result B) → Result B
  err reason >>= next = err reason
  ok value >>= next = next value

-- What a call of another crate comes to: a value, or an error with its text.
pub data Reply {ℓ} (A : Type ℓ) : Type ℓ where
  gives : A → Reply A
  fails : String → Reply A

-- `.map_err(|e| Error::Opus(format!("{prefix}{e}")))`
abbrev pub map_opus {ℓ} : {A : Type ℓ} → String → Reply A → Result A
map_opus prefix (gives a) = ok a
map_opus prefix (fails e) = err (opus (append_text prefix e))

-- `Error::from(NetEqError)`
abbrev pub map_net_eq {ℓ} : {A : Type ℓ} → Reply A → Result A
map_net_eq (gives a) = ok a
map_net_eq (fails e) = err (net_eq e)

pub Result-cases {ℓ} :
    {A : Type ℓ} (r : Result A) → ((a : A) × (r ≡ ok a)) ⊎ ((e : Error) × (r ≡ err e))
Result-cases (ok a) = inl (a, refl)
Result-cases (err e) = inr (e, refl)

pub Reply-cases {ℓ} :
    {A : Type ℓ} (r : Reply A) → ((a : A) × (r ≡ gives a)) ⊎ ((e : String) × (r ≡ fails e))
Reply-cases (gives a) = inl (a, refl)
Reply-cases (fails e) = inr (e, refl)
