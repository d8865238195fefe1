-- ===== src/Wire.antt =====
-- The traits `Serializable` and `Deserializable` of chitchat/src/serialize.rs, with the laws that
-- their users rely on. A buffer is a list of bytes; an `anyhow` error is `none`, its text is left
-- out.
pub mod Ints
pub mod Text
pub mod Address
pub mod Values
use scuttlebutt.Prelude.{ℕ, ◌≡◌, Option, none, some, List, ◌++◌, length, refl, arith}

-- `fn deserialize(buf: &mut &[u8]) -> anyhow::Result<A>`
abbrev pub Parser {ℓ} : Type ℓ → Type ℓ
Parser A = List ℕ → Option (A × List ℕ)

abbrev pub feed {ℓ κ} :
    {A : Type ℓ} {B : Type κ} → (A → Parser B) → Option (A × List ℕ) → Option (B × List ℕ)
feed f none = none
feed f (some (a, rest)) = f a rest

-- The operator `?`.
infixl 5 ◌>>=◌
abbrev pub ◌>>=◌ {ℓ κ} : {A : Type ℓ} {B : Type κ} → Parser A → (A → Parser B) → Parser B
◌>>=◌ p f buf = feed f (p buf)

abbrev pub pure {ℓ} : {A : Type ℓ} → A → Parser A
pure a buf = some (a, buf)

abbrev pub fail {ℓ} : {A : Type ℓ} → Parser A
fail buf = none

-- `Ok` of a value, or an error.
abbrev pub lift {ℓ} : {A : Type ℓ} → Option A → Parser A
lift none = fail
lift (some a) = pure a

-- A type with both traits. `IsWire` says which values the format can carry.
pub record Serde (A : Type 0) : Type 1 where
  pub serialize : A → List ℕ
  pub serialized_len : A → ℕ
  pub deserialize : Parser A
  pub IsWire : A → Type 0
  pub length-serialize : (a : A) → IsWire a → length (serialize a) ≡ serialized_len a
  pub deserialize-serialize :
      (a : A) → IsWire a → (rest : List ℕ) → deserialize (serialize a ++ rest) ≡ some (a, rest)
