-- ===== src/Prelude/Tests.antt =====
-- Boolean tests on the native numbers, the conditional, and splits on a computed value.
use Prim.Native.Nat.{ℕ, ◌≤◌, ◌<◌, compare, Ordering}
use mathlib.Core.Path.{◌≡◌, refl}
use mathlib.Core.Logic.{◌↔◌, ◌⊎◌, inl, inr}
use mathlib.Core.Bool.{Bool, true, false}
use mathlib.Core.Option.{Option, none, some}
use native.Mathlib.Omega.{arith}

abbrev pub ltb : ℕ → ℕ → Bool
ltb a b = elim (compare a b) [ Ordering.lt ↦ true | _ ↦ false ]

abbrev pub leb : ℕ → ℕ → Bool
leb a b = elim (compare a b) [ Ordering.gt ↦ false | _ ↦ true ]

infix 50 ◌==◌
abbrev pub ◌==◌ : ℕ → ℕ → Bool
a == b = elim (compare a b) [ Ordering.eq ↦ true | _ ↦ false ]

infix 1 if◌then◌else◌
abbrev pub if◌then◌else◌ {ℓ} : {A : Type ℓ} → Bool → A → A → A
if true then x else y = x
if false then x else y = y

pub ltb→lt : (a b : ℕ) → ltb a b ≡ true → a < b
ltb→lt a b h = ground arith

pub lt→ltb : (a b : ℕ) → a < b → ltb a b ≡ true
lt→ltb a b h = ground arith

pub leb→le : (a b : ℕ) → leb a b ≡ true → a ≤ b
leb→le a b h = ground arith

pub leb_false→lt : (a b : ℕ) → leb a b ≡ false → b < a
leb_false→lt a b h = ground arith

pub ltb_false→le : (a b : ℕ) → ltb a b ≡ false → b ≤ a
ltb_false→le a b h = ground arith

pub ==_iff : (a b : ℕ) → ((a == b) ≡ true) ↔ (a ≡ b)
==_iff a b = ground arith

pub Bool-cases : (b : Bool) → (b ≡ true) ⊎ (b ≡ false)
Bool-cases true = inl refl
Bool-cases false = inr refl

pub Option-cases {ℓ} : {A : Type ℓ} (o : Option A) → (o ≡ none) ⊎ ((a : A) × (o ≡ some a))
Option-cases none = inl refl
Option-cases (some a) = inr (a, refl)

-- Two tests that answer `true` at the same time are one.
pub Bool-ext : (a b : Bool) → (a ≡ true → b ≡ true) → (b ≡ true → a ≡ true) → a ≡ b
Bool-ext true b f g = ground (arith, f refl)
Bool-ext false true f g = g refl
Bool-ext false false f g = refl

-- A guarded result that is there.
pub guarded_some {ℓ} :
    {A : Type ℓ} (b : Bool) (x : Option A) {a : A}
    → (if b then x else none) ≡ some a
    → (b ≡ true) × (x ≡ some a)
guarded_some true x h = (refl, h)
guarded_some false x h = cc

-- The value that a chain of two results went through.
pub chain_some {ℓ κ} :
    {A : Type ℓ} {B : Type κ} (x : Option A) (f : A → Option B) {b : B}
    → elim x as (λ _. Option B) [ none ↦ none | some a ↦ f a ] ≡ some b
    → (a : A) × (x ≡ some a) × (f a ≡ some b)
chain_some none f h = cc
chain_some (some a) f h = (a, refl, h)

pub chain_inr {ℓ κ ι} :
    {E : Type ℓ} {A : Type κ} {B : Type ι} (x : E ⊎ A) (f : A → E ⊎ B) {b : B}
    → elim x as (λ _. E ⊎ B) [ inl e ↦ inl e | inr a ↦ f a ] ≡ inr b
    → (a : A) × (x ≡ inr a) × (f a ≡ inr b)
chain_inr (inl e) f h = cc
chain_inr (inr a) f h = (a, refl, h)

pub guarded_inr {ℓ κ} :
    {E : Type ℓ} {A : Type κ} (b : Bool) (x : E ⊎ A) (e : E) {a : A}
    → (if b then x else inl e) ≡ inr a
    → (b ≡ true) × (x ≡ inr a)
guarded_inr true x e h = (refl, h)
guarded_inr false x e h = cc
