-- ===== src/Prelude/Dict.antt =====
-- A Go map with text keys as an association list, whose order stands for the order of iteration.
use mathlib.Core.Path.{◌≡◌, refl, subst}
use mathlib.Core.Bool.{Bool, true, false}
use mathlib.Core.List.{List, [], ◌∷◌}
use mathlib.Core.Option.{Option, none, some}
use mathlib.Core.Logic.{inl, inr}
use native.Mathlib.Omega.{arith}
use dns_flow.Prelude.Tests.{if◌then◌else◌, Bool-cases}
use dns_flow.Prelude.Bytes.{Text, text_eq, text_eq_iff, text_eq_symm}

module _ {ℓ} where
  abbrev pub Dict : Type ℓ → Type ℓ
  Dict V = List (Text × V)

module _ {ℓ} {V : Type ℓ} where
  unfoldable pub lookup : Text → Dict V → Option V
  lookup k [] = none
  lookup k ((j, v) ∷ m) = if text_eq j k then some v else lookup k m

  unfoldable pub insert : Text → V → Dict V → Dict V
  insert k v [] = (k, v) ∷ []
  insert k v ((j, w) ∷ m) = if text_eq j k then (k, v) ∷ m else (j, w) ∷ insert k v m

  unfoldable pub delete : Text → Dict V → Dict V
  delete k [] = []
  delete k ((j, w) ∷ m) = if text_eq j k then delete k m else (j, w) ∷ delete k m

  -- No key stands twice.
  abbrev pub Fresh : Text → Dict V → Type 0
  Fresh k [] = Unit
  Fresh k ((j, w) ∷ m) = (text_eq j k ≡ false) × Fresh k m

  abbrev pub UniqueKeys : Dict V → Type 0
  UniqueKeys [] = Unit
  UniqueKeys ((j, w) ∷ m) = Fresh j m × UniqueKeys m

  pub lookup-insert :
      (k j : Text) (v : V) (m : Dict V)
      → lookup j (insert k v m) ≡ (if text_eq k j then some v else lookup j m)
  unfolding lookup insert
  lookup-insert k j v [] = refl
  lookup-insert k j v ((i, w) ∷ m) =
      ground (arith, text_eq_iff k j, text_eq_iff i k, text_eq_iff i j, lookup-insert k j v m)

  pub lookup-delete :
      (k j : Text) (m : Dict V) → lookup j (delete k m) ≡ (if text_eq k j then none else lookup j m)
  unfolding lookup delete
  lookup-delete k j [] = ground arith
  lookup-delete k j ((i, w) ∷ m) =
      ground (arith, text_eq_iff k j, text_eq_iff i k, text_eq_iff i j, lookup-delete k j m)

  Fresh-insert :
      (k j : Text) (v : V) (m : Dict V) → text_eq k j ≡ false → Fresh j m → Fresh j (insert k v m)
  unfolding insert
  Fresh-insert k j v [] h f = ground arith
  Fresh-insert k j v ((i, w) ∷ m) h f = elim (Bool-cases (text_eq i k)) [
    | inl same ↦ rw same (h, f.1)
    | inr other ↦ rw other (f.0, Fresh-insert k j v m h f.1)
  ]

  pub UniqueKeys-insert : (k : Text) (v : V) (m : Dict V) → UniqueKeys m → UniqueKeys (insert k v m)
  unfolding insert
  UniqueKeys-insert k v [] u = (tt, tt)
  UniqueKeys-insert k v ((i, w) ∷ m) u = elim (Bool-cases (text_eq i k)) [
    | inl same ↦ rw same (subst (λ j. Fresh j m) ((text_eq_iff i k).0 same) u.0, u.1)
    | inr other ↦
        rw other (Fresh-insert k i v m (rw text_eq_symm other) u.0, UniqueKeys-insert k v m u.1)
  ]

  Fresh-delete : (k j : Text) (m : Dict V) → Fresh j m → Fresh j (delete k m)
  unfolding delete
  Fresh-delete k j [] f = tt
  Fresh-delete k j ((i, w) ∷ m) f = elim (Bool-cases (text_eq i k)) [
    | inl same ↦ rw same (Fresh-delete k j m f.1)
    | inr other ↦ rw other (f.0, Fresh-delete k j m f.1)
  ]

  pub UniqueKeys-delete : (k : Text) (m : Dict V) → UniqueKeys m → UniqueKeys (delete k m)
  unfolding delete
  UniqueKeys-delete k [] u = tt
  UniqueKeys-delete k ((i, w) ∷ m) u = elim (Bool-cases (text_eq i k)) [
    | inl same ↦ rw same (UniqueKeys-delete k m u.1)
    | inr other ↦ rw other (Fresh-delete k i m u.0, UniqueKeys-delete k m u.1)
  ]

  -- The value at a key that does not stand in the map.
  pub lookup-Fresh : (k : Text) (m : Dict V) → Fresh k m → lookup k m ≡ none
  unfolding lookup
  lookup-Fresh k [] f = refl
  lookup-Fresh k ((i, w) ∷ m) f = rw (f.0) (lookup-Fresh k m f.1)

  pub UniqueKeys-if_delete :
      (b : Bool) (k : Text) (m : Dict V) → UniqueKeys m → UniqueKeys (if b then delete k m else m)
  UniqueKeys-if_delete true k m u = UniqueKeys-delete k m u
  UniqueKeys-if_delete false k m u = u
