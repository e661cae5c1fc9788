-- ===== src/File/Cleanup/Sorted.antt =====
-- internal/adapter/outbound/file/writer.go: the order in which `cleanup` goes through the backups.
use mathlib.Core.List.{Perm}
use mathlib.Core.List.Perm
use dns_flow.Prelude.{◌≡◌, refl, Text, Bool-cases, true, false, List, [], ◌∷◌, All, inl, inr, arith}
use dns_flow.File.Cleanup.{leb_text, insert_descending, sort_descending}

-- The latest name first.
abbrev pub IsDescending : List Text → Type 0
IsDescending [] = Unit
IsDescending (x ∷ xs) = All (λ y. leb_text y x ≡ true) xs × IsDescending xs

leb_text-total : (s t : Text) → leb_text s t ≡ false → leb_text t s ≡ true
unfolding leb_text
leb_text-total [] t h = cc
leb_text-total (c ∷ s) [] h = refl
leb_text-total (c ∷ s) (d ∷ t) h = ground (arith, leb_text-total s t)

leb_text_trans : (s t u : Text) → leb_text s t ≡ true → leb_text t u ≡ true → leb_text s u ≡ true
unfolding leb_text
leb_text_trans [] t u h k = refl
leb_text_trans (c ∷ s) [] u h k = cc
leb_text_trans (c ∷ s) (d ∷ t) [] h k = cc
leb_text_trans (c ∷ s) (d ∷ t) (e ∷ u) h k = ground (arith, leb_text_trans s t u)

insert_descending-Perm : (x : Text) (l : List Text) → Perm (insert_descending x l) (x ∷ l)
unfolding insert_descending
insert_descending-Perm x [] = Perm.rfl
insert_descending-Perm x (y ∷ ys) = elim (Bool-cases (leb_text y x)) [
  | inl later ↦ rw later Perm.rfl
  | inr earlier ↦
      rw earlier (Perm.trans (Perm.cons y (insert_descending-Perm x ys)) (Perm.swap x y ys))
]

sort_descending-Perm : (l : List Text) → Perm (sort_descending l) l
unfolding sort_descending
sort_descending-Perm [] = Perm.rfl
sort_descending-Perm (x ∷ xs) =
    Perm.trans (insert_descending-Perm x (sort_descending xs))
      (Perm.cons x (sort_descending-Perm xs))

below_trans :
    (x y : Text) (l : List Text)
    → leb_text y x ≡ true
    → All (λ z. leb_text z y ≡ true) l
    → All (λ z. leb_text z x ≡ true) l
below_trans x y [] h hs = tt
below_trans x y (z ∷ l) h (k, ks) = (leb_text_trans z y x k h, below_trans x y l h ks)

below-insert_descending :
    (x y : Text) (l : List Text)
    → leb_text x y ≡ true
    → All (λ z. leb_text z y ≡ true) l
    → All (λ z. leb_text z y ≡ true) (insert_descending x l)
unfolding insert_descending
below-insert_descending x y [] h hs = (h, tt)
below-insert_descending x y (z ∷ l) h (k, ks) = elim (Bool-cases (leb_text z x)) [
  | inl later ↦ rw later (h, (k, ks))
  | inr earlier ↦ rw earlier (k, below-insert_descending x y l h ks)
]

insert_descending-IsDescending :
    (x : Text) (l : List Text) → IsDescending l → IsDescending (insert_descending x l)
unfolding insert_descending
insert_descending-IsDescending x [] h = (tt, tt)
insert_descending-IsDescending x (y ∷ ys) (h, hs) = elim (Bool-cases (leb_text y x)) [
  | inl later ↦ rw later ((later, below_trans x y ys later h), (h, hs))
  | inr earlier ↦ rw earlier (
    below-insert_descending x y ys (leb_text-total y x earlier) h,
    insert_descending-IsDescending x ys hs,
  )
]

sort_descending-IsDescending : (l : List Text) → IsDescending (sort_descending l)
unfolding sort_descending
sort_descending-IsDescending [] = tt
sort_descending-IsDescending (x ∷ xs) =
    insert_descending-IsDescending x (sort_descending xs) (sort_descending-IsDescending xs)

pub sort_descending-Sorts :
    (l : List Text) → IsDescending (sort_descending l) × Perm (sort_descending l) l
sort_descending-Sorts l = (sort_descending-IsDescending l, sort_descending-Perm l)
