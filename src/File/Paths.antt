-- ===== src/File/Paths.antt =====
-- internal/adapter/outbound/file/writer.go: the paths of the backups.
use mathlib.Core.List.{reverse, reverse-cons, append_cancel_left, append_cancel_right}
use dns_flow.Prelude.{
  ◌+◌, ◌-◌, ◌≤◌, ◌≡◌, ◌≢◌, refl, ap, Text, text_eq, text_eq_iff, Bool-cases, false, [], ◌∷◌, ◌++◌,
  length, length-append, length-take, take, inl, inr, arith,
}
use dns_flow.File.{ext_from, ext, backup_path}

length-reverse : (s : Text) → length (reverse s) ≡ length s
length-reverse [] = refl
length-reverse (c ∷ s) =
    rw (reverse-cons c s) (omega (arith, length-append {0} (reverse s) (c ∷ []), length-reverse s))

length-ext_from : (s suffix : Text) → length (ext_from s suffix) ≤ length s + length suffix
unfolding ext_from
length-ext_from [] suffix = omega arith
length-ext_from (c ∷ s) suffix = ground (arith, length-ext_from s (c ∷ suffix))

length-ext : (path : Text) → length (ext path) ≤ length path
unfolding ext
length-ext path = omega (arith, length-ext_from (reverse path) [], length-reverse path)

pub length-backup_path :
    (path stamp : Text) → length (backup_path path stamp) ≡ length path + 1 + length stamp
unfolding backup_path
length-backup_path path stamp =
    let base : Text = take (length path - length (ext path)) path in
    omega (
      arith,
      length-ext path,
      length-take {0} (length path - length (ext path)) path,
      length-append {0} (base ++ b'.' ∷ stamp) (ext path),
      length-append {0} base (b'.' ∷ stamp),
    )

pub backup_path-injective : (path s t : Text) → backup_path path s ≡ backup_path path t → s ≡ t
unfolding backup_path
backup_path-injective path s t h =
    let base : Text = take (length path - length (ext path)) path in
    append_cancel_left (b'.' ∷ []) s t (
      append_cancel_left base (b'.' ∷ s) (b'.' ∷ t)
        (append_cancel_right (base ++ b'.' ∷ s) (base ++ b'.' ∷ t) (ext path) h))

-- Texts of different lengths are two.
pub differ : (s t : Text) → length s ≢ length t → text_eq s t ≡ false
differ s t h = elim (Bool-cases (text_eq s t)) [
  | inl same ↦ absurd (h (ap length ((text_eq_iff s t).0 same)))
  | inr other ↦ other
]

pub differ_by : (s t : Text) → s ≢ t → text_eq s t ≡ false
differ_by s t h = elim (Bool-cases (text_eq s t)) [
  | inl same ↦ absurd (h ((text_eq_iff s t).0 same))
  | inr other ↦ other
]
